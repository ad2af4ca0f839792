-- ===== src/Runtime/Metadata.antt =====
-- modules/metadata.rs: the documents of the file `wasm_config.yaml`. The parser of `serde_yaml` is
-- a parameter, as is the way in which `split` cuts the file at each line `---`.
use Prim.Native.String.{String}
use wasm_operator.Base.{Option, none, some, List, [], ◌∷◌, ◌≡◌, ◌⊎◌, refl, ◌∙◌, inl, inr}

pub record EnvironmentVariable : Type 0 where
  pub name : String
  pub value : String

pub record ControllerModuleMetadata : Type 0 where
  pub name : String
  pub wasm : String
  pub env : List EnvironmentVariable
  pub args : List String

-- What `serde_yaml::from_str` makes of a document. An empty document is an error, whose text
-- contains `EOF while parsing a value`.
pub data Parsed : Type 0 where
  metadata : ControllerModuleMetadata → Parsed
  eof_error : Parsed
  other_error : Parsed

module _ (from_str : String → Parsed) where
  -- The closure of `filter_map`: none for a document that is passed over, else a result, which is
  -- none for an error.
  unfoldable pub parse_document : String → Option (Option ControllerModuleMetadata)
  parse_document yaml_doc = elim (from_str yaml_doc) [
    | metadata m ↦ some (some m)
    | eof_error ↦ none
    | other_error ↦ some none
  ]

  -- `collect` into a result: none if one of the results is an error.
  unfoldable pub load_documents : List String → Option (List ControllerModuleMetadata)
  load_documents [] = some []
  load_documents (yaml_doc ∷ docs) = elim (parse_document yaml_doc) [
    | none ↦ load_documents docs
    | some none ↦ none
    | some (some m) ↦ elim (load_documents docs) [ none ↦ none | some ms ↦ some (m ∷ ms) ]
  ]

  -- `load_modules_from_dir`; `read` is the content of the file, none if it cannot be read.
  unfoldable pub load_modules_from_dir :
      (String → List String) → Option String → Option (List ControllerModuleMetadata)
  load_modules_from_dir split none = none
  load_modules_from_dir split (some wasm_config) = load_documents (split wasm_config)

  -- The modules that the documents describe, in order; nothing else stands in them but empty
  -- documents.
  pub data Describes : List String → List ControllerModuleMetadata → Type 0 where
    nothing : Describes [] []
    passes :
        {doc : String} {docs : List String} {ms : List ControllerModuleMetadata}
        → from_str doc ≡ eof_error
        → Describes docs ms
        → Describes (doc ∷ docs) ms
    describes :
        {doc : String} {docs : List String} {m : ControllerModuleMetadata}
        {ms : List ControllerModuleMetadata}
        → from_str doc ≡ metadata m
        → Describes docs ms
        → Describes (doc ∷ docs) (m ∷ ms)

  -- A document that is wrong.
  pub data IsWrong : List String → Type 0 where
    here : {doc : String} {docs : List String} → from_str doc ≡ other_error → IsWrong (doc ∷ docs)
    later : {doc : String} {docs : List String} → IsWrong docs → IsWrong (doc ∷ docs)

  add_document :
      (doc : String) (docs : List String) (x : Parsed)
      (rest : Option (List ControllerModuleMetadata))
      → from_str doc ≡ x
      → load_documents docs ≡ rest
      → ((rest ≡ none) × IsWrong docs)
        ⊎ ((ms : List ControllerModuleMetadata) × (rest ≡ some ms) × Describes docs ms)
      → ((load_documents (doc ∷ docs) ≡ none) × IsWrong (doc ∷ docs))
        ⊎ ((ms : List ControllerModuleMetadata) × (load_documents (doc ∷ docs) ≡ some ms)
            × Describes (doc ∷ docs) ms)
  unfolding load_documents parse_document
  add_document doc docs (metadata m) rest e f (inl (n, w)) =
      inl (rw (e, load_documents) (rw (f, n) refl), later w)
  add_document doc docs (metadata m) rest e f (inr (ms, n, d)) =
      inr (m ∷ ms, rw (e, load_documents) (rw (f, n) refl), describes e d)
  add_document doc docs eof_error rest e f (inl (n, w)) =
      inl (rw (e, load_documents) (f ∙ n), later w)
  add_document doc docs eof_error rest e f (inr (ms, n, d)) =
      inr (ms, rw (e, load_documents) (f ∙ n), passes e d)
  add_document doc docs other_error rest e f known = inl (rw (e, load_documents) refl, here e)

  load_documents-cases :
      (docs : List String)
      → ((load_documents docs ≡ none) × IsWrong docs)
        ⊎ ((ms : List ControllerModuleMetadata) × (load_documents docs ≡ some ms)
            × Describes docs ms)
  unfolding load_documents
  load_documents-cases [] = inr ([], refl, nothing)
  load_documents-cases (doc ∷ docs) =
      add_document doc docs (from_str doc) (load_documents docs) refl refl
        (load_documents-cases docs)

  -- The configuration file: either it cannot be read, or a document is wrong, and nothing is loaded;
  -- or every document is empty or describes a module, and those are loaded, in order.
  pub load_modules_from_dir-cases :
      (split : String → List String) (wasm_config : String)
      → ((load_modules_from_dir split (some wasm_config) ≡ none) × IsWrong (split wasm_config))
        ⊎ ((ms : List ControllerModuleMetadata) × (load_modules_from_dir split (some wasm_config)
              ≡ some ms)
            × Describes (split wasm_config) ms)
  unfolding load_modules_from_dir
  load_modules_from_dir-cases split wasm_config = load_documents-cases (split wasm_config)
