-- ===== src/Runtime/Cache.antt =====
-- `cache_precompile` of runtime/environment.rs: compiled modules are kept in files that are named
-- after the hash of the source. The hash (`blake3`) and the compiler (`wasmtime`) are parameters.
use Prim.Native.String.{String}
use text.Mathlib.Text.{◌==◌}
use text.Mathlib.TextEquality.{eq_iff}
use text.Mathlib.TextPositions.{eq_refl}
use mathlib.Core.Path.{subst}
use wasm_operator.Base.{
  ◌⊎◌, Bool, true, false, Option, none, some, ◌≡◌, refl, sym, ap, ◌∙◌, is_some, if◌then◌else◌, inl,
  inr, Bool-cases,
}
use wasm_operator.Abi.Command.{Bytes}

-- The files, by path.
abbrev pub Files : Type 0
Files = String → Option Bytes

abbrev pub write : String → Bytes → Files → Files
write path bytes files p = if p == path then some bytes else files p

-- `cache_path.join(key).with_extension("wasm")` is `cache_file key`.
module _ (cache_file : String → String) (hash : Bytes → String)
    (precompile_module : Bytes → Option Bytes) where
  -- None for an error, which leaves the files as they are.
  unfoldable pub cache_precompile : String → Files → Option (String × Files)
  cache_precompile wasm_path files = elim (files wasm_path) [
    | none ↦ none
    | some wasm_bytes ↦
        let file = cache_file (hash wasm_bytes) in
        if is_some (files file) then some (file, files) else elim (precompile_module wasm_bytes) [
          | none ↦ none
          | some compiled ↦ some (file, write file compiled files)
        ]
  ]

  -- Each file of the cache is what the compiler makes of the source that it is named after.
  pub record IsCache (files : Files) : Type 0 where
    pub compiled :
        (wasm_bytes : Bytes) {b : Bytes}
        → files (cache_file (hash wasm_bytes)) ≡ some b
        → precompile_module wasm_bytes ≡ some b

module _ (cache_file : String → String) (hash : Bytes → String)
    (precompile_module : Bytes → Option Bytes)
    (distinct : (a b : Bytes) → cache_file (hash a) ≡ cache_file (hash b) → a ≡ b) where
  write-IsCache :
      (files : Files) (wasm_bytes compiled : Bytes)
      → IsCache cache_file hash precompile_module files
      → precompile_module wasm_bytes ≡ some compiled
      → IsCache cache_file hash precompile_module
          (write (cache_file (hash wasm_bytes)) compiled files)
  write-IsCache files wasm_bytes compiled cache made = record {
    compiled = λ other h.
        by_name other h (Bool-cases (cache_file (hash other) == cache_file (hash wasm_bytes)));
  }
    where
      by_name :
          (other : Bytes) {b : Bytes}
          → write (cache_file (hash wasm_bytes)) compiled files (cache_file (hash other)) ≡ some b
          → ((cache_file (hash other) == cache_file (hash wasm_bytes)) ≡ true)
            ⊎ ((cache_file (hash other) == cache_file (hash wasm_bytes)) ≡ false)
          → precompile_module other ≡ some b
      by_name other {b = b} h (inl e) =
          let same = distinct other wasm_bytes ((eq_iff _ _).0 e) in
          let found =
            subst
              (λ (t : Bool).
                (if t then some compiled else files (cache_file (hash other))) ≡ some b)
              e h in
          ap precompile_module same ∙ made ∙ found
      by_name other {b = b} h (inr e) = cache.compiled other (
          subst
            (λ (t : Bool). (if t then some compiled else files (cache_file (hash other))) ≡ some b)
            e h)

  -- Where a call ends with this file.
  pub record IsCompiled (wasm_path : String) (files : Files) (x : String × Files) : Type 0 where
    pub cache : IsCache cache_file hash precompile_module x.1
    pub source : Bytes
    pub read : files wasm_path ≡ some source
    pub file : x.1 x.0 ≡ precompile_module source
    pub present : is_some (x.1 x.0) ≡ true

  abbrev AllCompiled : String → Files → Option (String × Files) → Type 0
  AllCompiled wasm_path files none = Unit
  AllCompiled wasm_path files (some x) = IsCompiled wasm_path files x

  cache_precompile-AllCompiled :
      (wasm_path : String) (files : Files)
      → IsCache cache_file hash precompile_module files
      → AllCompiled wasm_path files
          (cache_precompile cache_file hash precompile_module wasm_path files)
  unfolding cache_precompile
  cache_precompile-AllCompiled wasm_path files cache = known (files wasm_path) refl
    where
      miss :
          (bytes : Bytes) (x : Option Bytes)
          → files wasm_path ≡ some bytes
          → precompile_module bytes ≡ x
          → AllCompiled wasm_path files (elim x [
            | none ↦ none
            | some c ↦ some (cache_file (hash bytes), write (cache_file (hash bytes)) c files)
          ])
      miss bytes none e f = tt
      miss bytes (some c) e f =
          let here = eq_refl (cache_file (hash bytes)) in
          record {
            cache = write-IsCache files bytes c cache f;
            source = bytes;
            read = e;
            file = rw here (sym f);
            present = rw here refl;
          }

      hit :
          (bytes : Bytes) (x : Option Bytes)
          → files wasm_path ≡ some bytes
          → files (cache_file (hash bytes)) ≡ x
          → AllCompiled wasm_path files (
              if is_some x
              then some (cache_file (hash bytes), files)
              else elim (precompile_module bytes) [
                | none ↦ none
                | some c ↦ some (cache_file (hash bytes), write (cache_file (hash bytes)) c files)
              ])
      hit bytes none e f = miss bytes (precompile_module bytes) e refl
      hit bytes (some b) e f = record {
        cache = cache;
        source = bytes;
        read = e;
        file = f ∙ sym (cache.compiled bytes f);
        present = rw f refl;
      }

      known :
          (x : Option Bytes)
          → files wasm_path ≡ x
          → AllCompiled wasm_path files (elim x [
            | none ↦ none
            | some wasm_bytes ↦
                if is_some (files (cache_file (hash wasm_bytes)))
                then some (cache_file (hash wasm_bytes), files)
                else elim (precompile_module wasm_bytes) [
                  | none ↦ none
                  | some c ↦
                      some
                        (cache_file (hash wasm_bytes), write (cache_file (hash wasm_bytes)) c files)
                ]
          ])
      known none e = tt
      known (some bytes) e = hit bytes (files (cache_file (hash bytes))) e refl

  -- A call on a cache in which each file is what the compiler makes of the source that it is named
  -- after, if no two sources have one name: if the call succeeds, the file that it returns is there
  -- and is what the compiler makes of the source, and the cache is still of that kind.
  pub cache_precompile-IsCompiled :
      (wasm_path : String) (files : Files) (x : String × Files)
      → IsCache cache_file hash precompile_module files
      → cache_precompile cache_file hash precompile_module wasm_path files ≡ some x
      → IsCompiled wasm_path files x
  cache_precompile-IsCompiled wasm_path files x cache e =
      subst (AllCompiled wasm_path files) e (cache_precompile-AllCompiled wasm_path files cache)
