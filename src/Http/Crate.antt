-- ===== src/Http/Crate.antt =====
-- What the repository uses of the `http` crate, with the documented behaviour that it relies on.
use wasm_operator.Base.{
  ℕ, suc, ◌<◌, Bool, Option, some, List, [], ◌∷◌, ◌++◌, length, ◌≡◌, if◌then◌else◌,
}

-- `http::uri::Parts`.
pub record Parts (Scheme Authority PathAndQuery : Type 0) : Type 0 where
  pub scheme : Option Scheme
  pub authority : Option Authority
  pub path_and_query : Option PathAndQuery

pub record Uris (Uri Scheme Authority PathAndQuery : Type 0) : Type 0 where
  pub into_parts : Uri → Parts Scheme Authority PathAndQuery
  pub from_parts : Parts Scheme Authority PathAndQuery → Option Uri

-- A URI is its parts, and a scheme, an authority and a path make a URI.
pub record IsUris {Uri Scheme Authority PathAndQuery : Type 0}
    (uris : Uris Uri Scheme Authority PathAndQuery) : Type 0 where
  pub into_parts-from_parts :
      (parts : Parts Scheme Authority PathAndQuery) {uri : Uri}
      → uris.from_parts parts ≡ some uri
      → uris.into_parts uri ≡ parts
  pub from_parts_complete :
      (scheme : Scheme) (authority : Authority) (p : PathAndQuery)
      → (uri : Uri) × (uris.from_parts
            (record { scheme = some scheme; authority = some authority; path_and_query = some p })
          ≡ some uri)

-- `HeaderMap`: a name can have several values. `append` is none on a map that is full.
pub record HeaderMaps (Name Value Map : Type 0) : Type 0 where
  pub same_name : Name → Name → Bool
  pub max_size : ℕ
  pub empty : Map
  pub append : Name → Value → Map → Option Map
  pub iter : Map → List (Name × Value)
  pub get_all : Name → Map → List Value

-- The values that a list of headers gives to a name.
abbrev pub values_of : {Name Value : Type 0} → (Name → Bool) → List (Name × Value) → List Value
values_of is_name [] = []
values_of is_name ((name, value) ∷ rest) =
    (if is_name name then value ∷ [] else []) ++ values_of is_name rest

-- The iterator visits the values of a name in their order; `append` puts a value behind the others
-- of its name, and has room as long as there are fewer headers than the limit.
pub record IsHeaderMaps {Name Value Map : Type 0} (maps : HeaderMaps Name Value Map) : Type 0 where
  pub get_all-iter :
      (name : Name) (m : Map) → maps.get_all name m ≡ values_of (maps.same_name name) (maps.iter m)
  pub iter-empty : maps.iter maps.empty ≡ []
  pub append_room :
      (name : Name) (value : Value) (m : Map)
      → length (maps.iter m) < maps.max_size
      → (m' : Map) × (maps.append name value m ≡ some m')
  pub get_all-append :
      (name : Name) (value : Value) (m : Map) {m' : Map}
      → maps.append name value m ≡ some m'
      → (other : Name)
      → maps.get_all other m'
        ≡ maps.get_all other m ++ (if maps.same_name other name then value ∷ [] else [])
  pub length-append :
      (name : Name) (value : Value) (m : Map) {m' : Map}
      → maps.append name value m ≡ some m'
      → length (maps.iter m') ≡ suc (length (maps.iter m))

-- `http::Request` and `http::Response`, without the version and the extensions, which the code
-- leaves as they are made.
pub record Request (Method Uri Map T : Type 0) : Type 0 where
  pub method : Method
  pub uri : Uri
  pub headers : Map
  pub body : T

pub record Response (Status Map T : Type 0) : Type 0 where
  pub status : Status
  pub headers : Map
  pub body : T
