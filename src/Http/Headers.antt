-- ===== src/Http/Headers.antt =====
-- The loops of http_data.rs and request_executor.rs that copy headers.
use wasm_operator.Base.{
  ◌+◌, ◌≤◌, some, List, [], ◌∷◌, ◌++◌, length, ◌≡◌, refl, sym, ap, ◌∙◌, arith, if◌then◌else◌,
}
use mathlib.Core.List.{append-nil, append_assoc}
use wasm_operator.Base.Outcome.{ok}
use wasm_operator.Http.Crate.{HeaderMaps, IsHeaderMaps, values_of}
use wasm_operator.Http.{append_header, append_all}

-- The same headers: the same values for each name, in the same order, and as many.
pub record IsSame {Name Value Map : Type 0} (maps : HeaderMaps Name Value Map) (m m' : Map)
    : Type 0 where
  pub values : (name : Name) → maps.get_all name m ≡ maps.get_all name m'
  pub size : length (maps.iter m) ≡ length (maps.iter m')

module _ {Name Value Map : Type 0} (maps : HeaderMaps Name Value Map)
    (laws : IsHeaderMaps maps) where
  pub IsSame_trans : {a b c : Map} → IsSame maps a b → IsSame maps b c → IsSame maps a c
  IsSame_trans p q = record {
    values = λ name. p.values name ∙ q.values name;
    size = p.size ∙ q.size;
  }

  -- What the loop has appended to a map.
  record IsAppended (headers : List (Name × Value)) (m m' : Map) : Type 0 where
    values :
        (name : Name)
        → maps.get_all name m' ≡ maps.get_all name m ++ values_of (maps.same_name name) headers
    size : length (maps.iter m') ≡ length (maps.iter m) + length headers

  append_all-step :
      (name : Name) (value : Value) (rest : List (Name × Value)) (m : Map) {m' : Map}
      → maps.append name value m ≡ some m'
      → append_all maps ((name, value) ∷ rest) m ≡ append_all maps rest m'
  unfolding append_all append_header
  append_all-step name value rest m e = rw (e, append_header) refl

  append_all-IsAppended :
      (headers : List (Name × Value)) (m : Map)
      → length (maps.iter m) + length headers ≤ maps.max_size
      → (m' : Map) × (append_all maps headers m ≡ ok m') × IsAppended headers m m'
  unfolding append_all append_header
  append_all-IsAppended [] m small = (
    m,
    refl,
    record { values = λ name. sym (append-nil (maps.get_all name m)); size = omega arith },
  )
  append_all-IsAppended ((name, value) ∷ rest) m small =
      let (m1, e1) = laws.append_room name value m (omega arith) in
      let grown = laws.length-append name value m e1 in
      let (m2, e2, r) = append_all-IsAppended rest m1 (omega (arith, grown)) in
      (
        m2,
        append_all-step name value rest m e1 ∙ e2,
        record {
          values = λ other.
              r.values other
              ∙ ap (λ vs. vs ++ values_of (maps.same_name other) rest)
                  (laws.get_all-append name value m e1 other)
              ∙ append_assoc (maps.get_all other m)
                  (if maps.same_name other name then value ∷ [] else [])
                  (values_of (maps.same_name other) rest);
          size = (let s = r.size in omega (arith, s, grown));
        },
      )

  -- A copy in an empty map.
  pub append_all-IsSame :
      (m : Map)
      → length (maps.iter m) ≤ maps.max_size
      → (m' : Map) × (append_all maps (maps.iter m) maps.empty ≡ ok m') × IsSame maps m m'
  append_all-IsSame m small =
      let none_yet : length (maps.iter maps.empty) ≡ 0 = ap length laws.iter-empty in
      let (m', e, r) = append_all-IsAppended (maps.iter m) maps.empty (omega (arith, none_yet)) in
      (
        m',
        e,
        record {
          values = λ name.
              laws.get_all-iter name m
              ∙ ap (λ vs. vs ++ values_of (maps.same_name name) (maps.iter m))
                  (sym (
                    laws.get_all-iter name maps.empty
                    ∙ ap (values_of (maps.same_name name)) laws.iter-empty))
              ∙ sym (r.values name);
          size = (let s = r.size in omega (arith, s, none_yet));
        },
      )
