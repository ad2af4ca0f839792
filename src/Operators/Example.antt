-- ===== src/Operators/Example.antt =====
-- A small API server: a natural number for each key, which is nonce and version of a resource.
use Prim.Native.String.{String}
use text.Mathlib.Text.{◌==◌}
use text.Mathlib.TextEquality.{eq_iff}
use text.Mathlib.TextPositions.{eq_refl}
use wasm_operator.Base.{
  some_injective, ℕ, Bool, true, false, ◌&&◌, Option, none, some, ◌≡◌, ◌≢◌, ◌⊎◌, refl, sym, ap, ◌∙◌,
  arith, inl, inr, ℤ, pos, negsuc, if◌then◌else◌, Bool-cases, Option-cases,
}
use wasm_operator.Base
use mathlib.Core.Path.{subst}
use wasm_operator.Operators.Api.{TestResource, Fetched, found, not_found, Api, IsWritten, IsApi}

abbrev pub Server : Type 0
Server = String → String → Option ℕ

abbrev pub resource : String → ℕ → TestResource ℕ
resource name n = record {
  name = name;
  resource_version = some n;
  nonce = pos n;
  updated_at = none;
}

abbrev pub fetch : String → Option ℕ → Fetched ℕ
fetch name none = not_found
fetch name (some n) = found (resource name n)

abbrev pub set : String → String → ℕ → Server → Server
set ns name n s ns' name' = if (ns == ns') && (name == name') then some n else s ns' name'

abbrev pub replaced : String → String → Option ℕ → Option ℕ → ℤ → Server → Option Server
replaced ns name (some old) (some v) (pos n) s =
    if Base.◌==◌ old v then some (set ns name n s) else none
replaced ns name (some old) (some v) (negsuc n) s = none
replaced ns name (some old) none n s = none
replaced ns name none v n s = none

abbrev pub created : String → String → Option ℕ → ℤ → Server → Option Server
created ns name none (pos n) s = some (set ns name n s)
created ns name none (negsuc n) s = none
created ns name (some old) n s = none

abbrev pub server : Api Server ℕ
server = record {
  get = λ ns name s. fetch name (s ns name);
  replace = λ ns name r s. replaced ns name (s ns name) r.resource_version r.nonce s;
  create = λ ns r s. created ns r.name (s ns r.name) r.nonce s;
}

set-IsWritten :
    (ns name : String) (n : ℕ) (s : Server) → IsWritten server ns name (pos n) s (set ns name n s)
set-IsWritten ns name n s = record {
  written = record {
    resource = resource name n;
    fetched = rw (eq_refl ns, eq_refl name) refl;
    same_name = refl;
    same_nonce = refl;
  };
  others = λ ns' name' d. kept ns' name' d (Bool-cases (ns == ns')) (Bool-cases (name == name'));
}
  where
    kept :
        (ns' name' : String)
        → (ns ≢ ns') ⊎ (name ≢ name')
        → ((ns == ns') ≡ true) ⊎ ((ns == ns') ≡ false)
        → ((name == name') ≡ true) ⊎ ((name == name') ≡ false)
        → fetch name' (set ns name n s ns' name') ≡ fetch name' (s ns' name')
    kept ns' name' d (inr e) q = rw e refl
    kept ns' name' d (inl e) (inr f) = rw (e, f) refl
    kept ns' name' (inl d) (inl e) (inl f) = absurd (d ((eq_iff ns ns').0 e))
    kept ns' name' (inr d) (inl e) (inl f) = absurd (d ((eq_iff name name').0 f))

same_set : {s s' : Server} → some s ≡ some s' → s ≡ s'
same_set e = cc

fetch_law :
    (name : String) (x : Option ℕ) {r : TestResource ℕ}
    → fetch name x ≡ found r
    → (k : ℕ) × (x ≡ some k) × (resource name k ≡ r)
fetch_law name none e = cc
fetch_law name (some k) e = (k, refl, cc)

replaced_law :
    (ns name : String) (x : Option ℕ) (v : ℕ) (nonce : ℤ) (s : Server) {s' : Server}
    → replaced ns name x (some v) nonce s ≡ some s'
    → (x ≡ some v) × IsWritten server ns name nonce s s'
replaced_law ns name none v nonce s e = cc
replaced_law ns name (some old) v (negsuc n) s e = cc
replaced_law ns name (some old) v (pos n) s {s' = s'} e = elim (Bool-cases (Base.◌==◌ old v)) [
  | inl same ↦
      let done =
        subst (λ (t : Bool). (if t then some (set ns name n s) else none) ≡ some s') same e in
      (
        ap some ((Base.==_iff old v).0 same),
        subst (IsWritten server ns name (pos n) s) (same_set done) (set-IsWritten ns name n s),
      )
  | inr other ↦
      let done =
        subst (λ (t : Bool). (if t then some (set ns name n s) else none) ≡ some s') other e in
      cc
]

created_law :
    (ns name : String) (x : Option ℕ) (nonce : ℤ) (s : Server) {s' : Server}
    → created ns name x nonce s ≡ some s'
    → (x ≡ none) × IsWritten server ns name nonce s s'
created_law ns name none (pos n) s e =
    (refl, subst (IsWritten server ns name (pos n) s) (same_set e) (set-IsWritten ns name n s))
created_law ns name none (negsuc n) s e = cc
created_law ns name (some old) nonce s e = cc

pub server-IsApi : IsApi server
server-IsApi = record {
  get_lem = λ ns name s e.
      let (k, there, same) = fetch_law name (s ns name) e in
      (
        sym (ap (λ (r : TestResource ℕ). r.name) same),
        (k, sym (ap (λ (r : TestResource ℕ). r.resource_version) same)),
      );
  version_lem = λ ns name s s' e e' versions.
      let (k, there, same) = fetch_law name (s ns name) e in
      let (k', there', same') = fetch_law name (s' ns name) e' in
      let numbers : some k ≡ some k' =
        ap (λ (r : TestResource ℕ). r.resource_version) same
        ∙ versions
        ∙ sym (ap (λ (r : TestResource ℕ). r.resource_version) same') in
      sym same ∙ ap (resource name) (some_injective numbers) ∙ same';
  replace_lem = λ ns name r s {s'} {v} named versioned e.
      let (x, w) = replaced_law ns name (s ns name) v r.nonce s (
        subst (λ (t : Option ℕ). replaced ns name (s ns name) t r.nonce s ≡ some s') versioned e) in
      ((resource name v, ap (fetch name) x, sym versioned), w);
  create_lem = λ ns r s e.
      let (x, w) = created_law ns r.name (s ns r.name) r.nonce s e in (ap (fetch r.name) x, w);
}
