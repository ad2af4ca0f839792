-- ===== src/Operators/Written.antt =====
-- What a write to the Kubernetes API does with the nonces of the resources.
use Prim.Native.String.{String}
use text.Mathlib.Text.{◌==◌}
use text.Mathlib.TextEquality.{eq_iff}
use mathlib.Core.Path.{subst}
use wasm_operator.Base.{false, ◌≡◌, ◌≢◌, sym, ◌∙◌, arith, inl, inr, ℤ, ◌≤ℤ◌, Bool-cases}
use wasm_operator.Operators.Api.{TestResource, found, Api, HasNonce, HasAtLeast, IsWritten, IsApi}

module _ {S Time : Type 0} (api : Api S Time) (laws : IsApi api) where
  pub HasNonce-same :
      (ns name : String) (nonce : ℤ) (s : S) {r : TestResource Time}
      → api.get ns name s ≡ found r
      → HasNonce api ns name nonce s
      → r.nonce ≡ nonce
  HasNonce-same ns name nonce s g h = let both = sym g ∙ h.fetched in let same = h.same_nonce in cc

  pub HasNonce-HasAtLeast :
      (ns name : String) (nonce : ℤ) (s : S)
      → HasNonce api ns name nonce s
      → HasAtLeast api ns name nonce s
  HasNonce-HasAtLeast ns name nonce s h = record { current = nonce; has = h; enough = omega arith }

  -- A write that raises the nonce of one resource lowers none.
  pub IsWritten-HasAtLeast :
      (ns name ns' name' : String) (nonce k : ℤ) (s s' : S)
      → IsWritten api ns name nonce s s'
      → ((ns ≡ ns') → (name ≡ name') → k ≤ℤ nonce)
      → HasNonce api ns' name' k s
      → HasAtLeast api ns' name' k s'
  IsWritten-HasAtLeast ns name ns' name' nonce k s s' w raises h = elim (Bool-cases (ns == ns')) [
    | inr e ↦ untouched (w.others ns' name' (inl (different ns ns' e)))
    | inl e ↦ elim (Bool-cases (name == name')) [
      | inr f ↦ untouched (w.others ns' name' (inr (different name name' f)))
      | inl f ↦
          let p : ns ≡ ns' = (eq_iff ns ns').0 e in
          let q : name ≡ name' = (eq_iff name name').0 f in
          record {
            current = nonce;
            has =
                subst (λ m. HasNonce api ns' m nonce s') q
                  (subst (λ n. HasNonce api n name nonce s') p w.written);
            enough = raises p q;
          }
    ]
  ]
    where
      different : (a b : String) → (a == b) ≡ false → a ≢ b
      different a b e same = cc (e, (eq_iff a b).1 same)

      untouched : api.get ns' name' s' ≡ api.get ns' name' s → HasAtLeast api ns' name' k s'
      untouched e = record {
        current = k;
        has = record {
          resource = h.resource;
          fetched = e ∙ h.fetched;
          same_name = h.same_name;
          same_nonce = h.same_nonce;
        };
        enough = omega arith;
      }
