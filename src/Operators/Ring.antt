-- ===== src/Operators/Ring.antt =====
-- controllers/ring-rust-controller/src/main.rs: an operator that copies the nonce of a resource in
-- one namespace to the resource of the same name in the next.
use Prim.Native.String.{String}
use mathlib.Core.Path.{subst}
use wasm_operator.Base.{
  Bool, false, Option, none, some, ◌≡◌, refl, sym, ap, ◌∙◌, arith, inl, inr, ℤ, ◌<ℤ◌, ltb_ℤ,
  if◌then◌else◌, Bool-cases,
}
use wasm_operator.Operators.Api.{
  TestResource, Fetched, found, not_found, get_failed, Api, HasNonce, HasAtLeast, IsApi,
  test_resource, Reconciled, Action, reconciled, failed, await_change,
}
use wasm_operator.Operators.Written.{HasNonce-same, HasNonce-HasAtLeast, IsWritten-HasAtLeast}

-- A call that writes: its error is passed on by `?`, and leaves the server as it is.
abbrev pub written_or {ℓ} : {S : Type ℓ} → Option S → S → Reconciled × S
written_or (some s') s = (reconciled await_change, s')
written_or none s = (failed, s)

module _ {S Time : Type 0} (api : Api S Time) where
  -- The branches of `reconcile`, on what `get` has returned.
  unfoldable pub update_out : String → TestResource Time → Time → Fetched Time → S → Reconciled × S
  unfolding test_resource
  update_out out_namespace in_test_resource now_timestamp (found existing) s =
      if ltb_ℤ existing.nonce in_test_resource.nonce
      then written_or
          (api.replace out_namespace existing.name
            (record existing { nonce = in_test_resource.nonce; updated_at = some now_timestamp }) s)
          s
      else (reconciled await_change, s)
  update_out out_namespace in_test_resource now_timestamp not_found s =
      written_or
        (api.create out_namespace
          (test_resource in_test_resource.name in_test_resource.nonce now_timestamp) s)
        s
  update_out out_namespace in_test_resource now_timestamp get_failed s = (failed, s)

  -- `fetched` is the server's state at the `get`, `s` at the write: others may write in between.
  unfoldable pub reconcile : String → TestResource Time → Time → S → S → Reconciled × S
  unfolding update_out
  reconcile out_namespace in_test_resource now_timestamp fetched s =
      update_out out_namespace in_test_resource now_timestamp
        (api.get out_namespace in_test_resource.name fetched) s

module _ {S Time : Type 0} (api : Api S Time) (laws : IsApi api) where
  replaced :
      (out_namespace : String) (existing : TestResource Time) (nonce : ℤ) (now : Time)
      (fetched s s' : S) (ns' name' : String) (k : ℤ)
      → api.get out_namespace existing.name fetched ≡ found existing
      → existing.nonce <ℤ nonce
      → api.replace out_namespace existing.name
          (record existing { nonce = nonce; updated_at = some now })
          s
        ≡ some s'
      → HasNonce api ns' name' k s
      → HasAtLeast api ns' name' k s'
  replaced out_namespace existing nonce now fetched s s' ns' name' k g lt r h =
      let (v, versioned) = (laws.get_lem out_namespace existing.name fetched g).1 in
      let ((old, g', same), w) =
        laws.replace_lem out_namespace existing.name
          (record existing { nonce = nonce; updated_at = some now }) s refl versioned r in
      let unchanged : old ≡ existing =
        laws.version_lem out_namespace existing.name s fetched g' g same in
      IsWritten-HasAtLeast api laws out_namespace existing.name ns' name' nonce k s s' w
        (λ p q.
          let moved : api.get ns' name' s ≡ found old = rw (← p, ← q) g' in
          let nonces : old.nonce ≡ k = HasNonce-same api laws ns' name' k s moved h in
          let was : existing.nonce ≡ k =
            (let e = ap (λ (x : TestResource Time). x.nonce) unchanged in cc) in
          rw (← was) (omega arith))
        h

  created :
      (out_namespace : String) (r : TestResource Time) (s s' : S) (ns' name' : String) (k : ℤ)
      → api.create out_namespace r s ≡ some s'
      → HasNonce api ns' name' k s
      → HasAtLeast api ns' name' k s'
  created out_namespace r s s' ns' name' k c h =
      let (absent, w) = laws.create_lem out_namespace r s c in
      IsWritten-HasAtLeast api laws out_namespace r.name ns' name' r.nonce k s s' w
        (λ p q.
          let moved : api.get ns' name' s ≡ not_found = rw (← p, ← q) absent in
          let there = h.fetched in cc)
        h

  written_or-HasAtLeast :
      (x : Option S) (s : S) (ns' name' : String) (k : ℤ)
      → ((s' : S) → x ≡ some s' → HasAtLeast api ns' name' k s')
      → HasAtLeast api ns' name' k s
      → HasAtLeast api ns' name' k (written_or x s).1
  written_or-HasAtLeast none s ns' name' k new old = old
  written_or-HasAtLeast (some s') s ns' name' k new old = new s' refl

  update_out-HasAtLeast :
      (out_namespace : String) (in_test_resource : TestResource Time) (now : Time) (fetched s : S)
      (x : Fetched Time) (ns' name' : String) (k : ℤ)
      → api.get out_namespace in_test_resource.name fetched ≡ x
      → HasNonce api ns' name' k s
      → HasAtLeast api ns' name' k (update_out api out_namespace in_test_resource now x s).1
  unfolding update_out test_resource
  update_out-HasAtLeast out_namespace i now fetched s (found existing) ns' name' k g h =
      let named : existing.name ≡ i.name = (laws.get_lem out_namespace i.name fetched g).0 in
      elim (Bool-cases (ltb_ℤ existing.nonce i.nonce)) [
        | inr e ↦ rw e (HasNonce-HasAtLeast api laws ns' name' k s h)
        | inl e ↦ rw e (
            written_or-HasAtLeast _ s ns' name' k
              (λ s' r.
                replaced out_namespace existing i.nonce now fetched s s' ns' name' k
                  (subst (λ (n : String). api.get out_namespace n fetched ≡ found existing)
                    (sym named) g)
                  (ground arith) r h)
              (HasNonce-HasAtLeast api laws ns' name' k s h))
      ]
  update_out-HasAtLeast out_namespace i now fetched s not_found ns' name' k g h =
      let made = test_resource i.name i.nonce now in
      written_or-HasAtLeast (api.create out_namespace made s) s ns' name' k
        (λ s' c. created out_namespace made s s' ns' name' k c h)
        (HasNonce-HasAtLeast api laws ns' name' k s h)
  update_out-HasAtLeast out_namespace i now fetched s get_failed ns' name' k g h =
      HasNonce-HasAtLeast api laws ns' name' k s h

  -- On a server that keeps its laws, a reconciliation lowers the nonce of no resource in any
  -- namespace, whatever others have written between its `get` and its write, and whether it
  -- succeeds or fails.
  pub reconcile-HasAtLeast :
      (out_namespace : String) (in_test_resource : TestResource Time) (now : Time) (fetched s : S)
      (ns' name' : String) (k : ℤ)
      → HasNonce api ns' name' k s
      → HasAtLeast api ns' name' k (reconcile api out_namespace in_test_resource now fetched s).1
  unfolding reconcile
  reconcile-HasAtLeast out_namespace i now fetched s ns' name' k h =
      update_out-HasAtLeast out_namespace i now fetched s (api.get out_namespace i.name fetched) ns'
        name' k refl h

  -- The resource that is copied to has caught up: a reconciliation does nothing.
  reconcile-settled :
      (out_namespace : String) (in_test_resource : TestResource Time) (now : Time) (s : S)
      → HasAtLeast api out_namespace in_test_resource.name in_test_resource.nonce s
      → reconcile api out_namespace in_test_resource now s s ≡ (reconciled await_change, s)
  unfolding reconcile update_out
  reconcile-settled out_namespace i now s h =
      let same = h.has.same_nonce in
      let enough : ltb_ℤ h.has.resource.nonce i.nonce ≡ false =
        rw same (let e = h.enough in ground arith) in
      ap (λ x. update_out api out_namespace i now x s) h.has.fetched ∙ rw enough refl

  written_or-reconciled :
      (x : Option S) (s s' : S) {a : Action} → written_or x s ≡ (reconciled a, s') → x ≡ some s'
  written_or-reconciled none s s' e = (let f = ap (λ (y : Reconciled × S). y.0) e in cc)
  written_or-reconciled (some t) s s' e = ap (λ (y : Reconciled × S). some y.1) e

  update_out-reconciled :
      (out_namespace : String) (in_test_resource : TestResource Time) (now : Time) (s s' : S)
      (x : Fetched Time) (a : Action)
      → api.get out_namespace in_test_resource.name s ≡ x
      → update_out api out_namespace in_test_resource now x s ≡ (reconciled a, s')
      → HasAtLeast api out_namespace in_test_resource.name in_test_resource.nonce s'
  unfolding update_out test_resource
  update_out-reconciled out_namespace i now s s' (found existing) a g e =
      let (named, (v, versioned)) = laws.get_lem out_namespace i.name s g in
      let write : TestResource Time = record existing { nonce = i.nonce; updated_at = some now } in
      let replacing = api.replace out_namespace existing.name write s in
      elim (Bool-cases (ltb_ℤ existing.nonce i.nonce)) [
        | inl lt ↦
            let done =
              subst
                (λ (b : Bool).
                  (if b then written_or replacing s else (reconciled await_change, s))
                  ≡ (reconciled a, s'))
                lt e in
            let (_, w) =
              laws.replace_lem out_namespace existing.name write s refl versioned
                (written_or-reconciled replacing s s' done) in
            HasNonce-HasAtLeast api laws out_namespace i.name i.nonce s'
              (subst (λ (n : String). HasNonce api out_namespace n i.nonce s') named w.written)
        | inr ge ↦
            let done =
              subst
                (λ (b : Bool).
                  (if b then written_or replacing s else (reconciled await_change, s))
                  ≡ (reconciled a, s'))
                ge e in
            subst (HasAtLeast api out_namespace i.name i.nonce)
              (ap (λ (y : Reconciled × S). y.1) done)
              (record {
                current = existing.nonce;
                has = record {
                  resource = existing;
                  fetched = g;
                  same_name = named;
                  same_nonce = refl;
                };
                enough = ground arith;
              })
      ]
  update_out-reconciled out_namespace i now s s' not_found a g e =
      HasNonce-HasAtLeast api laws out_namespace i.name i.nonce s'
        (laws.create_lem out_namespace _ s (written_or-reconciled _ s s' e)).1.written
  update_out-reconciled out_namespace i now s s' get_failed a g e =
      let f = ap (λ (y : Reconciled × S). y.0) e in cc

  -- A reconciliation that succeeds, while no one else writes, on a server that keeps its laws: the
  -- resource of this name in the next namespace is there, with a nonce that is not smaller, and a
  -- second reconciliation succeeds and changes nothing.
  pub reconcile-idempotent :
      (out_namespace : String) (in_test_resource : TestResource Time) (now now' : Time) (s s' : S)
      (a : Action)
      → reconcile api out_namespace in_test_resource now s s ≡ (reconciled a, s')
      → HasAtLeast api out_namespace in_test_resource.name in_test_resource.nonce s'
        × (reconcile api out_namespace in_test_resource now' s' s' ≡ (reconciled await_change, s'))
  unfolding reconcile
  reconcile-idempotent out_namespace i now now' s s' a e =
      let h =
        update_out-reconciled out_namespace i now s s' (api.get out_namespace i.name s) a refl e in
      (h, reconcile-settled out_namespace i now' s' h)
