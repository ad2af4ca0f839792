-- ===== src/Operators/Simple.antt =====
-- controllers/simple-rust-controller/src/main.rs: an operator that counts, in the nonce of one
-- resource, the changes of all others.
use Prim.Native.String.{String}
use text.Mathlib.Text.{◌==◌}
use wasm_operator.Base.{
  ℕ, suc, ◌+◌, Bool, true, false, some, List, [], ◌∷◌, ◌≢◌, pos, if◌then◌else◌,
}
use wasm_operator.Operators.Api.{
  fetch, TestResource, Fetched, found, not_found, get_failed, Api, HasNonce, IsApi, test_resource,
  Reconciled, reconciled, failed, await_change, incr_i64,
}
use wasm_operator.Operators.Ring.{written_or}

module _ {S Time : Type 0} (api : Api S Time) (cluster_resource : String) where
  -- The branches of the `match`, on what `get` has returned.
  unfoldable pub count_function : Time → Fetched Time → S → Reconciled × S
  unfolding incr_i64 test_resource
  count_function now_timestamp (found existing) s =
      written_or
        (api.replace "default" cluster_resource
          (record existing { nonce = incr_i64 existing.nonce; updated_at = some now_timestamp }) s)
        s
  count_function now_timestamp not_found s =
      written_or (api.create "default" (test_resource cluster_resource (pos 1) now_timestamp) s) s
  count_function now_timestamp get_failed s = (reconciled await_change, s)

  unfoldable pub reconcile : Bool → TestResource Time → Time → S → Reconciled × S
  unfolding count_function
  reconcile get_works in_test_resource now_timestamp s =
      if in_test_resource.name == cluster_resource
      then (reconciled await_change, s)
      else count_function now_timestamp (fetch get_works (api.get "default" cluster_resource s)) s

  abbrev pub tally : Bool → Reconciled → ℕ → ℕ
  tally true (reconciled _) n = suc n
  tally false (reconciled _) n = n
  tally get_works failed n = n

  -- Reconciliations of some resources, one after the other, each with whether its `get` works, and
  -- how many of those whose `get` has worked have succeeded.
  unfoldable pub reconcile_all : List (TestResource Time × Bool) → Time → S → ℕ × S
  reconcile_all [] now s = (0, s)
  reconcile_all ((r, get_works) ∷ rs) now s =
      let (result, s1) = reconcile get_works r now s in
      let (n, s2) = reconcile_all rs now s1 in (tally get_works result n, s2)

module _ {S Time : Type 0} (api : Api S Time) (laws : IsApi api) (cluster_resource : String) where
  -- No resource of the list is the one that holds the count.
  abbrev pub AllOthers : List (TestResource Time × Bool) → Type 0
  AllOthers [] = Unit
  AllOthers ((r, get_works) ∷ rs) = (r.name ≢ cluster_resource) × AllOthers rs

  -- One more; or an error and the same state; or the error of a `get`, which is printed.
  data IsCounted (k : ℕ) (s : S) : Bool → Reconciled × S → Type 0 where
    counts :
        {s' : S}
        → HasNonce api "default" cluster_resource (pos (k + 1)) s'
        → IsCounted k s true (reconciled await_change, s')
    fails : IsCounted k s true (failed, s)
    prints : IsCounted k s false (reconciled await_change, s)
