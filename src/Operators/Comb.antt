-- ===== src/Operators/Comb.antt =====
-- controllers/comb-rust-controller/src/main.rs: a row of operators, each of which copies from its
-- namespace to the next. `show` is the `Display` of integers.
use Prim.Native.String.{String, ◌++◌}
use mathlib.Core.Path.{subst}
use wasm_operator.Base.{ℕ, zero, suc, ◌+◌, ◌<◌, ◌≡◌, sym, arith, ℤ, ◌≤ℤ◌}
use wasm_operator.Operators.Api.{
  TestResource, found, Api, HasAtLeast, IsApi, Reconciled, Action, reconciled,
}
use wasm_operator.Operators.Ring
use wasm_operator.Operators.Ring.{reconcile-idempotent, reconcile-HasAtLeast}
use wasm_operator.Operators.Written.{HasNonce-same}

abbrev pub comb_namespace : (ℕ → String) → ℕ → String
comb_namespace show i = "native-rust-comb" ++ show i

module _ {S Time : Type 0} (api : Api S Time) where
  -- The code of `reconcile` is that of the ring's operator.
  unfoldable pub reconcile : String → TestResource Time → Time → S → S → Reconciled × S
  reconcile out_namespace in_test_resource now_timestamp fetched s =
      Ring.reconcile api out_namespace in_test_resource now_timestamp fetched s

  -- `main_async` starts `nr_operators` controllers, which run side by side. The controller of
  -- namespace `i` may reconcile at any time any resource that it has been shown, whatever its `get`
  -- has seen; it goes on behind an error.
  pub data Move (show : ℕ → String) (nr_operators : ℕ) (s : S) : S → Type 0 where
    reconciles :
        (i : ℕ) (in_test_resource : TestResource Time) (now_timestamp : Time) (fetched : S)
        → i < nr_operators
        → Move show nr_operators s
            (reconcile (comb_namespace show (i + 1)) in_test_resource now_timestamp fetched s).1

  pub data Moves (show : ℕ → String) (nr_operators : ℕ) (s : S) : S → Type 0 where
    stays : Moves show nr_operators s s
    moves :
        {t u : S}
        → Moves show nr_operators s t
        → Move show nr_operators t u
        → Moves show nr_operators s u

  -- A run in which the controllers from `i` on, one behind the other, each see the resource of this
  -- name in their namespace, and later reconcile it with success; in between anything else happens.
  pub data Passed (show : ℕ → String) (nr_operators : ℕ) (name : String)
      : (i n : ℕ) → S → S → Type 0 where
    arrives :
        {i : ℕ} {s s' : S}
        → Moves show nr_operators s s'
        → Passed show nr_operators name i zero s s'
    passes :
        {i n : ℕ} {s t u v s' : S} (r : TestResource Time) (now_timestamp : Time) (a : Action)
        → Moves show nr_operators s t
        → api.get (comb_namespace show i) name t ≡ found r
        → Moves show nr_operators t u
        → reconcile (comb_namespace show (i + 1)) r now_timestamp u u ≡ (reconciled a, v)
        → Passed show nr_operators name (i + 1) n v s'
        → Passed show nr_operators name i (suc n) s s'

≤ℤ-trans : (a b c : ℤ) → a ≤ℤ b → b ≤ℤ c → a ≤ℤ c
≤ℤ-trans a b c p q = omega arith

module _ {S Time : Type 0} (api : Api S Time) (laws : IsApi api) (show : ℕ → String)
    (nr_operators : ℕ) where
  HasAtLeast-more :
      (ns name : String) (k m : ℤ) (s : S)
      → k ≤ℤ m
      → HasAtLeast api ns name m s
      → HasAtLeast api ns name k s
  HasAtLeast-more ns name k m s le h = record {
    current = h.current;
    has = h.has;
    enough = ≤ℤ-trans k m h.current le h.enough;
  }

  Moves-HasAtLeast :
      (ns name : String) (k : ℤ) {s s' : S}
      → Moves api show nr_operators s s'
      → HasAtLeast api ns name k s
      → HasAtLeast api ns name k s'
  unfolding reconcile
  Moves-HasAtLeast ns name k stays h = h
  Moves-HasAtLeast ns name k (moves {t = t} before (reconciles i r now fetched lt)) h =
      let h1 = Moves-HasAtLeast ns name k before h in
      HasAtLeast-more ns name k h1.current _ h1.enough (
        reconcile-HasAtLeast api laws (comb_namespace show (i + 1)) r now fetched t ns name
          h1.current h1.has)

  -- What a controller has seen is not more than what it copies.
  reconcile-passes :
      (name : String) (i : ℕ) (k : ℤ) (r : TestResource Time) (now : Time) (a : Action) (t u v : S)
      → HasAtLeast api (comb_namespace show i) name k t
      → api.get (comb_namespace show i) name t ≡ found r
      → reconcile api (comb_namespace show (i + 1)) r now u u ≡ (reconciled a, v)
      → HasAtLeast api (comb_namespace show (i + 1)) name k v
  unfolding reconcile
  reconcile-passes name i k r now a t u v h g e =
      let named = (laws.get_lem (comb_namespace show i) name t g).0 in
      let same = HasNonce-same api laws (comb_namespace show i) name h.current t g h.has in
      let (more, _) =
        reconcile-idempotent api laws (comb_namespace show (i + 1)) r now now u v a e in
      subst (λ (n : String). HasAtLeast api (comb_namespace show (i + 1)) n k v) named
        (HasAtLeast-more (comb_namespace show (i + 1)) r.name k r.nonce v
          (subst (λ (n : ℤ). k ≤ℤ n) (sym same) h.enough) more)

  -- On a server that keeps its laws, and where only the controllers of the row write: they run side
  -- by side, in any order, and some reconciliations fail. If the first namespace holds a resource,
  -- and the controllers from there on have, one behind the other, each seen the resource of this name
  -- in their namespace and later reconciled it with success, its `get` and its write not parted by a
  -- write of another, then at the end the last namespace holds a resource of this name, with a nonce
  -- that is not smaller.
  pub Passed-HasAtLeast :
      (name : String) (i n : ℕ) (k : ℤ) (s s' : S)
      → HasAtLeast api (comb_namespace show i) name k s
      → Passed api show nr_operators name i n s s'
      → HasAtLeast api (comb_namespace show (i + n)) name k s'
  Passed-HasAtLeast name i zero k s s' h (arrives all) =
      let same : i + 0 ≡ i = omega arith in
      rw same (Moves-HasAtLeast (comb_namespace show i) name k all h)
  Passed-HasAtLeast name i (suc n) k s s' h
        (passes {t = t} {u = u} {v = v} r now a before g between e later) =
      let seen = Moves-HasAtLeast (comb_namespace show i) name k before h in
      let sum : i + suc n ≡ i + 1 + n = omega arith in
      rw sum (
        Passed-HasAtLeast name (i + 1) n k v s' (reconcile-passes name i k r now a t u v seen g e)
          later)
