-- ===== src/Wasm/Globals.antt =====
-- The exported globals of a WebAssembly instance, as modules/wasm.rs saves and restores them.
use wasm_operator.Base.{
  Bool, true, false, Option, none, some, List, [], ◌∷◌, ◌≡◌, refl, arith, inl, inr, if◌then◌else◌,
  Bool-cases,
}
use Prim.Native.String.{String}
use text.Mathlib.Text.{◌==◌}
use text.Mathlib.TextEquality.{eq_iff}
use text.Mathlib.TextPositions.{eq_refl}

pub record Global (Val : Type 0) : Type 0 where
  pub name : String
  pub mutable : Bool
  pub value : Val

module _ {Val : Type 0} where
  unfoldable pub value_of : String → List (Global Val) → Option Val
  value_of n [] = none
  value_of n (g ∷ gs) = if g.name == n then some g.value else value_of n gs

  unfoldable pub is_mutable : String → List (Global Val) → Bool
  is_mutable n [] = false
  is_mutable n (g ∷ gs) = if g.name == n then g.mutable else is_mutable n gs

  -- What setting a global does.
  unfoldable pub update : String → Val → List (Global Val) → List (Global Val)
  update n v [] = []
  update n v (g ∷ gs) = if g.name == n then record g { value = v } ∷ gs else g ∷ update n v gs

  -- `globals.retain(…Mutability::Var)`, and the pairs of names and values.
  unfoldable pub var_globals : List (Global Val) → List (String × Val)
  var_globals [] = []
  var_globals (g ∷ gs) = if g.mutable then (g.name, g.value) ∷ var_globals gs else var_globals gs

  -- No two exports have one name.
  abbrev pub IsDistinct : List (Global Val) → Type 0
  IsDistinct [] = Unit
  IsDistinct (g ∷ gs) = (value_of g.name gs ≡ none) × IsDistinct gs

  abbrev pub AllMutable : List (Global Val) → List (String × Val) → Type 0
  AllMutable gs [] = Unit
  AllMutable gs ((n, v) ∷ vars) = (is_mutable n gs ≡ true) × AllMutable gs vars

  -- The value of a global after all pairs have been set, if it was `old`.
  unfoldable pub value_after : String → List (String × Val) → Option Val → Option Val
  value_after m [] old = old
  value_after m ((n, v) ∷ vars) old = value_after m vars (if n == m then some v else old)

  pub value_of-update :
      (m n : String) (v : Val) (gs : List (Global Val))
      → is_mutable n gs ≡ true
      → value_of m (update n v gs) ≡ (if n == m then some v else value_of m gs)
  unfolding value_of is_mutable update
  value_of-update m n v [] h = cc
  value_of-update m n v (g ∷ gs) h =
      ground (arith, eq_iff g.name n, eq_iff g.name m, eq_iff n m, value_of-update m n v gs)

  absent-not_mutable :
      (n : String) (gs : List (Global Val)) → value_of n gs ≡ none → is_mutable n gs ≡ false
  unfolding value_of is_mutable
  absent-not_mutable n [] h = refl
  absent-not_mutable n (g ∷ gs) h = ground (arith, absent-not_mutable n gs)

  value_after-absent :
      (m : String) (gs : List (Global Val)) (old : Option Val)
      → value_of m gs ≡ none
      → value_after m (var_globals gs) old ≡ old
  unfolding value_of value_after var_globals
  value_after-absent m [] old h = refl
  value_after-absent m (g ∷ gs) old h = elim (Bool-cases (g.mutable)) [
    | inl e ↦ rw e (ground (arith, value_after-absent m gs old))
    | inr e ↦ rw e (ground (arith, value_after-absent m gs old))
  ]

  -- Setting the saved globals gives each mutable one its saved value.
  pub value_after-var_globals :
      (m : String) (gs : List (Global Val)) (old : Option Val)
      → IsDistinct gs
      → is_mutable m gs ≡ true
      → value_after m (var_globals gs) old ≡ value_of m gs
  unfolding value_of is_mutable value_after var_globals
  value_after-var_globals m [] old d h = cc
  value_after-var_globals m (g ∷ gs) old d h = elim (Bool-cases (g.name == m)) [
    | inl e ↦
        let found : g.mutable ≡ true = ground arith in
        let gone : value_of m gs ≡ none = rw (← (eq_iff g.name m).0 e) d.0 in
        ground (arith, value_after-absent m gs (some g.value) gone)
    | inr e ↦ elim (Bool-cases (g.mutable)) [
      | inl f ↦ ground (arith, value_after-var_globals m gs old d.1)
      | inr f ↦ ground (arith, value_after-var_globals m gs old d.1)
    ]
  ]

  AllMutable-cons :
      (g : Global Val) (gs : List (Global Val)) (vars : List (String × Val))
      → value_of g.name gs ≡ none
      → AllMutable gs vars
      → AllMutable (g ∷ gs) vars
  unfolding is_mutable
  AllMutable-cons g gs [] d a = tt
  AllMutable-cons g gs ((n, v) ∷ vars) d a = (
    ground (arith, eq_iff g.name n, absent-not_mutable g.name gs d),
    AllMutable-cons g gs vars d a.1,
  )

  AllMutable-if :
      (gs : List (Global Val)) (b : Bool) (n : String) (v : Val) (vars : List (String × Val))
      → (b ≡ true → is_mutable n gs ≡ true)
      → AllMutable gs vars
      → AllMutable gs (if b then (n, v) ∷ vars else vars)
  AllMutable-if gs true n v vars h a = (h refl, a)
  AllMutable-if gs false n v vars h a = a

  pub AllMutable-var_globals :
      (gs : List (Global Val)) → IsDistinct gs → AllMutable gs (var_globals gs)
  unfolding is_mutable var_globals
  AllMutable-var_globals [] d = tt
  AllMutable-var_globals (g ∷ gs) d =
      AllMutable-if (g ∷ gs) g.mutable g.name g.value (var_globals gs)
        (λ e. ground (arith, eq_refl g.name))
        (AllMutable-cons g gs (var_globals gs) d.0 (AllMutable-var_globals gs d.1))
