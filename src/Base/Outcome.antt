-- ===== src/Base/Outcome.antt =====
-- What a Rust function of the runtime can do: return, return an error (`anyhow::Error`), panic.
-- A loop of the model may also run out of fuel.
use mathlib.Core.Path.{◌≡◌, refl, ap, ◌∙◌, subst}
use mathlib.Core.Logic.{◌⊎◌, inl, inr}
use mathlib.Core.Bool.{Bool, true, false}

pub data Outcome {ℓ} (A : Type ℓ) : Type ℓ where
  ok : A → Outcome A
  failed : Outcome A
  panicked : Outcome A
  out_of_fuel : Outcome A

infixl 5 ◌>>=◌
abbrev pub ◌>>=◌ {ℓ κ} : {A : Type ℓ} {B : Type κ} → Outcome A → (A → Outcome B) → Outcome B
ok a >>= k = k a
failed >>= k = failed
panicked >>= k = panicked
out_of_fuel >>= k = out_of_fuel

-- `Poll` of `std::task`.
pub data Poll {ℓ} (A : Type ℓ) : Type ℓ where
  ready : A → Poll A
  pending : Poll A

abbrev pub is_ready {ℓ} : {A : Type ℓ} → Poll A → Bool
is_ready (ready _) = true
is_ready pending = false

-- The call returns: with a result that satisfies `P`, or with an error. It neither panics nor runs
-- out of fuel.
pub data Returns {ℓ κ} {A : Type ℓ} (P : A → Type κ) : Outcome A → Type (ℓ ⊔ κ) where
  returns : {a : A} → P a → Returns P (ok a)
  errs : Returns P failed

module _ {ℓ κ} {A : Type ℓ} {P : A → Type κ} where
  pub bind {ι μ} :
      {B : Type ι} {Q : B → Type μ} {r : Outcome A} {k : A → Outcome B}
      → Returns P r
      → ((a : A) → P a → Returns Q (k a))
      → Returns Q (r >>= k)
  bind (returns p) next = next _ p
  bind errs next = errs

  pub mono {μ} :
      {Q : A → Type μ} {r : Outcome A} → Returns P r → ((a : A) → P a → Q a) → Returns Q r
  mono (returns p) weaken = returns (weaken _ p)
  mono errs weaken = errs

-- What holds of the result, if there is one.
abbrev pub IfOk {ℓ κ} : {A : Type ℓ} → (A → Type κ) → Outcome A → Type κ
IfOk P (ok a) = P a
IfOk P failed = Unit
IfOk P panicked = Unit
IfOk P out_of_fuel = Unit

pub IfOk-bind {ℓ κ μ} :
    {A : Type ℓ} {B : Type κ} (Q : B → Type μ) (r : Outcome A) (k : A → Outcome B)
    → ((a : A) → IfOk Q (k a))
    → IfOk Q (r >>= k)
IfOk-bind Q (ok a) k next = next a
IfOk-bind Q failed k next = tt
IfOk-bind Q panicked k next = tt
IfOk-bind Q out_of_fuel k next = tt

pub IfOk-result {ℓ κ} :
    {A : Type ℓ} (P : A → Type κ) (r : Outcome A) → ((a : A) → r ≡ ok a → P a) → IfOk P r
IfOk-result P (ok a) h = h a refl
IfOk-result P failed h = tt
IfOk-result P panicked h = tt
IfOk-result P out_of_fuel h = tt

pub ok_injective {ℓ} : {A : Type ℓ} {a b : A} → ok a ≡ ok b → a ≡ b
ok_injective e = cc

-- The steps of a chain that succeeds.
pub bind-ok {ℓ κ} :
    {A : Type ℓ} {B : Type κ} (r : Outcome A) (k : A → Outcome B) {b : B}
    → (r >>= k) ≡ ok b
    → (a : A) × (r ≡ ok a) × (k a ≡ ok b)
bind-ok (ok a) k e = (a, refl, e)
bind-ok failed k e = cc
bind-ok panicked k e = cc
bind-ok out_of_fuel k e = cc

-- It succeeds or panics.
abbrev pub IsDecided {ℓ} : {A : Type ℓ} → Outcome A → Type ℓ
IsDecided r = (r ≡ panicked) ⊎ ((a : _) × (r ≡ ok a))

pub bind-IsDecided {ℓ κ} :
    {A : Type ℓ} {B : Type κ} (r : Outcome A) (k : A → Outcome B)
    → IsDecided r
    → ((a : A) → IsDecided (k a))
    → IsDecided (r >>= k)
bind-IsDecided r k (inl e) next = inl (ap (λ x. x >>= k) e)
bind-IsDecided r k (inr (a, e)) next = elim (next a) [
  | inl f ↦ inl (ap (λ x. x >>= k) e ∙ f)
  | inr (b, f) ↦ inr (b, ap (λ x. x >>= k) e ∙ f)
]

pub IfOk-ok {ℓ κ} :
    {A : Type ℓ} (P : A → Type κ) (r : Outcome A) {a : A} → IfOk P r → r ≡ ok a → P a
IfOk-ok P r h e = subst (IfOk P) e h
