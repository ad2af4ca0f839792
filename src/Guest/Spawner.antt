-- ===== src/Guest/Spawner.antt =====
-- executor.rs and error.rs of kube-runtime-abi: the executor of an operator is made at its first use,
-- and its spawner is known from then on. The executors of the `futures` crate have numbers, and an
-- executor's spawner is its number.
use wasm_operator.Base.Outcome.{Outcome, ok, panicked, ◌>>=◌}
use wasm_operator.Base.{
  Bool, true, false, ◌||◌, if◌then◌else◌, ℕ, suc, Option, none, some, List, [], ◌∷◌, ◌≡◌, ◌⊎◌, refl,
  ap, ◌∙◌, inl, inr,
}

-- `SINGLETON` of `get_mut_executor` (null before `ONCE` has run) and `SPAWNER`, with the number of
-- executors that were made, and whether the executor is borrowed: `wakeup` borrows it while it runs.
pub record Statics : Type 0 where
  pub singleton : Option ℕ
  pub spawner : Option ℕ
  pub made : ℕ
  pub borrowed : Bool

abbrev pub new_statics : Statics
new_statics = record { singleton = none; spawner = none; made = 0; borrowed = false }

pub data SpawnerError : Type 0 where
  spawner_not_initialized : SpawnerError

-- `ONCE.call_once`.
unfoldable pub call_once : Option ℕ → Statics → ℕ × Statics
call_once none s = (s.made, record s { singleton = some s.made; made = suc s.made })
call_once (some pool) s = (pool, s)

-- `borrow_mut` panics if the executor is borrowed.
unfoldable pub get_mut_executor : Statics → Outcome (ℕ × Statics)
unfolding call_once
get_mut_executor s =
    let (pool, s') = call_once s.singleton s in
    if s'.borrowed then panicked else ok (pool, record s' { spawner = some pool })

-- `get_spawner`: the error, or the spawner.
unfoldable pub spawner_or : Option ℕ → SpawnerError ⊎ ℕ
spawner_or none = inl spawner_not_initialized
spawner_or (some spawner) = inr spawner

unfoldable pub get_spawner : Statics → SpawnerError ⊎ ℕ
unfolding spawner_or
get_spawner s = spawner_or s.spawner

-- The calls of an operator.
pub data Call : Type 0 where
  executor_call spawner_call : Call

unfoldable pub run_calls : List Call → Statics → Outcome Statics
run_calls [] s = ok s
run_calls (executor_call ∷ calls) s = do (_, s') ← get_mut_executor s; run_calls calls s'
run_calls (spawner_call ∷ calls) s = run_calls calls s

abbrev pub uses_executor : List Call → Bool
uses_executor [] = false
uses_executor (executor_call ∷ calls) = true
uses_executor (spawner_call ∷ calls) = uses_executor calls

-- The executor has been made, or not.
abbrev made_once : Bool → Statics
made_once false = new_statics
made_once true = record { singleton = some 0; spawner = some 0; made = 1; borrowed = false }

get_mut_executor-made_once : (b : Bool) → get_mut_executor (made_once b) ≡ ok (0, made_once true)
unfolding get_mut_executor call_once
get_mut_executor-made_once false = refl
get_mut_executor-made_once true = refl

run_calls-cons :
    (calls : List Call) (b : Bool)
    → run_calls (executor_call ∷ calls) (made_once b) ≡ run_calls calls (made_once true)
unfolding run_calls
run_calls-cons calls b =
    ap (λ x. x >>= λ (y : ℕ × Statics). run_calls calls y.1) (get_mut_executor-made_once b)

run_calls-made_once :
    (calls : List Call) (b : Bool)
    → run_calls calls (made_once b) ≡ ok (made_once (b || uses_executor calls))
unfolding run_calls
run_calls-made_once [] true = refl
run_calls-made_once [] false = refl
run_calls-made_once (executor_call ∷ calls) true =
    run_calls-cons calls true ∙ run_calls-made_once calls true
run_calls-made_once (executor_call ∷ calls) false =
    run_calls-cons calls false ∙ run_calls-made_once calls true
run_calls-made_once (spawner_call ∷ calls) b = run_calls-made_once calls b

get_spawner-made_once :
    (b : Bool) → get_spawner (made_once b) ≡ (if b then inr 0 else inl spawner_not_initialized)
unfolding get_spawner spawner_or
get_spawner-made_once true = refl
get_spawner-made_once false = refl

borrowed-panics :
    (b : Bool) → b ≡ true → get_mut_executor (record (made_once b) { borrowed = true }) ≡ panicked
unfolding get_mut_executor call_once
borrowed-panics true e = refl
borrowed-panics false e = cc

-- Any calls while the executor does not run succeed. Behind them `get_mut_executor` gives the same
-- executor, the first that was made; `get_spawner` gives the spawner of this executor if one of the
-- calls was of `get_mut_executor`, and the error if none was; and a call of `get_mut_executor`
-- while the executor runs panics.
pub run_calls-get_spawner :
    (calls : List Call)
    → (s : Statics) × (run_calls calls new_statics ≡ ok s)
      × ((s' : Statics) × (get_mut_executor s ≡ ok (0, s')))
      × (get_spawner s ≡ (if uses_executor calls then inr 0 else inl spawner_not_initialized))
      × (uses_executor calls ≡ true → get_mut_executor (record s { borrowed = true }) ≡ panicked)
run_calls-get_spawner calls = (
  made_once (uses_executor calls),
  run_calls-made_once calls false,
  (made_once true, get_mut_executor-made_once (uses_executor calls)),
  get_spawner-made_once (uses_executor calls),
  borrowed-panics (uses_executor calls),
)
