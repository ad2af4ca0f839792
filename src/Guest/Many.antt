-- ===== src/Guest/Many.antt =====
-- Many tasks of an operator at once: executor.rs hands each result to the state of its request, and
-- runs the task that waits for it. Results of different requests may arrive in any order.
pub mod Delivered
pub mod Plain
pub mod Served
pub mod Streamed
mod Tests
use wasm_operator.Base.{
  ℕ, ◌<◌, true, false, Option, none, some, List, [], ◌∷◌, ◌≡◌, ◌≢◌, refl, sym, ap, ◌∙◌, arith, All,
  ◌==◌, ==_iff, if◌then◌else◌, inl, inr, Bool-cases,
}
use mathlib.Core.Path.{subst}
use wasm_operator.Base.Outcome.{Outcome, ok, ◌>>=◌}
use wasm_operator.Abi.Command.{AsyncResult}
use wasm_operator.Guest.{Guest, Waker, noop_waker, task, put, wakeup}
use wasm_operator.Guest.Mailbox.{IsOpen, woken, awaited, wakeup-awaited, put-same}
use wasm_operator.Runner.Channel.Order.{of_id}

-- The futures of the tasks, by the number of the task.
module _ {F : Type 0} (poll_future : Waker → F × Guest → Outcome (F × Guest)) where
  -- `run_until_stalled`: the task that was woken runs.
  unfoldable pub run_woken : Waker → (ℕ → F) × Guest → Outcome ((ℕ → F) × Guest)
  run_woken noop_waker x = ok x
  run_woken (task t) (fs, g) = do (f, g') ← poll_future (task t) (fs t, g); ok (put t f fs, g')

  unfoldable pub deliver_all : List AsyncResult → (ℕ → F) × Guest → Outcome ((ℕ → F) × Guest)
  unfolding run_woken
  deliver_all [] x = ok x
  deliver_all (m ∷ rest) (fs, g) = do
    (waker, g') ← wakeup m.async_request_id (if m.finished then 1 else 0) m.value g
    x ← run_woken waker (fs, g')
    deliver_all rest x

pub put-other : {A : Type 0} (k j : ℕ) (a : A) (f : ℕ → A) → j ≢ k → put k a f j ≡ f j
put-other k j a f ne = elim (Bool-cases (j == k)) [
  | inl e ↦ absurd (ne ((==_iff j k).0 e))
  | inr e ↦ rw e refl
]

-- What a poll leaves alone: the map of requests, and the states of others.
pub record IsFramed (h : ℕ) (g g' : Guest) : Type 0 where
  pub others : (j : ℕ) → j ≢ h → g'.states j ≡ g.states j
  pub map_same : (j : ℕ) → g'.pending_async j ≡ g.pending_async j

pub IsFramed-trans : {h : ℕ} {a b c : Guest} → IsFramed h a b → IsFramed h b c → IsFramed h a c
IsFramed-trans p q = record {
  others = λ j ne. q.others j ne ∙ p.others j ne;
  map_same = λ j. q.map_same j ∙ p.map_same j;
}

-- The request is open, as long as there are results to come.
abbrev pub IsOpenFor : List AsyncResult → ℕ → ℕ → ℕ → Guest → Type 0
IsOpenFor [] t id h g = Unit
IsOpenFor (m ∷ rest) t id h g = IsOpen id h (awaited t) g

-- A future of task `t` that waits for the results of the request `id`: `Waits` says which are still
-- to come, and each of them takes it one step further.
pub record Expects {F : Type 0} (poll_future : Waker → F × Guest → Outcome (F × Guest))
    (Waits : List AsyncResult → F → Type 0) (t id h : ℕ) : Type 0 where
  pub step :
      (m : AsyncResult) (rest : List AsyncResult) (f : F) (g : Guest)
      → Waits (m ∷ rest) f
      → IsOpen id h (awaited t) g
      → (f' : F) × (g' : Guest) × (poll_future
            (task t)
            (f, woken id (if m.finished then 1 else 0) m.value h (awaited t) g)
          ≡ ok (f', g'))
        × Waits rest f'
        × IsOpenFor rest t id h g'
        × IsFramed h (woken id (if m.finished then 1 else 0) m.value h (awaited t) g) g'

-- The requests of the tasks below `n`: their identifiers and their handles.
module _ {F : Type 0} (poll_future : Waker → F × Guest → Outcome (F × Guest))
    (Waits : ℕ → List AsyncResult → F → Type 0) (n : ℕ) (ids handles : ℕ → ℕ) where
  pub record AllWait (ms : List AsyncResult) (fs : ℕ → F) (g : Guest) : Type 0 where
    pub waits : (t : ℕ) → t < n → Waits t (of_id (ids t) ms) (fs t)
    pub opened : (t : ℕ) → t < n → IsOpenFor (of_id (ids t) ms) t (ids t) (handles t) g

  -- Each result is of one of the requests.
  abbrev pub IsKnown : AsyncResult → Type 0
  IsKnown m = (t : ℕ) × (t < n) × (m.async_request_id ≡ ids t)

pub of_id-first :
    (id : ℕ) (m : AsyncResult) (rest : List AsyncResult)
    → m.async_request_id ≡ id
    → of_id id (m ∷ rest) ≡ m ∷ of_id id rest
of_id-first id m rest e = ground (arith, e)

pub of_id-skip :
    (id : ℕ) (m : AsyncResult) (rest : List AsyncResult)
    → m.async_request_id ≢ id
    → of_id id (m ∷ rest) ≡ of_id id rest
of_id-skip id m rest ne = ground (arith, ne)
