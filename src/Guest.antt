-- ===== src/Guest.antt =====
-- pkg/kube-runtime-abi: the library inside an operator that waits for the results of the host
-- (executor.rs), and sends requests with it (requestor.rs, delay.rs). The tasks are those of
-- `futures::executor::LocalPool`; a task has a number.
pub mod Request
pub mod Mailbox
pub mod Plain
pub mod Streamed
pub mod Burst
pub mod Many
pub mod Spawner
mod Tests
use wasm_operator.Base.{
  ℕ, suc, ◌+◌, ◌/◌, Bool, true, false, Option, none, some, ◌==◌, if◌then◌else◌,
}
use wasm_operator.Base.Outcome.{Outcome, ok, panicked, Poll, ready, pending}
use wasm_operator.Abi.Command.{Bytes}

pub data Waker : Type 0 where
  noop_waker : Waker
  task : ℕ → Waker

pub record AsyncState : Type 0 where
  pub has_value : Bool
  pub value : Option Bytes
  pub waker : Waker

-- The states that are shared by `Arc`s, by number, and the map of `get_pending_async`, from the
-- identifiers of requests to them.
pub record Guest : Type 0 where
  pub states : ℕ → AsyncState
  pub next : ℕ
  pub pending_async : ℕ → Option ℕ

-- `insert` and `remove`, and a change of a shared state.
abbrev pub put {ℓ} : {A : Type ℓ} → ℕ → A → (ℕ → A) → ℕ → A
put k a f j = if j == k then a else f j

abbrev pub fresh_state : AsyncState
fresh_state = record { has_value = false; value = none; waker = noop_waker }

-- `AbiAsync` is the number of its shared state.
unfoldable pub start_async : ℕ → Guest → ℕ × Guest
start_async future_id g = (
  g.next,
  record {
    states = put g.next fresh_state g.states;
    next = suc g.next;
    pending_async = put future_id (some g.next) g.pending_async;
  },
)

-- What `wakeup` makes of a state: a null pointer leaves the value as it is.
unfoldable pub fill : Option Bytes → AsyncState → AsyncState
fill none s = record s { has_value = true }
fill (some bytes) s = record s { value = some bytes; has_value = true }

-- `wakeup` up to the executor's run, with the task that it wakes.
unfoldable pub wakeup : ℕ → ℕ → Option Bytes → Guest → Outcome (Waker × Guest)
unfolding fill
wakeup stream_id finished value g = elim (g.pending_async stream_id) [
  | none ↦ panicked
  | some h ↦ ok (
    (g.states h).waker,
    record g {
      states = put h (fill value (g.states h)) g.states;
      pending_async = if finished == 1 then put stream_id none g.pending_async else g.pending_async;
    },
  )
]

-- `poll` and `poll_next` of `AsyncState`, through an `AbiAsync`.
unfoldable pub poll : Waker → ℕ → Guest → Poll (Option Bytes) × Guest
poll waker h g =
    let s = g.states h in
    if s.has_value
    then (
      ready s.value,
      record g { states = put h (record s { has_value = false; value = none }) g.states },
    )
    else (pending, record g { states = put h (record s { waker = waker }) g.states })
