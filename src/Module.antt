-- ===== src/Module.antt =====
-- pkg/controller/src/modules/module.rs: the event loop of one operator, which polls its instance
-- and its operations, swaps the instance out when it is idle, and back in before the event that
-- the prediction server has announced.
pub mod Clock
pub mod Resolve
pub mod EventLoop
pub mod Windows
pub mod History
pub mod Total
pub mod Awake
pub mod Progress
pub mod SwapOut
pub mod Run
pub mod Example
mod Tests
use wasm_operator.Base.{
  ℕ, zero, suc, ◌+◌, ◌-◌, ◌*◌, Bool, true, false, not, ◌&&◌, Option, none, some, List, [], ◌∷◌,
  ◌++◌, ℤ, pos, ◌+ℤ◌, ◌-ℤ◌, nat_abs, ltb_ℤ, leb, ltb, length, drop, retain, ◌==◌, if◌then◌else◌,
}
use wasm_operator.Runner.{OpsRunner, Sweep}
use Clock.{Chrono}

abbrev pub buffer_length : ℕ
buffer_length = 50

-- Milliseconds.
abbrev pub shutdown_inactive_interval_ms : ℕ
shutdown_inactive_interval_ms = 1000

abbrev pub time_before_predicted_ms : ℕ
time_before_predicted_ms = 1000

abbrev pub grace_period_ms : ℕ
grace_period_ms = 1000

-- `next_time` before it is made a duration: up to 995 ms before the prediction, made positive.
unfoldable pub next_time : ℤ → ℕ
next_time until = nat_abs (until -ℤ pos time_before_predicted_ms +ℤ pos 5)

-- `ControllerModule`. The timers of `sleep_vec` are kept as their lengths in milliseconds;
-- `api_server` and `http_client` are used in the request to the prediction server alone.
pub record ControllerModule (W Time Req : Type 0) : Type 0 where
  pub wasm : W
  pub ops_runner : OpsRunner Req
  pub last_event_time : Time
  pub last_events : List Time
  pub predicted_wakeup : Time
  pub sleep_vec : List ℕ
  pub first_event_after_shutdown : Bool

-- The readings of `Utc::now()` when a module is made, in order.
pub record Births (Time : Type 0) : Type 0 where
  pub last_event : Time
  pub first_event : Time
  pub prediction : Time

-- `ControllerModule::new`: the prediction is far away.
unfoldable pub new_module :
    {W Time Req : Type 0}
    → Chrono Time
    → Births Time
    → W
    → OpsRunner Req
    → ControllerModule W Time Req
new_module c births wasm ops_runner = record {
  wasm = wasm;
  ops_runner = ops_runner;
  last_event_time = births.last_event;
  last_events = births.first_event ∷ [];
  predicted_wakeup = c.plus_days births.prediction 999;
  sleep_vec = [];
  first_event_after_shutdown = true;
}

-- The three time windows.
module _ {Time : Type 0} (c : Chrono Time) where
  unfoldable pub in_time_before_prediction_period : Time → Time → Bool
  in_time_before_prediction_period current_time predicted_time =
      let difference = c.millis predicted_time current_time in
      ltb_ℤ (pos 0) difference && ltb_ℤ difference (pos time_before_predicted_ms)

  unfoldable pub in_time_grace_period : Time → Time → Bool
  in_time_grace_period current_time predicted_time =
      let difference = c.millis current_time predicted_time in
      ltb_ℤ (pos 0) difference && ltb_ℤ difference (pos grace_period_ms)

  unfoldable pub is_inactive_period : Time → Time → Bool
  is_inactive_period current_time last_event =
      ltb_ℤ (pos shutdown_inactive_interval_ms) (c.millis current_time last_event)

-- The history of events, the oldest first.
unfoldable pub push_event : {Time : Type 0} → Time → List Time → List Time
push_event time events =
    (if leb buffer_length (length events) then drop 1 events else events) ++ time ∷ []

unfoldable pub add_event_time :
    {W Time Req : Type 0} → Time → ControllerModule W Time Req → ControllerModule W Time Req
unfolding push_event
add_event_time time m = record m { last_events = push_event time m.last_events }

-- The readings of `Utc::now()` in one call of `resolve_async_ops`, in order.
pub record Readings (Time : Type 0) : Type 0 where
  pub event : Time
  pub missed : Time
  pub finish : Time

-- The environment in one turn of the loop that drains the results.
pub record Turn (R Time : Type 0) : Type 0 where
  pub reply : R
  pub sweeps : ℕ → Sweep
  pub clock : Readings Time

-- What the prediction server answers: a time, something that is no such answer, or nothing.
pub data ServerReply (Time : Type 0) : Type 0 where
  predicts : Time → ServerReply Time
  malformed : ServerReply Time
  unreachable : ServerReply Time

-- The environment once the results are drained.
pub record Evening (R Time : Type 0) : Type 0 where
  pub reply : R
  pub now : Time
  pub asked : Time
  pub server : ServerReply Time
  pub elapsed : ℕ → Bool

-- A module, and how often the task's waker has been called.
pub record Woken (M : Type 0) : Type 0 where
  pub state : M
  pub wakes : ℕ
