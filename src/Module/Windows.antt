-- ===== src/Module/Windows.antt =====
-- The time windows of module.rs, and the timer that is set for a prediction.
use wasm_operator.Base.{true, false, ◌&&◌, ◌≡◌, arith, pos, ◌-ℤ◌, ◌≤ℤ◌}
use wasm_operator.Module.Clock.{Chrono, IsChrono}
use wasm_operator.Module.{next_time, in_time_before_prediction_period, in_time_grace_period}

module _ {Time : Type 0} (c : Chrono Time) (laws : IsChrono c) where
  -- No time lies in both windows around a prediction.
  pub windows_disjoint :
      (now predicted : Time)
      → (in_time_before_prediction_period c now predicted && in_time_grace_period c now predicted)
        ≡ false
  unfolding in_time_before_prediction_period in_time_grace_period
  windows_disjoint now predicted = rw (laws.millis-neg now predicted) (ground arith)

  -- A timer that is set when the prediction is at least 995 ms away ends within the window before
  -- the prediction, so that the instance is loaded then.
  pub next_time-before :
      (asked fires predicted : Time)
      → pos 995 ≤ℤ c.millis predicted asked
      → c.millis predicted fires
        ≡ c.millis predicted asked -ℤ pos (next_time (c.millis predicted asked))
      → in_time_before_prediction_period c fires predicted ≡ true
  unfolding next_time in_time_before_prediction_period
  next_time-before asked fires predicted far e = rw e (ground arith)
