-- ===== src/Module/SwapOut.antt =====
-- When the event loop of module.rs swaps an instance out.
use wasm_operator.Base.{
  ℕ, ◌<◌, Bool, true, false, ◌≡◌, refl, sym, ap, ◌∙◌, arith, inl, inr, if◌then◌else◌, Bool-cases,
  pos, ◌<ℤ◌, count, count-le-length, length,
}
use mathlib.Core.Bool.{false≢true}
use wasm_operator.Base.Outcome.{Outcome, ok, failed, panicked, out_of_fuel}
use wasm_operator.Runner.{u64_mod}
use wasm_operator.Runner.WebCalls.{IsExact, is_web_op}
use wasm_operator.Wasm.Interface.{WasmOps}
use wasm_operator.Module.Clock.{Chrono, IsChrono}
use wasm_operator.Module.{
  ControllerModule, Evening, Woken, in_time_before_prediction_period, in_time_grace_period,
  is_inactive_period, shutdown_inactive_interval_ms,
}
use wasm_operator.Module.EventLoop.{
  is_stale, is_due, expire_prediction, load_early, may_shutdown, shutdown_idle, drop_old_timers,
  keep_watch,
}

module _ {W R Time Req : Type 0} (c : Chrono Time) (laws : IsChrono c) (o : WasmOps W R Req) where
  -- Why an instance may be swapped out.
  pub record IsIdle (now : Time) (m : ControllerModule W Time Req) : Type 0 where
    pub no_web_calls : m.ops_runner.nr_web_calls ≡ 0
    pub inactive : pos shutdown_inactive_interval_ms <ℤ c.millis now m.last_event_time
    pub not_before : in_time_before_prediction_period c now m.predicted_wakeup ≡ false
    pub not_grace : in_time_grace_period c now m.predicted_wakeup ≡ false

  stale-not_before :
      (now : Time) (m : ControllerModule W Time Req)
      → is_stale c now m ≡ true
      → (in_time_before_prediction_period c now m.predicted_wakeup ≡ false)
        × (in_time_grace_period c now m.predicted_wakeup ≡ false)
  unfolding is_stale in_time_before_prediction_period
  stale-not_before now m h =
      rw (laws.millis-neg now m.predicted_wakeup) (ground arith, ground arith)

  may_shutdown-IsIdle :
      (flag : Bool) (now : Time) (m : ControllerModule W Time Req)
      → may_shutdown c o flag now m ≡ true
      → IsIdle now m
  unfolding may_shutdown is_inactive_period
  may_shutdown-IsIdle flag now m h = record {
    no_web_calls = ground arith;
    inactive = ground arith;
    not_before = ground arith;
    not_grace = ground arith;
  }

  expire_prediction-IsIdle :
      (now : Time) (m : ControllerModule W Time Req) (k : ℕ)
      → IsIdle now (expire_prediction c now (record { state = m; wakes = k })).state
      → IsIdle now m
  unfolding expire_prediction
  expire_prediction-IsIdle now m k = elim (Bool-cases (is_stale c now m)) [
    | inl e ↦ rw e (λ i. record {
      no_web_calls = i.no_web_calls;
      inactive = i.inactive;
      not_before = (stale-not_before now m e).0;
      not_grace = (stale-not_before now m e).1;
    })
    | inr e ↦ rw e (λ i. i)
  ]

  expire_prediction-wasm :
      (now : Time) (t : Woken (ControllerModule W Time Req))
      → (expire_prediction c now t).state.wasm ≡ t.state.wasm
  unfolding expire_prediction
  expire_prediction-wasm now t = ground arith

  load_early-skip :
      (now : Time) (t : Woken (ControllerModule W Time Req))
      → o.is_uninstantiating t.state.wasm ≡ false
      → load_early c o now t ≡ ok t
  unfolding load_early is_due
  load_early-skip now t h = rw h

  shutdown_idle-skip :
      (flag : Bool) (e : Evening R Time) (t : Woken (ControllerModule W Time Req))
      → may_shutdown c o flag e.now t.state ≡ false
      → shutdown_idle c o flag e t ≡ ok t
  unfolding shutdown_idle
  shutdown_idle-skip flag e t h = rw h

  abbrev swapped : Outcome (Woken (ControllerModule W Time Req)) → Bool
  swapped (ok t) = o.is_uninstantiating t.state.wasm
  swapped failed = false
  swapped panicked = false
  swapped out_of_fuel = false

  keep_watch-skip :
      (flag : Bool) (e : Evening R Time) (m : ControllerModule W Time Req)
      (first : Woken (ControllerModule W Time Req))
      → first ≡ record { state = m; wakes = if m.ops_runner.have_unpolled_ops then 1 else 0 }
      → o.is_uninstantiating m.wasm ≡ false
      → may_shutdown c o flag e.now (expire_prediction c e.now first).state ≡ false
      → swapped (keep_watch c o flag e m) ≡ false
  unfolding keep_watch drop_old_timers
  keep_watch-skip flag e m first q up may =
      let same : (expire_prediction c e.now first).state.wasm ≡ m.wasm =
        expire_prediction-wasm e.now first ∙ ap (λ t. t.state.wasm) q in
      let still : o.is_uninstantiating (expire_prediction c e.now first).state.wasm ≡ false =
        ap o.is_uninstantiating same ∙ up in
      rw
        (
          ← q,
          load_early-skip e.now (expire_prediction c e.now first) still,
          shutdown_idle-skip flag e (expire_prediction c e.now first) may,
        )
        still

  -- If what is done while the operator waits swaps its instance out, which was in memory before,
  -- then none of its plain requests is pending, its last finished event is more than a second ago,
  -- and the time is neither shortly before nor shortly after the event that was predicted.
  pub keep_watch-IsIdle :
      (flag : Bool) (e : Evening R Time) (m : ControllerModule W Time Req)
      {t : Woken (ControllerModule W Time Req)}
      → IsExact m.ops_runner
      → length m.ops_runner.pending_ops < u64_mod
      → o.is_uninstantiating m.wasm ≡ false
      → keep_watch c o flag e m ≡ ok t
      → o.is_uninstantiating t.state.wasm ≡ true
      → (count is_web_op m.ops_runner.pending_ops ≡ 0)
        × (pos shutdown_inactive_interval_ms <ℤ c.millis e.now m.last_event_time)
        × (in_time_before_prediction_period c e.now m.predicted_wakeup ≡ false)
        × (in_time_grace_period c e.now m.predicted_wakeup ≡ false)
  keep_watch-IsIdle flag e m {t} exact few up done down =
      elim (Bool-cases (may_shutdown c o flag e.now (expire_prediction c e.now first).state)) [
        | inl may ↦ finish (
            expire_prediction-IsIdle e.now m first.wakes
              (may_shutdown-IsIdle flag e.now (expire_prediction c e.now first).state may))
        | inr may ↦
            absurd (
              false≢true
                (sym (keep_watch-skip flag e m first refl up may) ∙ ap swapped done ∙ down))
      ]
    where
      first : Woken (ControllerModule W Time Req)
      first = record { state = m; wakes = if m.ops_runner.have_unpolled_ops then 1 else 0 }

      finish :
          IsIdle e.now m
          → (count is_web_op m.ops_runner.pending_ops ≡ 0)
            × (pos shutdown_inactive_interval_ms <ℤ c.millis e.now m.last_event_time)
            × (in_time_before_prediction_period c e.now m.predicted_wakeup ≡ false)
            × (in_time_grace_period c e.now m.predicted_wakeup ≡ false)
      finish i = (
        omega (
          arith,
          exact.exact,
          i.no_web_calls,
          count-le-length is_web_op m.ops_runner.pending_ops,
        ),
        i.inactive,
        i.not_before,
        i.not_grace,
      )
