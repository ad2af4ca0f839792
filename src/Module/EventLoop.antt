-- ===== src/Module/EventLoop.antt =====
-- `poll_event_loop` of module.rs.
use wasm_operator.Base.{
  ℕ, ◌+◌, Bool, true, false, not, ◌&&◌, List, [], ◌∷◌, ◌++◌, pos, ltb_ℤ, retain, ◌==◌,
  if◌then◌else◌,
}
use wasm_operator.Base.Outcome.{Outcome, ok, panicked, ◌>>=◌, Poll, ready, pending}
use wasm_operator.Wasm.Interface.{WasmOps}
use wasm_operator.Module.Clock.{Chrono}
use wasm_operator.Module.{
  ControllerModule, Turn, predicts, malformed, unreachable, Evening, Woken, next_time,
  grace_period_ms, time_before_predicted_ms, in_time_before_prediction_period, in_time_grace_period,
  is_inactive_period,
}
use wasm_operator.Module.Resolve.{after_poll, drain}

abbrev pub is_empty {ℓ} : {A : Type ℓ} → List A → Bool
is_empty [] = true
is_empty (x ∷ xs) = false

module _ {R W Time Req : Type 0} where
  unfoldable pub drop_old_timers :
      Evening R Time → Woken (ControllerModule W Time Req) → Woken (ControllerModule W Time Req)
  drop_old_timers e t =
      let m = t.state in
      record t { state = record m { sleep_vec = retain (λ s. not (e.elapsed s)) m.sleep_vec } }

module _ {W Time Req : Type 0} (c : Chrono Time) where
  unfoldable pub is_stale : Time → ControllerModule W Time Req → Bool
  is_stale now m =
      ltb_ℤ (pos 0) (c.millis now m.predicted_wakeup)
      && not (in_time_grace_period c now m.predicted_wakeup)

  -- A prediction in the past, whose grace period is over, is put off for good.
  unfoldable pub expire_prediction :
      Time → Woken (ControllerModule W Time Req) → Woken (ControllerModule W Time Req)
  expire_prediction now t =
      let m = t.state in
      if is_stale now m
      then record {
        state = record m { predicted_wakeup = c.plus_days now 999 };
        wakes = t.wakes + 1;
      }
      else t

  -- The request to the prediction server; a reply that is no prediction panics (`unwrap`).
  unfoldable pub ask_prediction :
      {R : Type 0}
      → Evening R Time
      → ControllerModule W Time Req
      → Outcome (ControllerModule W Time Req)
  ask_prediction e m = elim (e.server) [
    | predicts p ↦ ok (record m {
      predicted_wakeup = p;
      sleep_vec = m.sleep_vec ++ next_time (c.millis p e.asked) ∷ [];
    })
    | malformed ↦ panicked
    | unreachable ↦ ok m
  ]

module _ {W R Time Req : Type 0} (c : Chrono Time) (o : WasmOps W R Req) where
  unfoldable pub is_due : Time → ControllerModule W Time Req → Bool
  is_due now m =
      o.is_uninstantiating m.wasm && in_time_before_prediction_period c now m.predicted_wakeup

  -- Shortly before the predicted event an instance on disk is loaded.
  unfoldable pub load_early :
      Time → Woken (ControllerModule W Time Req) → Outcome (Woken (ControllerModule W Time Req))
  load_early now t =
      let m = t.state in
      if is_due now m
      then (do
        w ← o.load_to_mem m.wasm
        ok (record {
          state = record m {
            wasm = w;
            sleep_vec = m.sleep_vec ++ (grace_period_ms + time_before_predicted_ms) ∷ [];
          };
          wakes = t.wakes + 1;
        }))
      else ok t

  -- When the instance may be swapped out.
  unfoldable pub may_shutdown : Bool → Time → ControllerModule W Time Req → Bool
  may_shutdown compile_with_uninstantiate now m =
      m.ops_runner.nr_web_calls == 0
      && not (o.is_uninstantiating m.wasm)
      && compile_with_uninstantiate
      && is_inactive_period c now m.last_event_time
      && not (in_time_before_prediction_period c now m.predicted_wakeup)
      && not (in_time_grace_period c now m.predicted_wakeup)

  unfoldable pub shutdown_idle :
      Bool
      → Evening R Time
      → Woken (ControllerModule W Time Req)
      → Outcome (Woken (ControllerModule W Time Req))
  shutdown_idle compile_with_uninstantiate e t =
      let m = t.state in
      if may_shutdown compile_with_uninstantiate e.now m
      then (do
        w ← o.uninstantiate m.wasm
        let m1 = record m { wasm = w }
        m2 ← (if m1.first_event_after_shutdown then ok m1 else ask_prediction c e m1)
        ok (record {
          state = record m2 { first_event_after_shutdown = true };
          wakes = t.wakes + 1;
        }))
      else ok t

  -- From `if runner.have_unpolled_ops` to the end: what is done while the operator waits.
  unfoldable pub keep_watch :
      Bool
      → Evening R Time
      → ControllerModule W Time Req
      → Outcome (Woken (ControllerModule W Time Req))
  keep_watch compile_with_uninstantiate e m = do
    let unpolled = if m.ops_runner.have_unpolled_ops then 1 else 0
    let t = expire_prediction c e.now (record { state = m; wakes = unpolled })
    t1 ← load_early e.now t
    t2 ← shutdown_idle compile_with_uninstantiate e t1
    ok (drop_old_timers e t2)

  -- `ready` is `Poll::Ready(Ok(()))`. `fuel` bounds the results that one call delivers.
  unfoldable pub poll_event_loop :
      Bool
      → ℕ
      → (ℕ → Turn R Time)
      → Evening R Time
      → ControllerModule W Time Req
      → Outcome (Poll (Unit {0}) × Woken (ControllerModule W Time Req))
  poll_event_loop compile_with_uninstantiate fuel env e m = do
    m1 ← drain c o fuel env 0 m
    (p, w, made) ← o.poll_unpin e.reply m1.wasm
    let m2 = after_poll w made m1
    elim p [
      | pending ↦ ok (pending, record { state = m2; wakes = 0 })
      | ready _ ↦
          if is_empty m2.ops_runner.pending_ops
          then ok (ready tt, record { state = m2; wakes = 0 })
          else (do t ← keep_watch compile_with_uninstantiate e m2; ok (pending, t))
    ]
