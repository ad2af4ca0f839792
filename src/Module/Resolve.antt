-- ===== src/Module/Resolve.antt =====
-- `resolve_async_ops` of module.rs, and the loop of `poll_event_loop` that calls it.
use wasm_operator.Base.{
  ℕ, zero, suc, ◌+◌, Bool, true, false, Option, none, some, List, [], ◌∷◌, ◌++◌, length,
  if◌then◌else◌,
}
use wasm_operator.Base.Outcome.{Outcome, ok, failed, out_of_fuel, ◌>>=◌, ready, pending}
use wasm_operator.Abi.Command.{AsyncResult}
use wasm_operator.Runner.{
  PendingOp, handle_requests, OpsRunner, Collected, op_failed, received, idle, collect,
}
use wasm_operator.Wasm.Interface.{WasmOps}
use wasm_operator.Module.Clock.{Chrono}
use wasm_operator.Module.{
  ControllerModule, Readings, Turn, add_event_time, shutdown_inactive_interval_ms,
}

module _ {W Time Req : Type 0} where
  -- The branch `if let Some(result) = maybe_result` up to the call of `wakeup`.
  unfoldable pub note_event :
      Readings Time → ControllerModule W Time Req → ControllerModule W Time Req
  note_event clock m =
      if m.first_event_after_shutdown
      then record (add_event_time clock.event m) { first_event_after_shutdown = false }
      else m

  -- The instance has been polled, and has made some requests.
  unfoldable pub after_poll :
      W → List (PendingOp Req) → ControllerModule W Time Req → ControllerModule W Time Req
  after_poll w made m = record m { wasm = w; ops_runner = handle_requests made m.ops_runner }

  unfoldable pub note_finished :
      Readings Time → AsyncResult → ControllerModule W Time Req → ControllerModule W Time Req
  note_finished clock result m =
      if result.finished
      then record m {
        last_event_time = clock.finish;
        sleep_vec = m.sleep_vec ++ (shutdown_inactive_interval_ms + 10) ∷ [];
      }
      else m

module _ {W R Time Req : Type 0} (c : Chrono Time) (o : WasmOps W R Req) where
  unfoldable pub note_missed :
      Readings Time → ControllerModule W Time Req → ControllerModule W Time Req
  note_missed clock m =
      if o.is_uninstantiating m.wasm
      then record m { predicted_wakeup = c.plus_days clock.missed 999 }
      else m

  unfoldable pub deliver :
      Readings Time
      → AsyncResult
      → ControllerModule W Time Req
      → Outcome (Bool × ControllerModule W Time Req)
  deliver clock result m = do
    let m' = note_finished clock result (note_missed clock (note_event clock m))
    w ← o.wakeup result m'.wasm
    ok (true, record m' { wasm = w })

  -- What the loop over the pending operations has ended with; none if its fuel was used up.
  unfoldable pub resolved :
      Readings Time
      → ControllerModule W Time Req
      → Option (Collected × OpsRunner Req)
      → Outcome (Bool × ControllerModule W Time Req)
  resolved clock m none = out_of_fuel
  resolved clock m (some (op_failed, r)) = failed
  resolved clock m (some (idle, r)) = ok (false, record m { ops_runner = r })
  resolved clock m (some (received result, r)) = deliver clock result (record m { ops_runner = r })

  -- One round more than there are pending operations is enough.
  unfoldable pub resolve_async_ops :
      Turn R Time → ControllerModule W Time Req → Outcome (Bool × ControllerModule W Time Req)
  resolve_async_ops turn m =
      let r = record (m.ops_runner) { have_unpolled_ops = false } in
      resolved turn.clock m (collect (suc (length r.pending_ops)) turn.sweeps 0 r)

  -- `while self.wasm.poll_unpin(cx)?.is_ready() && self.resolve_async_ops(cx)? {}`
  unfoldable pub drain :
      ℕ
      → (ℕ → Turn R Time)
      → ℕ
      → ControllerModule W Time Req
      → Outcome (ControllerModule W Time Req)
  drain zero env k m = out_of_fuel
  drain (suc fuel) env k m = do
    (p, w, made) ← o.poll_unpin (env k).reply m.wasm
    let m' = after_poll w made m
    elim p [
      | pending ↦ ok m'
      | ready _ ↦ do
        (more, m'') ← resolve_async_ops (env k) m'
        elim more [ true ↦ drain fuel env (suc k) m'' | false ↦ ok m'' ]
    ]
