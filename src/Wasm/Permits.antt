-- ===== src/Wasm/Permits.antt =====
-- What a poll of modules/wasm.rs does with the permits of the pool: `acquire_owned`, and the permit
-- that is dropped.
use wasm_operator.Base.{ℕ, ◌+◌, ◌-◌, none, some}
use wasm_operator.Wasm.{
  MaybeInst, locked, not_inst, uns_inst, got_inst, uninstantiate_job, start_job, wakeup_job,
  load_job, Work, unpolled, acquiring, writing, WasmRuntime, Permit, granted, waits, closed, Reply,
}

abbrev pub permits_of : Permit → ℕ
permits_of granted = 1
permits_of waits = 0
permits_of closed = 0

module _ {Inst Val : Type 0} where
  -- The permits that a poll takes from the pool: `take_not` or `take_uns` has found something, or
  -- the future waits already.
  abbrev pub to_start : Permit → MaybeInst Inst Val → ℕ
  to_start permit (not_inst ctx) = permits_of permit
  to_start permit (uns_inst ctx snapshot) = 0
  to_start permit (got_inst store) = 0
  to_start permit locked = 0

  abbrev pub to_load : Permit → MaybeInst Inst Val → ℕ
  to_load permit (uns_inst ctx snapshot) = permits_of permit
  to_load permit (not_inst ctx) = 0
  to_load permit (got_inst store) = 0
  to_load permit locked = 0

  unfoldable pub acquired_by : Permit → Work Inst Val → MaybeInst Inst Val → ℕ
  acquired_by permit (acquiring job ctx snapshot) inner = permits_of permit
  acquired_by permit (unpolled start_job) inner = to_start permit inner
  acquired_by permit (unpolled (wakeup_job result)) inner = to_load permit inner
  acquired_by permit (unpolled load_job) inner = to_load permit inner
  acquired_by permit (unpolled uninstantiate_job) inner = 0
  acquired_by permit (writing store mem) inner = 0

  unfoldable pub acquired : Reply → WasmRuntime Inst Val → ℕ
  unfolding acquired_by
  acquired reply w = elim (w.wasm_work) [
    | none ↦ 0
    | some work ↦ acquired_by reply.permit work w.inner
  ]

  -- The permits that the runtime `w` held or acquired, and that it does not hold any more behind the
  -- poll that leaves `w'`.
  unfoldable pub released : Reply → WasmRuntime Inst Val → WasmRuntime Inst Val → ℕ
  unfolding acquired
  released reply w w' = w.permits + acquired reply w - w'.permits
