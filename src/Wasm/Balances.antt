-- ===== src/Wasm/Balances.antt =====
-- The permits that a runtime of modules/wasm.rs holds after a poll.
use wasm_operator.Base.{ℕ, ◌+◌, ◌≤◌, Option, none, some, List, [], arith, inl, inr, Option-cases}
use wasm_operator.Base.Outcome.{
  Outcome, ok, failed, panicked, out_of_fuel, ◌>>=◌, ready, IfOk, IfOk-bind,
}
use wasm_operator.Abi.Command.{Bytes}
use wasm_operator.Abi.{RequestCodec, ControllerCtx, HostCall, host_calls}
use wasm_operator.Wasm.Wasmtime.{Engine, GuestCall, start_call, wakeup_call}
use wasm_operator.Wasm.{
  Snapshot, Store, MaybeInst, locked, not_inst, uns_inst, got_inst, take, take_not, take_uns,
  take_got, Job, uninstantiate_job, start_job, wakeup_job, load_job, Work, unpolled, acquiring,
  writing, WasmRuntime, Permit, granted, waits, closed, Write, writes, written, refused, Reply,
}
use wasm_operator.Wasm.Jobs.{
  bring_in, Polled, finished, write_out, swap_out, run_guest, run_job, with_instance, admit,
  with_taken, poll_job, poll_unpin,
}
use wasm_operator.Wasm.Permits.{permits_of, to_start, to_load, acquired_by, acquired}

module _ {Inst Val Req : Type 0} (e : Engine Inst Val) (codec : RequestCodec Req) where
  -- The runtime that a poll leaves, if it succeeds, holds at most `n` permits.
  abbrev pub Holds : ℕ → Outcome (Polled e codec) → Type 0
  Holds n r = IfOk (λ (t : Polled e codec). t.1.permits ≤ n) r

  run_guest-Holds :
      (call : GuestCall) (store : Store Inst) (w : WasmRuntime Inst Val)
      → Holds w.permits (run_guest e codec call store w)
  unfolding run_guest
  run_guest-Holds call store w = ran (e.run call store.context.async_request_id_counter store.inst)
    where
      ran :
          (x : Option (Inst × List HostCall))
          → Holds w.permits (elim x [
            | none ↦ failed
            | some (i, calls) ↦ (do
              (ctx, made) ← host_calls codec calls store.context
              finished e codec (got_inst (record { context = ctx; inst = i })) w made)
          ])
      ran none = tt
      ran (some (i, calls)) = IfOk-bind _ (host_calls codec calls store.context) _ λ t. omega arith

  run_job-Holds :
      (job : Job) (store : Store Inst) (w : WasmRuntime Inst Val)
      → Holds w.permits (run_job e codec job store w)
  unfolding run_job
  run_job-Holds start_job store w = run_guest-Holds start_call store w
  run_job-Holds (wakeup_job result) store w = run_guest-Holds (wakeup_call result) store w
  run_job-Holds load_job store w = omega arith
  run_job-Holds uninstantiate_job store w = omega arith

  with_instance-Holds :
      (job : Job) (inner : MaybeInst Inst Val) (w : WasmRuntime Inst Val)
      → Holds w.permits (with_instance e codec job inner w)
  unfolding with_instance
  with_instance-Holds job (got_inst store) w = run_job-Holds job store w
  with_instance-Holds job locked w = tt
  with_instance-Holds job (not_inst ctx) w = tt
  with_instance-Holds job (uns_inst ctx snapshot) w = tt

  admit-Holds :
      (permit : Permit) (reply : Reply) (job : Job) (ctx : ControllerCtx)
      (snapshot : Option (Snapshot Val)) (w : WasmRuntime Inst Val)
      → Holds (w.permits + permits_of permit) (admit e codec permit reply job ctx snapshot w)
  unfolding admit
  admit-Holds waits reply job ctx snapshot w = omega arith
  admit-Holds closed reply job ctx snapshot w = tt
  admit-Holds granted reply job ctx snapshot w =
      IfOk-bind _ (bring_in e reply snapshot w.swap_file) _ λ i.
        with_instance-Holds job (got_inst (record { context = ctx; inst = i }))
          (record w { permits = w.permits + 1 })

  write_out-Holds :
      (write : Write) (store : Store Inst) (mem : Bytes) (w : WasmRuntime Inst Val)
      → Holds w.permits (write_out e codec write store mem w)
  unfolding write_out
  write_out-Holds writes store mem w = omega arith
  write_out-Holds written store mem w = omega arith
  write_out-Holds refused store mem w = tt

  swap_out-Holds :
      (reply : Reply) (taken : MaybeInst Inst Val) (w : WasmRuntime Inst Val)
      → Holds w.permits (swap_out e codec reply taken w)
  unfolding swap_out
  swap_out-Holds reply (got_inst store) w = elim (Option-cases (e.memory store.inst)) [
    | inl n ↦ rw (n, swap_out) tt
    | inr (mem, n) ↦ rw (n, swap_out) (write_out-Holds reply.write store mem w)
  ]
  swap_out-Holds reply (uns_inst ctx snapshot) w = omega arith
  swap_out-Holds reply (not_inst ctx) w = omega arith
  swap_out-Holds reply locked w = omega arith

  Holds-more : (n k : ℕ) (r : Outcome (Polled e codec)) → Holds n r → n ≤ k → Holds k r
  Holds-more n k (ok t) h le = omega (arith, h, le)
  Holds-more n k failed h le = tt
  Holds-more n k panicked h le = tt
  Holds-more n k out_of_fuel h le = tt

  kept :
      (job : Job) (inner : MaybeInst Inst Val) (w : WasmRuntime Inst Val)
      → Holds (w.permits + 0) (with_instance e codec job inner w)
  kept job inner w =
      Holds-more w.permits (w.permits + 0) (with_instance e codec job inner w)
        (with_instance-Holds job inner w) (omega arith)

  start-Holds :
      (reply : Reply) (inner : MaybeInst Inst Val) (w : WasmRuntime Inst Val)
      → Holds (w.permits + to_start reply.permit inner) (
          let (taken, left) = take_not inner in
          with_taken e codec reply start_job taken (record w { inner = left }))
  unfolding take_not take with_taken
  start-Holds reply (not_inst ctx) w =
      admit-Holds reply.permit reply start_job ctx none (record w { inner = locked })
  start-Holds reply (got_inst store) w =
      kept start_job (got_inst store) (record w { inner = got_inst store })
  start-Holds reply (uns_inst ctx snapshot) w =
      kept start_job (uns_inst ctx snapshot) (record w { inner = uns_inst ctx snapshot })
  start-Holds reply locked w = kept start_job locked (record w { inner = locked })

  load-Holds :
      (reply : Reply) (job : Job) (inner : MaybeInst Inst Val) (w : WasmRuntime Inst Val)
      → Holds (w.permits + to_load reply.permit inner) (
          let (taken, left) = take_uns inner in
          with_taken e codec reply job taken (record w { inner = left }))
  unfolding take_uns take with_taken
  load-Holds reply job (uns_inst ctx snapshot) w =
      admit-Holds reply.permit reply job ctx (some snapshot) (record w { inner = locked })
  load-Holds reply job (got_inst store) w =
      kept job (got_inst store) (record w { inner = got_inst store })
  load-Holds reply job (not_inst ctx) w =
      kept job (not_inst ctx) (record w { inner = not_inst ctx })
  load-Holds reply job locked w = kept job locked (record w { inner = locked })

  swapped-Holds :
      (reply : Reply) (inner : MaybeInst Inst Val) (w : WasmRuntime Inst Val)
      → Holds (w.permits + 0) (
          let (taken, left) = take_got inner in
          swap_out e codec reply taken (record w { inner = left }))
  swapped-Holds reply inner w =
      let (taken, left) = take_got inner in
      Holds-more w.permits (w.permits + 0)
        (swap_out e codec reply taken (record w { inner = left }))
        (swap_out-Holds reply taken (record w { inner = left })) (omega arith)

  poll_job-Holds :
      (reply : Reply) (work : Work Inst Val) (w : WasmRuntime Inst Val)
      → Holds (w.permits + acquired_by reply.permit work w.inner) (poll_job e codec reply work w)
  unfolding poll_job acquired_by
  poll_job-Holds reply (unpolled uninstantiate_job) w = swapped-Holds reply w.inner w
  poll_job-Holds reply (unpolled start_job) w = start-Holds reply w.inner w
  poll_job-Holds reply (unpolled (wakeup_job result)) w =
      load-Holds reply (wakeup_job result) w.inner w
  poll_job-Holds reply (unpolled load_job) w = load-Holds reply load_job w.inner w
  poll_job-Holds reply (acquiring job ctx snapshot) w =
      admit-Holds reply.permit reply job ctx snapshot w
  poll_job-Holds reply (writing store mem) w =
      Holds-more w.permits (w.permits + 0) (write_out e codec reply.write store mem w)
        (write_out-Holds reply.write store mem w) (omega arith)

  -- The permits behind a poll are at most those that the runtime held and those that it acquired.
  pub poll_unpin-Holds :
      (reply : Reply) (w : WasmRuntime Inst Val)
      → Holds (w.permits + acquired reply w) (poll_unpin e codec reply w)
  unfolding poll_unpin acquired
  poll_unpin-Holds reply w = polled w.wasm_work
    where
      taken : Option (Work Inst Val) → ℕ
      taken none = 0
      taken (some work) = acquired_by reply.permit work w.inner

      polled :
          (x : Option (Work Inst Val))
          → Holds
              (w.permits + taken x)
              (elim x [ none ↦ ok (ready tt, w, []) | some work ↦ poll_job e codec reply work w ])
      polled none = omega arith
      polled (some work) = poll_job-Holds reply work w
