-- ===== src/Wasm/Jobs.antt =====
-- The futures of modules/wasm.rs, step by step from one wait for a permit to the next.
use Prim.Native.String.{String}
use wasm_operator.Base.{
  ℕ, ◌+◌, ◌-◌, Option, none, some, List, [], ◌∷◌, length, take, ltb, leb, ◌==◌, if◌then◌else◌,
}
use wasm_operator.Base.Outcome.{Outcome, ok, failed, panicked, ◌>>=◌, Poll, ready, pending}
use wasm_operator.Abi.Command.{Bytes}
use wasm_operator.Abi.{RequestCodec, ControllerCtx, host_calls}
use wasm_operator.Runner.{PendingOp}
use wasm_operator.Wasm.Globals.{var_globals}
use wasm_operator.Wasm.Wasmtime.{Engine, GuestCall, start_call, wakeup_call}
use wasm_operator.Wasm.{
  Snapshot, Store, MaybeInst, locked, not_inst, uns_inst, got_inst, take_not, take_uns, take_got,
  Job, uninstantiate_job, start_job, wakeup_job, load_job, Work, unpolled, acquiring, writing,
  WasmRuntime, Permit, granted, waits, closed, Write, writes, written, refused, Reply, n_pages,
}

module _ {Inst Val : Type 0} (e : Engine Inst Val) where
  -- `mem.grow` up to the size that was saved.
  unfoldable pub grow_to : ℕ → ℕ → Inst → Outcome Inst
  grow_to memory_min mem_size i =
      if ltb mem_size memory_min
      then elim (e.grow (n_pages (memory_min - mem_size)) i) [ none ↦ failed | some i' ↦ ok i' ]
      else ok i

  -- `read_exact` into the whole memory, and the assertion behind it.
  unfoldable pub read_memory : ℕ → Bytes → Inst → Outcome Inst
  read_memory memory_min file i = elim (e.memory i) [
    | none ↦ panicked
    | some m ↦
        if leb (length m) (length file)
        then (if length m == memory_min
            then ok (e.write_memory (take (length m) file) i)
            else panicked)
        else failed
  ]

  unfoldable pub set_globals : List (String × Val) → Inst → Outcome Inst
  set_globals [] i = ok i
  set_globals ((name, value) ∷ rest) i = do i' ← e.set_global name value i; set_globals rest i'

  unfoldable pub restore : Snapshot Val → Bytes → Inst → Outcome Inst
  restore snapshot file i = elim (e.memory i) [
    | none ↦ panicked
    | some mem ↦ (do
      i1 ← grow_to snapshot.memory_min (length mem) i
      i2 ← read_memory snapshot.memory_min file i1
      set_globals snapshot.globals i2)
  ]

  -- `Module::deserialize_file` and `instantiate`, and then the snapshot, if there is one.
  unfoldable pub bring_in : Reply → Option (Snapshot Val) → Option Bytes → Outcome Inst
  bring_in reply none file = if reply.instantiates then ok e.fresh else failed
  bring_in reply (some snapshot) none = failed
  bring_in reply (some snapshot) (some file) =
      if reply.instantiates
      then (if reply.open_ok then restore snapshot file e.fresh else failed)
      else failed

module _ {Inst Val Req : Type 0} (e : Engine Inst Val) (codec : RequestCodec Req) where
  abbrev pub Polled : Type 0
  Polled = Poll (Unit {0}) × WasmRuntime Inst Val × List (PendingOp Req)

  -- The job is done.
  abbrev pub finished :
      MaybeInst Inst Val → WasmRuntime Inst Val → List (PendingOp Req) → Outcome Polled
  finished inner w made = ok (ready tt, record w { inner = inner; wasm_work = none }, made)

  -- `tokio::fs::write(…).await?` of the memory, and what follows it.
  unfoldable pub write_out : Write → Store Inst → Bytes → WasmRuntime Inst Val → Outcome Polled
  write_out writes store mem w = ok (pending, record w { wasm_work = some (writing store mem) }, [])
  write_out refused store mem w = failed
  write_out written store mem w =
      finished
        (uns_inst store.context
          (record { globals = var_globals (e.globals store.inst); memory_min = length mem }))
        (record w { permits = w.permits - 1; swap_file = some mem }) []

  -- `uninstantiate`, with what `take_got` has taken and left.
  unfoldable pub swap_out : Reply → MaybeInst Inst Val → WasmRuntime Inst Val → Outcome Polled
  swap_out reply (got_inst store) w = elim (e.memory store.inst) [
    | none ↦ panicked
    | some mem ↦ write_out reply.write store mem w
  ]
  swap_out reply locked w = finished w.inner w []
  swap_out reply (not_inst ctx) w = finished w.inner w []
  swap_out reply (uns_inst ctx snapshot) w = finished w.inner w []

  unfoldable pub run_guest : GuestCall → Store Inst → WasmRuntime Inst Val → Outcome Polled
  run_guest call store w = elim (e.run call store.context.async_request_id_counter store.inst) [
    | none ↦ failed
    | some (i, calls) ↦ (do
      (ctx, made) ← host_calls codec calls store.context
      finished (got_inst (record { context = ctx; inst = i })) w made)
  ]

  unfoldable pub run_job : Job → Store Inst → WasmRuntime Inst Val → Outcome Polled
  unfolding run_guest
  run_job start_job store w = run_guest start_call store w
  run_job (wakeup_job result) store w = run_guest (wakeup_call result) store w
  run_job load_job store w = finished (got_inst store) w []
  run_job uninstantiate_job store w = finished (got_inst store) w []

  -- `match &mut *lock`: without an instance the code is `unreachable!()`.
  unfoldable pub with_instance : Job → MaybeInst Inst Val → WasmRuntime Inst Val → Outcome Polled
  with_instance job (got_inst store) w = run_job job store w
  with_instance job locked w = panicked
  with_instance job (not_inst ctx) w = panicked
  with_instance job (uns_inst ctx snapshot) w = panicked

  -- `acquire_owned().await?` and what follows it.
  unfoldable pub admit :
      Permit
      → Reply
      → Job
      → ControllerCtx
      → Option (Snapshot Val)
      → WasmRuntime Inst Val
      → Outcome Polled
  admit waits reply job ctx snapshot w =
      ok (pending, record w { wasm_work = some (acquiring job ctx snapshot) }, [])
  admit closed reply job ctx snapshot w = failed
  admit granted reply job ctx snapshot w = do
    i ← bring_in e reply snapshot w.swap_file
    with_instance job (got_inst (record { context = ctx; inst = i }))
        (record w { permits = w.permits + 1 })

  -- A job that needs the instance, with what `take_not` or `take_uns` has taken.
  unfoldable pub with_taken :
      Reply → Job → MaybeInst Inst Val → WasmRuntime Inst Val → Outcome Polled
  with_taken reply job (not_inst ctx) w = admit reply.permit reply job ctx none w
  with_taken reply job (uns_inst ctx snapshot) w =
      admit reply.permit reply job ctx (some snapshot) w
  with_taken reply job locked w = with_instance job w.inner w
  with_taken reply job (got_inst store) w = with_instance job w.inner w

  unfoldable pub poll_job : Reply → Work Inst Val → WasmRuntime Inst Val → Outcome Polled
  poll_job reply (unpolled uninstantiate_job) w =
      let (taken, left) = take_got w.inner in swap_out reply taken (record w { inner = left })
  poll_job reply (unpolled start_job) w =
      let (taken, left) = take_not w.inner in
      with_taken reply start_job taken (record w { inner = left })
  poll_job reply (unpolled (wakeup_job result)) w =
      let (taken, left) = take_uns w.inner in
      with_taken reply (wakeup_job result) taken (record w { inner = left })
  poll_job reply (unpolled load_job) w =
      let (taken, left) = take_uns w.inner in
      with_taken reply load_job taken (record w { inner = left })
  poll_job reply (acquiring job ctx snapshot) w = admit reply.permit reply job ctx snapshot w
  poll_job reply (writing store mem) w = write_out reply.write store mem w

  unfoldable pub poll_unpin : Reply → WasmRuntime Inst Val → Outcome Polled
  poll_unpin reply w = elim (w.wasm_work) [
    | none ↦ ok (ready tt, w, [])
    | some work ↦ poll_job reply work w
  ]
