-- ===== src/Wasm/Admitted.antt =====
-- The jobs of modules/wasm.rs once their instance is there, the wait for a permit, and the swap out
-- keep the runtime in one of its states.
use wasm_operator.Base.{
  true, false, Option, none, some, List, ◌≡◌, refl, arith, inl, inr, Bool-cases,
}
use wasm_operator.Base.Outcome
use wasm_operator.Base.Outcome.{
  Outcome, ok, failed, panicked, ◌>>=◌, Poll, ready, pending, is_ready, Returns, returns, errs,
}
use wasm_operator.Abi.Command.{Bytes}
use wasm_operator.Abi.{RequestCodec, ControllerCtx, HostCall, host_calls}
use wasm_operator.Abi.Answerable.{host_calls-Returns}
use wasm_operator.Wasm.Wasmtime.{Engine, IsEngine, GuestCall, start_call, wakeup_call}
use wasm_operator.Wasm.{
  Snapshot, Store, got_inst, Job, uninstantiate_job, start_job, wakeup_job, load_job, WasmRuntime,
  Permit, granted, waits, closed, Write, writes, written, refused, Reply,
}
use wasm_operator.Wasm.Jobs.{
  restore, bring_in, finished, write_out, swap_out, run_guest, run_job, with_instance, admit,
}
use wasm_operator.Wasm.Restore.{restore-IsRestored, Ends-Returns}
use wasm_operator.Wasm.Machine.{IsSwapped, IsLocked, IsWaiting, IsPolled}

module _ {Inst Val Req : Type 0} {e : Engine Inst Val} {codec : RequestCodec Req}
    {IsInst : Inst → Type 0} (laws : IsEngine e codec IsInst) where
  run_guest-IsPolled :
      (call : GuestCall) (store : Store Inst) (w : WasmRuntime Inst Val)
      → IsInst store.inst
      → w.permits ≡ 1
      → w.uninstantiating ≡ false
      → Returns (IsPolled e codec IsInst false) (run_guest e codec call store w)
  unfolding run_guest
  run_guest-IsPolled call store w is p f =
      ran (e.run call store.context.async_request_id_counter store.inst) refl
    where
      ran :
          (x : Option (Inst × List HostCall))
          → e.run call store.context.async_request_id_counter store.inst ≡ x
          → Returns (IsPolled e codec IsInst false) (elim x [
            | none ↦ failed
            | some (i, calls) ↦ (do
              (ctx, made) ← host_calls codec calls store.context
              finished e codec (got_inst (record { context = ctx; inst = i })) w made)
          ])
      ran none eq = errs
      ran (some (i, calls)) eq =
          Outcome.bind
            (host_calls-Returns codec calls store.context (laws.answerable call _ store.inst is eq))
            λ (ctx, made) _. returns (record {
              good = ((laws.run_lem call _ store.inst is eq, p), f);
              still = refl;
              same = f;
            })

  pub run_job-IsPolled :
      (job : Job) (store : Store Inst) (w : WasmRuntime Inst Val)
      → IsInst store.inst
      → w.permits ≡ 1
      → w.uninstantiating ≡ false
      → Returns (IsPolled e codec IsInst false) (run_job e codec job store w)
  unfolding run_job
  run_job-IsPolled start_job store w is p f = run_guest-IsPolled start_call store w is p f
  run_job-IsPolled (wakeup_job result) store w is p f =
      run_guest-IsPolled (wakeup_call result) store w is p f
  run_job-IsPolled load_job store w is p f =
      returns (record { good = ((is, p), f); still = refl; same = f })
  run_job-IsPolled uninstantiate_job store w is p f =
      returns (record { good = ((is, p), f); still = refl; same = f })

  -- The snapshot is missing when the operator starts.
  abbrev IsBrought : Option (Snapshot Val) → Option Bytes → Type 0
  IsBrought none file = Unit
  IsBrought (some snapshot) file = IsSwapped e codec IsInst snapshot file

  bring_in-IsInst :
      (reply : Reply) (snapshot : Option (Snapshot Val)) (file : Option Bytes)
      → IsBrought snapshot file
      → Returns IsInst (bring_in e reply snapshot file)
  unfolding bring_in
  bring_in-IsInst reply none file b = elim (Bool-cases (reply.instantiates)) [
    | inl y ↦ rw y (returns laws.fresh_lem)
    | inr n ↦ rw n errs
  ]
  bring_in-IsInst reply (some snapshot) none b = errs
  bring_in-IsInst reply (some snapshot) (some file) b =
      let restored : Returns IsInst (restore e snapshot file e.fresh) =
        (let same : file ≡ b.m = (let eq = b.file_eq in cc) in
          rw (b.snapshot_eq, same)
            (Ends-Returns (restore-IsRestored e codec laws b.old b.m b.is_inst b.memory)
              λ i r. r.is_inst)) in
      elim (Bool-cases (reply.instantiates)) [
        | inl y ↦ elim (Bool-cases (reply.open_ok)) [
          | inl z ↦ rw (y, z) restored
          | inr n ↦ rw (y, n) errs
        ]
        | inr n ↦ rw n errs
      ]

  IsWaiting-IsBrought :
      (job : Job) (snapshot : Option (Snapshot Val)) (file : Option Bytes)
      → IsWaiting e codec IsInst job snapshot file
      → IsBrought snapshot file
  IsWaiting-IsBrought uninstantiate_job snapshot file h = elim h [ ]
  IsWaiting-IsBrought start_job (some snapshot) file h = elim h [ ]
  IsWaiting-IsBrought (wakeup_job result) none file h = elim h [ ]
  IsWaiting-IsBrought load_job none file h = elim h [ ]
  IsWaiting-IsBrought start_job none file h = tt
  IsWaiting-IsBrought (wakeup_job result) (some snapshot) file h = h
  IsWaiting-IsBrought load_job (some snapshot) file h = h

  pub admit-IsPolled :
      (permit : Permit) (reply : Reply) (job : Job) (ctx : ControllerCtx)
      (snapshot : Option (Snapshot Val)) (w : WasmRuntime Inst Val)
      → IsWaiting e codec IsInst job snapshot w.swap_file
      → w.permits ≡ 0
      → w.uninstantiating ≡ false
      → IsLocked e codec IsInst w.inner
      → Returns (IsPolled e codec IsInst false) (admit e codec permit reply job ctx snapshot w)
  unfolding admit with_instance
  admit-IsPolled waits reply job ctx snapshot w h p f l =
      returns (record { good = (h, f, p, l); still = refl; same = f })
  admit-IsPolled closed reply job ctx snapshot w h p f l = errs
  admit-IsPolled granted reply job ctx snapshot w h p f l =
      Outcome.bind
        (bring_in-IsInst reply snapshot w.swap_file
          (IsWaiting-IsBrought job snapshot w.swap_file h))
        λ i is. run_job-IsPolled job _ _ is (omega arith) f

  pub write_out-IsPolled :
      (write : Write) (store : Store Inst) (mem : Bytes) (w : WasmRuntime Inst Val)
      → IsInst store.inst
      → e.memory store.inst ≡ some mem
      → w.permits ≡ 1
      → w.uninstantiating ≡ true
      → IsLocked e codec IsInst w.inner
      → Returns (IsPolled e codec IsInst true) (write_out e codec write store mem w)
  unfolding write_out
  write_out-IsPolled writes store mem w is m p f l =
      returns (record { good = (is, m, f, p, l); still = refl; same = f })
  write_out-IsPolled refused store mem w is m p f l = errs
  write_out-IsPolled written store mem w is m p f l = returns (record {
    good = (
      (
        record {
          old = store.inst;
          m = mem;
          is_inst = is;
          memory = m;
          snapshot_eq = refl;
          file_eq = refl;
        },
        omega arith,
      ),
      f,
    );
    still = refl;
    same = f;
  })

  pub swap_out-IsPolled :
      (reply : Reply) (store : Store Inst) (w : WasmRuntime Inst Val)
      → IsInst store.inst
      → w.permits ≡ 1
      → w.uninstantiating ≡ true
      → IsLocked e codec IsInst w.inner
      → Returns (IsPolled e codec IsInst true) (swap_out e codec reply (got_inst store) w)
  unfolding swap_out
  swap_out-IsPolled reply store w is p f l =
      let (m, mem, _, _) = laws.memory_lem store.inst is in
      rw (mem, swap_out) (write_out-IsPolled reply.write store m w is mem p f l)
