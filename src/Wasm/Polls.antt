-- ===== src/Wasm/Polls.antt =====
-- Each poll of a job of modules/wasm.rs keeps the runtime in one of its states.
use wasm_operator.Base.{Bool, true, false, none, some, ◌≡◌, refl}
use wasm_operator.Base.Outcome.{Outcome, Returns, returns}
use wasm_operator.Abi.{RequestCodec}
use wasm_operator.Wasm.Wasmtime.{Engine, IsEngine}
use wasm_operator.Wasm.{
  Snapshot, MaybeInst, locked, not_inst, uns_inst, got_inst, take, take_not, take_uns, take_got,
  Job, uninstantiate_job, start_job, wakeup_job, load_job, Work, unpolled, acquiring, writing,
  WasmRuntime, Reply,
}
use wasm_operator.Wasm.Jobs.{Polled, swap_out, with_instance, with_taken, poll_job}
use wasm_operator.Wasm.Machine.{IsSwapped, IsThere, IsNew, IsWaiting, GoodWork, IsPolled}
use wasm_operator.Wasm.Admitted.{
  run_job-IsPolled, admit-IsPolled, write_out-IsPolled, swap_out-IsPolled,
}

module _ {Inst Val Req : Type 0} {e : Engine Inst Val} {codec : RequestCodec Req}
    {IsInst : Inst → Type 0} (laws : IsEngine e codec IsInst) where
  poll_uninstantiate :
      (reply : Reply) (inner : MaybeInst Inst Val) (w : WasmRuntime Inst Val)
      → IsThere e codec IsInst inner w.permits w.swap_file
      → w.uninstantiating ≡ true
      → Returns (IsPolled e codec IsInst true) (
          let (taken, left) = take_got inner in
          swap_out e codec reply taken (record w { inner = left }))
  unfolding take_got take swap_out
  poll_uninstantiate reply (got_inst store) w (is, p) f =
      swap_out-IsPolled laws reply store (record w { inner = locked }) is p f tt
  poll_uninstantiate reply (uns_inst ctx snapshot) w h f =
      returns (record { good = (h, f); still = refl; same = f })
  poll_uninstantiate reply locked w h f = elim h [ ]
  poll_uninstantiate reply (not_inst ctx) w h f = elim h [ ]

  poll_start :
      (reply : Reply) (inner : MaybeInst Inst Val) (w : WasmRuntime Inst Val)
      → IsNew e codec IsInst inner
      → w.permits ≡ 0
      → w.uninstantiating ≡ false
      → Returns (IsPolled e codec IsInst false) (
          let (taken, left) = take_not inner in
          with_taken e codec reply start_job taken (record w { inner = left }))
  unfolding take_not take with_taken
  poll_start reply (not_inst ctx) w h p f =
      admit-IsPolled laws reply.permit reply start_job ctx none (record w { inner = locked }) tt p f
        tt
  poll_start reply (got_inst store) w h p f = elim h [ ]
  poll_start reply (uns_inst ctx snapshot) w h p f = elim h [ ]
  poll_start reply locked w h p f = elim h [ ]

  -- The jobs that bring back an instance that is swapped out.
  poll_needed :
      (reply : Reply) (job : Job) (inner : MaybeInst Inst Val) (w : WasmRuntime Inst Val)
      → ((snapshot : Snapshot Val)
          → IsSwapped e codec IsInst snapshot w.swap_file
          → IsWaiting e codec IsInst job (some snapshot) w.swap_file)
      → IsThere e codec IsInst inner w.permits w.swap_file
      → w.uninstantiating ≡ false
      → Returns (IsPolled e codec IsInst false) (
          let (taken, left) = take_uns inner in
          with_taken e codec reply job taken (record w { inner = left }))
  unfolding take_uns take with_taken with_instance
  poll_needed reply job (got_inst store) w h (is, p) f =
      run_job-IsPolled laws job store (record w { inner = got_inst store }) is p f
  poll_needed reply job (uns_inst ctx snapshot) w h (s, p) f =
      admit-IsPolled laws reply.permit reply job ctx (some snapshot) (record w { inner = locked })
        (h snapshot s) p f tt
  poll_needed reply job locked w h i f = elim i [ ]
  poll_needed reply job (not_inst ctx) w h i f = elim i [ ]

  as_flag :
      {flag b : Bool} {r : Outcome (Polled e codec)}
      → flag ≡ b
      → Returns (IsPolled e codec IsInst b) r
      → Returns (IsPolled e codec IsInst flag) r
  as_flag f h = rw f h

  pub poll_job-IsPolled :
      (reply : Reply) (work : Work Inst Val) (w : WasmRuntime Inst Val)
      → GoodWork e codec IsInst (some work) w.inner w.uninstantiating w.permits w.swap_file
      → Returns (IsPolled e codec IsInst w.uninstantiating) (poll_job e codec reply work w)
  unfolding poll_job
  poll_job-IsPolled reply (unpolled uninstantiate_job) w (h, f) =
      as_flag f (poll_uninstantiate reply w.inner w h f)
  poll_job-IsPolled reply (unpolled start_job) w (h, f, p) =
      as_flag f (poll_start reply w.inner w h p f)
  poll_job-IsPolled reply (unpolled (wakeup_job result)) w (h, f) =
      as_flag f (poll_needed reply (wakeup_job result) w.inner w (λ _ s. s) h f)
  poll_job-IsPolled reply (unpolled load_job) w (h, f) =
      as_flag f (poll_needed reply load_job w.inner w (λ _ s. s) h f)
  poll_job-IsPolled reply (acquiring job ctx snapshot) w (h, f, p, l) =
      as_flag f (admit-IsPolled laws reply.permit reply job ctx snapshot w h p f l)
  poll_job-IsPolled reply (writing store mem) w (is, m, f, p, l) =
      as_flag f (write_out-IsPolled laws reply.write store mem w is m p f l)
