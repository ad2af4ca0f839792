-- ===== src/Wasm/Serves.antt =====
-- The runtime of modules/wasm.rs keeps the laws that the event loop of module.rs relies on.
use wasm_operator.Base.{Bool, true, false, Option, none, some, [], ◌≡◌, refl}
use mathlib.Core.Path.{subst}
use wasm_operator.Base.Outcome
use wasm_operator.Base.Outcome.{
  Outcome, ok, failed, panicked, ◌>>=◌, Poll, ready, pending, is_ready, Returns, returns, errs,
}
use wasm_operator.Abi.{RequestCodec}
use wasm_operator.Wasm.Interface.{WasmOps, IsWasm, Started, started}
use wasm_operator.Wasm.Wasmtime.{Engine, IsEngine}
use wasm_operator.Wasm.{
  Job, uninstantiate_job, wakeup_job, load_job, Work, unpolled, WasmRuntime, Reply, set_wasm_work,
  uninstantiate, wakeup, load_to_mem,
}
use wasm_operator.Wasm.Jobs.{poll_job, poll_unpin}
use wasm_operator.Wasm.Machine.{IsThere, is_out, GoodWork, Good, busy, IsPolled}
use wasm_operator.Wasm.Polls.{poll_job-IsPolled}

-- The runtime, as the event loop uses it.
abbrev pub wasm_ops :
    {Inst Val Req : Type 0}
    → Engine Inst Val
    → RequestCodec Req
    → WasmOps (WasmRuntime Inst Val) Reply Req
wasm_ops e codec = record {
  poll_unpin = poll_unpin e codec;
  is_uninstantiating = λ w. w.uninstantiating;
  uninstantiate = uninstantiate;
  load_to_mem = load_to_mem;
  wakeup = wakeup;
}

module _ {Inst Val Req : Type 0} {e : Engine Inst Val} {codec : RequestCodec Req}
    {IsInst : Inst → Type 0} (laws : IsEngine e codec IsInst) where
  no_work :
      (work : Option (Work Inst Val))
      → (elim work [ none ↦ false | some x ↦ true ]) ≡ false
      → work ≡ none
  no_work none h = refl
  no_work (some x) h = cc

  pub idle :
      (w : WasmRuntime Inst Val)
      → Good e codec IsInst w
      → w.wasm_work ≡ none
      → IsThere e codec IsInst w.inner w.permits w.swap_file
        × (w.uninstantiating ≡ is_out e codec IsInst w.inner)
  idle w g h =
      subst (λ work. GoodWork e codec IsInst work w.inner w.uninstantiating w.permits w.swap_file) h
        g

  -- The job of a runtime that has none.
  set_wasm_work-Started :
      (job : Job) (flag : Bool) (w : WasmRuntime Inst Val)
      → w.wasm_work ≡ none
      → GoodWork e codec IsInst (some (unpolled job)) w.inner flag w.permits w.swap_file
      → Started
          (Good e codec IsInst)
          (busy e codec IsInst)
          (λ (v : WasmRuntime Inst Val). v.uninstantiating)
          flag
          (set_wasm_work job flag w)
  unfolding set_wasm_work
  set_wasm_work-Started job flag w n g = rw n (started g refl refl)

  pub poll_unpin-IsPolled :
      (reply : Reply) (w : WasmRuntime Inst Val)
      → Good e codec IsInst w
      → Returns (IsPolled e codec IsInst w.uninstantiating) (poll_unpin e codec reply w)
  unfolding poll_unpin
  poll_unpin-IsPolled reply w g = polled w.wasm_work refl
    where
      polled :
          (x : Option (Work Inst Val))
          → w.wasm_work ≡ x
          → Returns
              (IsPolled e codec IsInst w.uninstantiating)
              (elim x [ none ↦ ok (ready tt, w, []) | some work ↦ poll_job e codec reply work w ])
      polled none h = returns (record { good = g; still = rw h refl; same = refl })
      polled (some work) h = poll_job-IsPolled laws reply work w (
          subst (λ v. GoodWork e codec IsInst v w.inner w.uninstantiating w.permits w.swap_file) h
            g)

  pub wasm_ops-IsWasm : IsWasm (wasm_ops e codec) (Good e codec IsInst) (busy e codec IsInst)
  unfolding uninstantiate load_to_mem wakeup
  wasm_ops-IsWasm = record {
    poll_lem =
        λ reply w g. Outcome.mono (poll_unpin-IsPolled reply w g) λ t p. (p.good, p.still, p.same);
    uninstantiate_lem = λ w g h.
        let n = no_work w.wasm_work h in
        set_wasm_work-Started uninstantiate_job true w n ((idle w g n).0, refl);
    load_to_mem_lem = λ w g h.
        let n = no_work w.wasm_work h in
        set_wasm_work-Started load_job false w n ((idle w g n).0, refl);
    wakeup_lem = λ result w g h.
        let n = no_work w.wasm_work h in
        set_wasm_work-Started (wakeup_job result) false w n ((idle w g n).0, refl);
  }
