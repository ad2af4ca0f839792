-- ===== src/Wasm/Reach.antt =====
-- The runs of a runtime of modules/wasm.rs from the start of its operator.
use mathlib.Core.Logic.{◌⊎◌, inl, inr}
use wasm_operator.Base.{Bool, true, false, Option, none, some, List, ◌≡◌, refl, sym, ap}
use mathlib.Core.Path.{subst}
use wasm_operator.Base.Outcome
use wasm_operator.Base.Outcome.{
  Outcome, ok, failed, panicked, ◌>>=◌, Poll, ready, pending, is_ready, Returns, returns, errs,
  ok_injective,
}
use wasm_operator.Abi.Command.{AsyncResult}
use wasm_operator.Abi.{RequestCodec, ControllerCtx}
use wasm_operator.Runner.{PendingOp}
use wasm_operator.Wasm.Wasmtime.{Engine, IsEngine}
use wasm_operator.Wasm.{
  Snapshot, Store, MaybeInst, locked, not_inst, uns_inst, got_inst, Job, uninstantiate_job,
  start_job, wakeup_job, load_job, unpolled, WasmRuntime, new_runtime, Reply, set_wasm_work,
  uninstantiate, start_controller, wakeup, load_to_mem,
}
use wasm_operator.Wasm.Jobs.{poll_unpin}
use wasm_operator.Wasm.Machine.{IsSwapped, IsThere, is_out, GoodWork, Good}
use wasm_operator.Wasm.Serves.{idle, poll_unpin-IsPolled}

module _ {Inst Val Req : Type 0} (e : Engine Inst Val) (codec : RequestCodec Req) where
  -- A poll, or the start of a job.
  pub data Step (w w' : WasmRuntime Inst Val) : Type 0 where
    polls :
        (reply : Reply) (p : Poll (Unit {0})) (made : List (PendingOp Req))
        → poll_unpin e codec reply w ≡ ok (p, w', made)
        → Step w w'
    swaps_out : uninstantiate w ≡ ok w' → Step w w'
    loads : load_to_mem w ≡ ok w' → Step w w'
    wakes : (result : AsyncResult) → wakeup result w ≡ ok w' → Step w w'

  pub data Reachable : WasmRuntime Inst Val → Type 0 where
    starts :
        (ctx : ControllerCtx) {w : WasmRuntime Inst Val}
        → start_controller (new_runtime ctx) ≡ ok w
        → Reachable w
    steps : {w w' : WasmRuntime Inst Val} → Reachable w → Step w w' → Reachable w'

only_none :
    {A B : Type 0} (x : Option A) (r r' : B)
    → (elim x [ some a ↦ panicked | none ↦ ok r ]) ≡ ok r'
    → (x ≡ none) × (r ≡ r')
only_none none r r' h = (refl, cc)
only_none (some a) r r' h = cc

module _ {A : Type 0} {P : A → Type 0} where
  pub Returns-ok : {r : Outcome A} {b : A} → Returns P r → r ≡ ok b → P b
  Returns-ok (returns {a = a} p) eq = subst P (ok_injective eq) p
  Returns-ok errs eq = cc

module _ {Inst Val Req : Type 0} {e : Engine Inst Val} {codec : RequestCodec Req}
    {IsInst : Inst → Type 0} (laws : IsEngine e codec IsInst) where
  pub set_wasm_work-Good :
      (job : Job) (flag : Bool) (w w' : WasmRuntime Inst Val)
      → set_wasm_work job flag w ≡ ok w'
      → (w.wasm_work ≡ none
          → GoodWork e codec IsInst (some (unpolled job)) w.inner flag w.permits w.swap_file)
      → Good e codec IsInst w'
  unfolding set_wasm_work
  set_wasm_work-Good job flag w w' eq can =
      let (n, same) = only_none w.wasm_work _ w' eq in subst (Good e codec IsInst) same (can n)

  pub set_wasm_work-permits :
      (job : Job) (flag : Bool) (w w' : WasmRuntime Inst Val)
      → set_wasm_work job flag w ≡ ok w'
      → w'.permits ≡ w.permits
  unfolding set_wasm_work
  set_wasm_work-permits job flag w w' eq =
      ap (λ (v : WasmRuntime Inst Val). v.permits) (sym (only_none w.wasm_work _ w' eq).1)

  Step-Good :
      (w w' : WasmRuntime Inst Val)
      → Good e codec IsInst w
      → Step e codec w w'
      → Good e codec IsInst w'
  unfolding uninstantiate load_to_mem wakeup
  Step-Good w w' g (polls reply p made eq) =
      (Returns-ok (poll_unpin-IsPolled laws reply w g) eq).good
  Step-Good w w' g (swaps_out eq) =
      set_wasm_work-Good uninstantiate_job true w w' eq λ n. ((idle laws w g n).0, refl)
  Step-Good w w' g (loads eq) =
      set_wasm_work-Good load_job false w w' eq λ n. ((idle laws w g n).0, refl)
  Step-Good w w' g (wakes result eq) =
      set_wasm_work-Good (wakeup_job result) false w w' eq λ n. ((idle laws w g n).0, refl)

  Reachable-Good : {w : WasmRuntime Inst Val} → Reachable e codec w → Good e codec IsInst w
  unfolding start_controller new_runtime set_wasm_work
  Reachable-Good (starts ctx {w = w} eq) =
      set_wasm_work-Good start_job false (new_runtime ctx) w eq λ n. (tt, refl, refl)
  Reachable-Good (steps {w = w} {w' = w'} r s) = Step-Good w w' (Reachable-Good r) s

  -- In every state that a runtime reaches from the start of its operator on an engine that keeps
  -- its laws, for an operator whose calls of the host hand over slices of its memory with requests
  -- whose URIs have a path: if the runtime has no job, then either it holds an instance and one
  -- permit of the pool, and is not marked as swapped out; or it holds no permit, is marked, and holds
  -- the snapshot of an instance of the module whose whole memory is the swap file.
  pub Reachable-permits :
      (w : WasmRuntime Inst Val)
      → Reachable e codec w
      → w.wasm_work ≡ none
      → ((store : Store Inst) × (w.inner ≡ got_inst store)
          × IsInst store.inst
          × (w.permits ≡ 1)
          × (w.uninstantiating ≡ false))
        ⊎ ((ctx : ControllerCtx) × (snapshot : Snapshot Val) × (w.inner ≡ uns_inst ctx snapshot)
            × IsSwapped e codec IsInst snapshot w.swap_file
            × (w.permits ≡ 0)
            × (w.uninstantiating ≡ true))
  Reachable-permits w r n =
      let (there, flag) = idle laws w (Reachable-Good r) n in placed w.inner refl there flag
    where
      placed :
          (inner : MaybeInst Inst Val)
          → w.inner ≡ inner
          → IsThere e codec IsInst inner w.permits w.swap_file
          → w.uninstantiating ≡ is_out e codec IsInst inner
          → ((store : Store Inst) × (w.inner ≡ got_inst store)
              × IsInst store.inst
              × (w.permits ≡ 1)
              × (w.uninstantiating ≡ false))
            ⊎ ((ctx : ControllerCtx) × (snapshot : Snapshot Val) × (w.inner ≡ uns_inst ctx snapshot)
                × IsSwapped e codec IsInst snapshot w.swap_file
                × (w.permits ≡ 0)
                × (w.uninstantiating ≡ true))
      placed (got_inst store) eq (is, p) f = inl (store, eq, is, p, f)
      placed (uns_inst ctx snapshot) eq (is, p) f = inr (ctx, snapshot, eq, is, p, f)
      placed locked eq h f = elim h [ ]
      placed (not_inst ctx) eq h f = elim h [ ]
