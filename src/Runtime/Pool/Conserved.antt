-- ===== src/Runtime/Pool/Conserved.antt =====
-- The permits of the pool of runtime/mod.rs: none is lost, and none is made.
use wasm_operator.Base.{
  ℕ, ◌+◌, ◌≤◌, Bool, true, false, none, some, [], ◌∷◌, ◌≡◌, refl, arith, get_elem?, sum_of,
  sum_of-set, sum_of-append, sum_of-erase_idx, sum_of-count, All, All-get_elem?, All-set,
  All-erase_idx, All-append, All-mono, count, if◌then◌else◌,
}
use wasm_operator.Base.Outcome
use wasm_operator.Base.Outcome.{
  Outcome, ok, failed, panicked, out_of_fuel, Poll, Returns, returns, errs, IfOk, IfOk-result,
}
use wasm_operator.Abi.{RequestCodec, new_ctx}
use wasm_operator.Runtime.{pool_size}
use wasm_operator.Wasm.Wasmtime.{Engine, IsEngine}
use wasm_operator.Wasm.{
  not_inst, Job, uninstantiate_job, start_job, wakeup_job, load_job, unpolled, WasmRuntime, Reply,
  set_wasm_work, start_controller, new_runtime, uninstantiate, wakeup, load_to_mem,
}
use wasm_operator.Wasm.Jobs.{Polled, poll_unpin}
use wasm_operator.Wasm.Machine.{GoodWork, Good}
use wasm_operator.Wasm.Held.{has_instance, GoodWork-permits, acquired-available}
use wasm_operator.Wasm.Reach.{Returns-ok, set_wasm_work-Good, set_wasm_work-permits}
use wasm_operator.Wasm.Serves.{idle, poll_unpin-IsPolled}
use wasm_operator.Wasm.Balances.{Holds, poll_unpin-Holds}
use wasm_operator.Wasm.Permits.{acquired, released}
use wasm_operator.Runtime.Pool.{
  Task, Pool, new_pool, drop_task, add_task, start_module, after_request, after_poll, poll_task,
  Request, swaps_out, loads, wakes, ask, Step, starts, polls, requests, ends, Reachable, initial,
  steps,
}

module _ {Inst Val : Type 0} where
  abbrev pub in_memory : Task Inst Val → Bool
  in_memory t = has_instance t.runtime.wasm_work t.runtime.inner

  abbrev pub held : Task Inst Val → ℕ
  held t = t.runtime.permits

module _ {Inst Val Req : Type 0} (engine : ℕ → Engine Inst Val) (codec : RequestCodec Req)
    (IsInst : Inst → Type 0) (laws : (k : ℕ) → IsEngine (engine k) codec IsInst) where
  abbrev pub GoodTask : Task Inst Val → Type 0
  GoodTask t = Good (engine t.compiled) codec IsInst t.runtime

  pub record IsConserved (n : ℕ) (s : Pool Inst Val) : Type 0 where
    pub good : All GoodTask s.tasks
    pub sum : s.available + sum_of held s.tasks ≡ n

  GoodTask-permits :
      (t : Task Inst Val) → GoodTask t → t.runtime.permits ≡ (if in_memory t then 1 else 0)
  GoodTask-permits t g =
      let w = t.runtime in
      GoodWork-permits (engine t.compiled) codec IsInst w.wasm_work w.inner w.uninstantiating
        w.permits w.swap_file g

  drop_task-IsConserved :
      (n i : ℕ) (t : Task Inst Val) (s : Pool Inst Val)
      → get_elem? s.tasks i ≡ some t
      → IsConserved n s
      → IsConserved n (drop_task i t s)
  unfolding drop_task
  drop_task-IsConserved n i t s at c = record {
    good = All-erase_idx GoodTask s.tasks i c.good;
    sum = (let e = sum_of-erase_idx held s.tasks i at in omega (arith, e, c.sum));
  }

  after_poll-IsConserved :
      (n i : ℕ) (t : Task Inst Val) (reply : Reply) (r : Outcome (Polled (engine t.compiled) codec))
      (s : Pool Inst Val)
      → get_elem? s.tasks i ≡ some t
      → acquired reply t.runtime ≤ s.available
      → Returns (λ x. GoodTask (record t { runtime = x.1 })) r
      → Holds (engine t.compiled) codec (t.runtime.permits + acquired reply t.runtime) r
      → IsConserved n s
      → IsConserved n (after_poll engine codec i t reply r s)
  unfolding after_poll released
  after_poll-IsConserved n i t reply (ok (p, w, made)) s at enough returned balanced c =
      let e = sum_of-set held s.tasks i (record t { runtime = w }) at in
      record {
        good = All-set GoodTask s.tasks i c.good (Returns-ok returned refl);
        sum = omega (arith, e, c.sum, balanced, enough);
      }
  after_poll-IsConserved n i t reply failed s at enough returned balanced c =
      drop_task-IsConserved n i t s at c
  after_poll-IsConserved n i t reply panicked s at enough returned balanced c =
      drop_task-IsConserved n i t s at c
  after_poll-IsConserved n i t reply out_of_fuel s at enough returned balanced c =
      drop_task-IsConserved n i t s at c

  after_request-IsConserved :
      (n i : ℕ) (t : Task Inst Val) (r : Outcome (WasmRuntime Inst Val)) (s : Pool Inst Val)
      → get_elem? s.tasks i ≡ some t
      → IfOk (λ w. GoodTask (record t { runtime = w }) × (w.permits ≡ t.runtime.permits)) r
      → IsConserved n s
      → IsConserved n (after_request i t r s)
  unfolding after_request
  after_request-IsConserved n i t (ok w) s at (g, same) c =
      let e = sum_of-set held s.tasks i (record t { runtime = w }) at in
      record { good = All-set GoodTask s.tasks i c.good g; sum = omega (arith, e, c.sum, same) }
  after_request-IsConserved n i t failed s at h c = drop_task-IsConserved n i t s at c
  after_request-IsConserved n i t panicked s at h c = drop_task-IsConserved n i t s at c
  after_request-IsConserved n i t out_of_fuel s at h c = drop_task-IsConserved n i t s at c

  set_wasm_work-IfOk :
      (job : Job) (flag : Bool) (t : Task Inst Val)
      → (t.runtime.wasm_work ≡ none
          → GoodWork
              (engine t.compiled)
              codec
              IsInst
              (some (unpolled job))
              t.runtime.inner
              flag
              t.runtime.permits
              t.runtime.swap_file)
      → IfOk
          (λ w. GoodTask (record t { runtime = w }) × (w.permits ≡ t.runtime.permits))
          (set_wasm_work job flag t.runtime)
  set_wasm_work-IfOk job flag t can = IfOk-result _ (set_wasm_work job flag t.runtime) λ w eq. (
    set_wasm_work-Good (laws t.compiled) job flag t.runtime w eq can,
    set_wasm_work-permits (laws t.compiled) job flag t.runtime w eq,
  )

  ask-IfOk :
      (request : Request) (t : Task Inst Val)
      → GoodTask t
      → IfOk
          (λ w. GoodTask (record t { runtime = w }) × (w.permits ≡ t.runtime.permits))
          (ask request t.runtime)
  unfolding ask uninstantiate load_to_mem wakeup
  ask-IfOk swaps_out t g =
      set_wasm_work-IfOk uninstantiate_job true t
        λ n. ((idle (laws t.compiled) t.runtime g n).0, refl)
  ask-IfOk loads t g =
      set_wasm_work-IfOk load_job false t λ n. ((idle (laws t.compiled) t.runtime g n).0, refl)
  ask-IfOk (wakes result) t g =
      set_wasm_work-IfOk (wakeup_job result) false t
        λ n. ((idle (laws t.compiled) t.runtime g n).0, refl)

  -- The task that `start_module` adds.
  abbrev new_task : ℕ → ℕ → Task Inst Val
  new_task compiled async_client_id = record {
    compiled = compiled;
    runtime = record {
      inner = not_inst (new_ctx async_client_id);
      wasm_work = some (unpolled start_job);
      uninstantiating = false;
      permits = 0;
      swap_file = none;
    };
  }

  start_module-IsConserved :
      (n compiled : ℕ) (s : Pool Inst Val)
      → IsConserved n s
      → IsConserved n (start_module compiled s)
  unfolding start_module add_task start_controller new_runtime set_wasm_work
  start_module-IsConserved n compiled s c =
      let t = new_task compiled s.async_client_id_counter in
      record {
        good = All-append GoodTask s.tasks (t ∷ []) c.good ((tt, refl, refl), tt);
        sum = (let e = sum_of-append held s.tasks (t ∷ []) in omega (arith, e, c.sum));
      }

  Step-IsConserved :
      (n : ℕ) (s s' : Pool Inst Val) → IsConserved n s → Step engine codec s s' → IsConserved n s'
  unfolding poll_task
  Step-IsConserved n s s' c (starts compiled) = start_module-IsConserved n compiled s c
  Step-IsConserved n s s' c (ends i t at) = drop_task-IsConserved n i t s at c
  Step-IsConserved n s s' c (requests i t request at) =
      after_request-IsConserved n i t (ask request t.runtime) s at
        (ask-IfOk request t (All-get_elem? GoodTask s.tasks i c.good at)) c
  Step-IsConserved n s s' c (polls i t reply at may) =
      let g = All-get_elem? GoodTask s.tasks i c.good at in
      after_poll-IsConserved n i t reply (poll_unpin (engine t.compiled) codec reply t.runtime) s at
        (acquired-available reply t.runtime s.available may)
        (Outcome.mono (poll_unpin-IsPolled (laws t.compiled) reply t.runtime g) λ x p. p.good)
        (poll_unpin-Holds (engine t.compiled) codec reply t.runtime) c

  pub Reachable-IsConserved :
      (compile_with_uninstantiate : Bool) {s : Pool Inst Val}
      → Reachable engine codec compile_with_uninstantiate s
      → IsConserved (pool_size compile_with_uninstantiate) s
  unfolding new_pool
  Reachable-IsConserved c initial = record { good = tt; sum = omega arith }
  Reachable-IsConserved c (steps {s = s} {s' = s'} r step) =
      Step-IsConserved (pool_size c) s s' (Reachable-IsConserved c r) step

  -- In every state of the tasks that share the pool, on engines that keep their laws, for operators
  -- whose calls of the host hand over slices of their memory with requests whose URIs have a path,
  -- the permits that the semaphore has left and the instances that are in memory (those that are
  -- being written to disk among them) add up to the size of the pool.
  pub Reachable-conserved :
      (compile_with_uninstantiate : Bool) (s : Pool Inst Val)
      → Reachable engine codec compile_with_uninstantiate s
      → s.available + count in_memory s.tasks ≡ pool_size compile_with_uninstantiate
  Reachable-conserved c s r =
      let inv = Reachable-IsConserved c r in
      let same =
        sum_of-count held in_memory s.tasks
          (All-mono GoodTask _ s.tasks GoodTask-permits inv.good) in
      omega (arith, inv.sum, same)
