-- ===== src/Runtime/Pool/Frees.antt =====
-- A module of runtime/mod.rs that is swapped out gives its permit to the others.
use wasm_operator.Base.{
  length, ℕ, ◌+◌, ◌-◌, Bool, true, false, Option, none, some, List, [], ◌∷◌, All, ◌≡◌, refl, sym,
  ◌∙◌, arith, get_elem?, get_elem?-set, All-get_elem?,
}
use wasm_operator.Base.Outcome.{ok, ready, pending}
use wasm_operator.Abi.Command.{Bytes}
use wasm_operator.Abi.{RequestCodec}
use wasm_operator.Wasm.Wasmtime.{Engine, IsEngine}
use wasm_operator.Wasm.{
  Store, MaybeInst, locked, not_inst, uns_inst, got_inst, take_got, take, uninstantiate_job,
  unpolled, writing, WasmRuntime, writes, written, Reply, set_wasm_work, uninstantiate,
}
use mathlib.Core.Path.{subst}
use wasm_operator.Wasm.Globals.{var_globals}
use wasm_operator.Wasm.Jobs.{poll_unpin, poll_job, swap_out, write_out}
use wasm_operator.Wasm.Machine.{IsThere, is_out}
use wasm_operator.Wasm.Serves.{idle}
use wasm_operator.Wasm.Permits.{acquired, released, acquired_by}
use wasm_operator.Runtime.Pool.{
  Task, Pool, swaps_out, ask, after_request, after_poll, poll_task, Reachable,
}
use wasm_operator.Runtime.Pool.Conserved.{Reachable-IsConserved, GoodTask}

module _ {Inst Val Req : Type 0} (engine : ℕ → Engine Inst Val) (codec : RequestCodec Req) where
  -- A poll of the task at this place, and one for each of these replies.
  abbrev poll_found : ℕ → Reply → Pool Inst Val → Option (Task Inst Val) → Pool Inst Val
  poll_found i reply s none = s
  poll_found i reply s (some t) = poll_task engine codec i t reply s

  abbrev pub poll_at : ℕ → Reply → Pool Inst Val → Pool Inst Val
  poll_at i reply s = poll_found i reply s (get_elem? s.tasks i)

  abbrev pub poll_each : ℕ → List Reply → Pool Inst Val → Pool Inst Val
  poll_each i [] s = s
  poll_each i (reply ∷ replies) s = poll_each i replies (poll_at i reply s)

module _ {Inst Val Req : Type 0} (e : Engine Inst Val) (codec : RequestCodec Req) where
  -- A runtime that has been asked to swap out its instance, before and during the write.
  data IsLeaving (w : WasmRuntime Inst Val) : Type 0 where
    asked :
        (store : Store Inst) (mem : Bytes)
        → w.wasm_work ≡ some (unpolled uninstantiate_job)
        → w.inner ≡ got_inst store
        → e.memory store.inst ≡ some mem
        → w.permits ≡ 1
        → IsLeaving w
    is_writing :
        (store : Store Inst) (mem : Bytes)
        → w.wasm_work ≡ some (writing store mem)
        → w.permits ≡ 1
        → IsLeaving w

  leaving-permits : (w : WasmRuntime Inst Val) → IsLeaving w → w.permits ≡ 1
  leaving-permits w (asked store mem job inner m p) = p
  leaving-permits w (is_writing store mem job p) = p

  leaving-acquired : (reply : Reply) (w : WasmRuntime Inst Val) → IsLeaving w → acquired reply w ≡ 0
  unfolding acquired acquired_by
  leaving-acquired reply w (asked store mem job inner m p) = rw job refl
  leaving-acquired reply w (is_writing store mem job p) = rw job refl

  -- The write goes on.
  leaving-writes :
      (reply : Reply) (w : WasmRuntime Inst Val)
      → IsLeaving w
      → reply.write ≡ writes
      → (w' : WasmRuntime Inst Val) × (poll_unpin e codec reply w ≡ ok (pending, w', []))
        × IsLeaving w'
  unfolding poll_unpin poll_job take_got take swap_out write_out
  leaving-writes reply w (asked store mem job inner m p) y = (
    record w { inner = locked; wasm_work = some (writing store mem) },
    rw (job, inner, m, y) refl,
    is_writing store mem refl p,
  )
  leaving-writes reply w (is_writing store mem job p) y = (
    record w { wasm_work = some (writing store mem) },
    rw (job, y) refl,
    is_writing store mem refl p,
  )

  abbrev out : Store Inst → Bytes → WasmRuntime Inst Val → WasmRuntime Inst Val
  out store mem w = record w {
    inner =
        uns_inst store.context
          (record { globals = var_globals (e.globals store.inst); memory_min = length mem });
    wasm_work = none;
    permits = w.permits - 1;
    swap_file = some mem;
  }

  -- The write is over.
  leaving-written :
      (reply : Reply) (w : WasmRuntime Inst Val)
      → IsLeaving w
      → reply.write ≡ written
      → (w' : WasmRuntime Inst Val) × (poll_unpin e codec reply w ≡ ok (ready tt, w', []))
        × (w'.permits ≡ 0)
  unfolding poll_unpin poll_job take_got take swap_out write_out
  leaving-written reply w (asked store mem job inner m p) y =
      (out store mem (record w { inner = locked }), rw (job, inner, m, y) refl, omega (arith, p))
  leaving-written reply w (is_writing store mem job p) y =
      (out store mem w, rw (job, y) refl, omega (arith, p))

module _ {Inst Val Req : Type 0} (engine : ℕ → Engine Inst Val) (codec : RequestCodec Req)
    (IsInst : Inst → Type 0) (laws : (k : ℕ) → IsEngine (engine k) codec IsInst) where
  record HasLeaving (i available : ℕ) (s : Pool Inst Val) : Type 0 where
    t : Task Inst Val
    at : get_elem? s.tasks i ≡ some t
    leaving : IsLeaving (engine t.compiled) codec t.runtime
    same : s.available ≡ available

  poll_at-writes :
      (i available : ℕ) (reply : Reply) (s : Pool Inst Val)
      → HasLeaving i available s
      → reply.write ≡ writes
      → HasLeaving i available (poll_at engine codec i reply s)
  unfolding poll_task after_poll released
  poll_at-writes i available reply s h y =
      let e = engine h.t.compiled in
      let w = h.t.runtime in
      let (w', polled, l) = leaving-writes e codec reply w h.leaving y in
      let taken = leaving-acquired e codec reply w h.leaving in
      let before = leaving-permits e codec w h.leaving in
      let behind = leaving-permits e codec w' l in
      let t' : Task Inst Val = record { compiled = h.t.compiled; runtime = w' } in
      subst (λ x. HasLeaving i available (poll_found engine codec i reply s x)) (sym h.at)
        (subst (λ r. HasLeaving i available (after_poll engine codec i h.t reply r s)) (sym polled)
          (record {
            t = t';
            at = get_elem?-set s.tasks i t' h.at;
            leaving = l;
            same = omega (arith, taken, before, behind, h.same);
          }))

  poll_each-writes :
      (i available : ℕ) (replies : List Reply) (s : Pool Inst Val)
      → HasLeaving i available s
      → All (λ (reply : Reply). reply.write ≡ writes) replies
      → HasLeaving i available (poll_each engine codec i replies s)
  poll_each-writes i available [] s h all = h
  poll_each-writes i available (reply ∷ replies) s h (y, all) =
      poll_each-writes i available replies (poll_at engine codec i reply s)
        (poll_at-writes i available reply s h y) all

  poll_at-written :
      (i available : ℕ) (reply : Reply) (s : Pool Inst Val)
      → HasLeaving i available s
      → reply.write ≡ written
      → (poll_at engine codec i reply s).available ≡ available + 1
  unfolding poll_task after_poll released
  poll_at-written i available reply s h y =
      let e = engine h.t.compiled in
      let w = h.t.runtime in
      let (w', polled, behind) = leaving-written e codec reply w h.leaving y in
      let taken = leaving-acquired e codec reply w h.leaving in
      let before = leaving-permits e codec w h.leaving in
      subst (λ x. (poll_found engine codec i reply s x).available ≡ available + 1) (sym h.at)
        (subst (λ r. (after_poll engine codec i h.t reply r s).available ≡ available + 1)
          (sym polled) (omega (arith, taken, before, behind, h.same)))

  asked-IsLeaving :
      (e : Engine Inst Val) (inner : MaybeInst Inst Val) (w : WasmRuntime Inst Val)
      → IsEngine e codec IsInst
      → IsThere e codec IsInst inner w.permits w.swap_file
      → is_out e codec IsInst inner ≡ false
      → IsLeaving e codec (record w {
        inner = inner;
        wasm_work = some (unpolled uninstantiate_job);
        uninstantiating = true;
      })
  asked-IsLeaving e (got_inst store) w law (is, p) out =
      let (m, mem, _, _) = law.memory_lem store.inst is in asked store m refl refl mem p
  asked-IsLeaving e (uns_inst ctx snapshot) w law h out = cc
  asked-IsLeaving e locked w law h out = elim h [ ]
  asked-IsLeaving e (not_inst ctx) w law h out = elim h [ ]

  after_request-HasLeaving :
      (i : ℕ) (t : Task Inst Val) (s : Pool Inst Val)
      → get_elem? s.tasks i ≡ some t
      → GoodTask engine codec IsInst laws t
      → t.runtime.wasm_work ≡ none
      → t.runtime.uninstantiating ≡ false
      → HasLeaving i s.available (after_request i t (ask swaps_out t.runtime) s)
  unfolding after_request ask uninstantiate set_wasm_work
  after_request-HasLeaving i t s at g n f =
      let (there, flag) = idle (laws t.compiled) t.runtime g n in
      rw n (record {
        t = record t {
          runtime = record (t.runtime) {
            wasm_work = some (unpolled uninstantiate_job);
            uninstantiating = true;
          };
        };
        at = get_elem?-set s.tasks i _ at;
        leaving =
            asked-IsLeaving (engine t.compiled) t.runtime.inner t.runtime (laws t.compiled) there
              (sym flag ∙ f);
        same = refl;
      })

  -- In every state of the tasks that share the pool, on engines that keep their laws, for operators
  -- whose calls of the host hand over slices of their memory with requests whose URIs have a path: if
  -- the instance of a task is in memory and has no job, then behind the request to swap it out, any
  -- number of polls of this task during which the write of its memory goes on leave the semaphore as
  -- it was, and the poll that finds the write done leaves one permit more to the others.
  pub swap_out-frees :
      (compile_with_uninstantiate : Bool) (i : ℕ) (t : Task Inst Val) (replies : List Reply)
      (reply : Reply) (s : Pool Inst Val)
      → Reachable engine codec compile_with_uninstantiate s
      → get_elem? s.tasks i ≡ some t
      → t.runtime.wasm_work ≡ none
      → t.runtime.uninstantiating ≡ false
      → All (λ (r : Reply). r.write ≡ writes) replies
      → reply.write ≡ written
      → let s' = poll_each engine codec i replies (after_request i t (ask swaps_out t.runtime) s) in
        (s'.available ≡ s.available)
        × ((poll_at engine codec i reply s').available ≡ s.available + 1)
  swap_out-frees c i t replies reply s r at n f during y =
      let inv = Reachable-IsConserved engine codec IsInst laws c r in
      let g = All-get_elem? (GoodTask engine codec IsInst laws) s.tasks i inv.good at in
      let h =
        poll_each-writes i s.available replies (after_request i t (ask swaps_out t.runtime) s)
          (after_request-HasLeaving i t s at g n f) during in
      (h.same, poll_at-written i s.available reply _ h y)
