-- ===== src/Runtime/Pool.antt =====
-- The modules of runtime/mod.rs that run side by side, and the semaphore of `POOL_SIZE` permits that
-- their instances share. The tasks take turns; a turn is one poll, or one request for a job. Which
-- task is next, and what the environment replies, is free: but the semaphore grants a permit only
-- if it has one.
pub mod Conserved
pub mod Frees
mod Tests
use wasm_operator.Base.{
  ℕ, ◌+◌, ◌-◌, ◌%◌, ◌<◌, Bool, true, false, Option, none, some, List, [], ◌∷◌, ◌++◌, ◌≡◌, get_elem?,
  set, erase_idx,
}
use wasm_operator.Base.Outcome.{Outcome, ok, failed, panicked, out_of_fuel, Poll}
use wasm_operator.Abi.Command.{Bytes, AsyncResult}
use wasm_operator.Abi.{RequestCodec, new_ctx}
use wasm_operator.Runner.{PendingOp, u64_mod}
use wasm_operator.Runtime.{pool_size}
use wasm_operator.Wasm.Wasmtime.{Engine}
use wasm_operator.Wasm.{
  WasmRuntime, new_runtime, Permit, granted, Reply, start_controller, uninstantiate, wakeup,
  load_to_mem,
}
use wasm_operator.Wasm.Jobs.{Polled, poll_unpin}
use wasm_operator.Wasm.Permits.{acquired, released}

-- A task that `tokio::spawn` runs: its number says which compiled module it runs.
pub record Task (Inst Val : Type 0) : Type 0 where
  pub compiled : ℕ
  pub runtime : WasmRuntime Inst Val

pub record Pool (Inst Val : Type 0) : Type 0 where
  pub available : ℕ
  pub tasks : List (Task Inst Val)
  pub async_client_id_counter : ℕ

unfoldable pub new_pool : {Inst Val : Type 0} → Bool → Pool Inst Val
unfolding pool_size
new_pool compile_with_uninstantiate = record {
  available = pool_size compile_with_uninstantiate;
  tasks = [];
  async_client_id_counter = 0;
}

-- What the event loop asks of its runtime.
pub data Request : Type 0 where
  swaps_out loads : Request
  wakes : AsyncResult → Request

module _ {Inst Val : Type 0} where
  unfoldable pub ask : Request → WasmRuntime Inst Val → Outcome (WasmRuntime Inst Val)
  ask swaps_out w = uninstantiate w
  ask loads w = load_to_mem w
  ask (wakes result) w = wakeup result w

  -- The task ends, with a result, an error or a panic: its runtime is dropped, and with it the
  -- permits that the runtime holds.
  unfoldable pub drop_task : ℕ → Task Inst Val → Pool Inst Val → Pool Inst Val
  drop_task i t s = record s {
    available = s.available + t.runtime.permits;
    tasks = erase_idx s.tasks i;
  }

  unfoldable pub add_task : ℕ → Outcome (WasmRuntime Inst Val) → Pool Inst Val → Pool Inst Val
  add_task compiled (ok w) s = record s {
    tasks = s.tasks ++ record { compiled = compiled; runtime = w } ∷ [];
    async_client_id_counter = (s.async_client_id_counter + 1) % u64_mod;
  }
  add_task compiled failed s = s
  add_task compiled panicked s = s
  add_task compiled out_of_fuel s = s

  -- `StartModule` of a module that has been compiled: the next identifier, and a task that starts
  -- the operator.
  unfoldable pub start_module : ℕ → Pool Inst Val → Pool Inst Val
  unfolding add_task
  start_module compiled s =
      add_task compiled (start_controller (new_runtime (new_ctx s.async_client_id_counter))) s

  unfoldable pub after_request :
      ℕ → Task Inst Val → Outcome (WasmRuntime Inst Val) → Pool Inst Val → Pool Inst Val
  unfolding drop_task
  after_request i t (ok w) s = record s { tasks = set s.tasks i (record t { runtime = w }) }
  after_request i t failed s = drop_task i t s
  after_request i t panicked s = drop_task i t s
  after_request i t out_of_fuel s = drop_task i t s

module _ {Inst Val Req : Type 0} (engine : ℕ → Engine Inst Val) (codec : RequestCodec Req) where
  -- The semaphore after a poll. A task that fails gives back what it held, and what it has just
  -- acquired.
  unfoldable pub after_poll :
      (i : ℕ) (t : Task Inst Val)
      → Reply
      → Outcome (Polled (engine t.compiled) codec)
      → Pool Inst Val
      → Pool Inst Val
  unfolding drop_task
  after_poll i t reply (ok (p, w, made)) s = record s {
    available = s.available - acquired reply t.runtime + released reply t.runtime w;
    tasks = set s.tasks i (record t { runtime = w });
  }
  after_poll i t reply failed s = drop_task i t s
  after_poll i t reply panicked s = drop_task i t s
  after_poll i t reply out_of_fuel s = drop_task i t s

  unfoldable pub poll_task : ℕ → Task Inst Val → Reply → Pool Inst Val → Pool Inst Val
  unfolding after_poll
  poll_task i t reply s =
      after_poll i t reply (poll_unpin (engine t.compiled) codec reply t.runtime) s

  pub data Step (s : Pool Inst Val) : Pool Inst Val → Type 0 where
    starts : (compiled : ℕ) → Step s (start_module compiled s)
    polls :
        (i : ℕ) (t : Task Inst Val) (reply : Reply)
        → get_elem? s.tasks i ≡ some t
        → (reply.permit ≡ granted → 0 < s.available)
        → Step s (poll_task i t reply s)
    requests :
        (i : ℕ) (t : Task Inst Val) (request : Request)
        → get_elem? s.tasks i ≡ some t
        → Step s (after_request i t (ask request t.runtime) s)
    ends : (i : ℕ) (t : Task Inst Val) → get_elem? s.tasks i ≡ some t → Step s (drop_task i t s)

  pub data Reachable (compile_with_uninstantiate : Bool) : Pool Inst Val → Type 0 where
    initial : Reachable compile_with_uninstantiate (new_pool compile_with_uninstantiate)
    steps :
        {s s' : Pool Inst Val}
        → Reachable compile_with_uninstantiate s
        → Step s s'
        → Reachable compile_with_uninstantiate s'
