-- ===== src/Wasm.antt =====
-- pkg/controller/src/modules/wasm.rs: the WebAssembly instance of one operator, in memory or
-- swapped out to disk. The engine (the `wasmtime` crate) is a parameter, `Engine`; at each poll the
-- environment says whether the pool has a permit left and the file system works.
pub mod Interface
pub mod Globals
pub mod Wasmtime
pub mod Pages
pub mod Jobs
pub mod Restore
pub mod Machine
pub mod Admitted
pub mod Polls
pub mod Serves
pub mod Permits
pub mod Balances
pub mod Held
pub mod Reach
mod Tests
pub mod Example
use Prim.Native.String.{String}
use wasm_operator.Base.{
  ℕ, ◌+◌, ◌/◌, ◌%◌, Bool, true, false, Option, none, some, List, ltb, if◌then◌else◌,
}
use wasm_operator.Base.Outcome.{Outcome, ok, panicked}
use wasm_operator.Abi.Command.{Bytes, AsyncResult}
use wasm_operator.Abi.{ControllerCtx}

abbrev pub wasm_page_size : ℕ
wasm_page_size = 0x10000

pub record Snapshot (Val : Type 0) : Type 0 where
  pub globals : List (String × Val)
  pub memory_min : ℕ

-- `Store<ControllerCtx>`, with the instance that lives in it.
pub record Store (Inst : Type 0) : Type 0 where
  pub context : ControllerCtx
  pub inst : Inst

-- The permit of `GotInst` is counted in the runtime's field `permits`.
pub data MaybeInst (Inst Val : Type 0) : Type 0 where
  locked : MaybeInst Inst Val
  not_inst : ControllerCtx → MaybeInst Inst Val
  uns_inst : ControllerCtx → Snapshot Val → MaybeInst Inst Val
  got_inst : Store Inst → MaybeInst Inst Val

-- `take_not`, `take_uns` and `take_got`: what is taken, and what is left in its place.
module _ {Inst Val : Type 0} where
  unfoldable pub take : MaybeInst Inst Val → MaybeInst Inst Val × MaybeInst Inst Val
  take self = (self, locked)

  unfoldable pub take_not : MaybeInst Inst Val → MaybeInst Inst Val × MaybeInst Inst Val
  unfolding take
  take_not (not_inst ctx) = take (not_inst ctx)
  take_not self = (locked, self)

  unfoldable pub take_uns : MaybeInst Inst Val → MaybeInst Inst Val × MaybeInst Inst Val
  unfolding take
  take_uns (uns_inst ctx snapshot) = take (uns_inst ctx snapshot)
  take_uns self = (locked, self)

  unfoldable pub take_got : MaybeInst Inst Val → MaybeInst Inst Val × MaybeInst Inst Val
  unfolding take
  take_got (got_inst store) = take (got_inst store)
  take_got self = (locked, self)

-- The futures that `wasm_work` holds.
pub data Job : Type 0 where
  uninstantiate_job : Job
  start_job : Job
  wakeup_job : AsyncResult → Job
  load_job : Job

-- A future that has not been polled; one that waits for a permit and has taken the context, and the
-- snapshot if there is one, out of `inner`; or one that has taken the instance out of `inner`, with
-- its permit, and waits for the write of its memory to the swap file.
pub data Work (Inst Val : Type 0) : Type 0 where
  unpolled : Job → Work Inst Val
  acquiring : Job → ControllerCtx → Option (Snapshot Val) → Work Inst Val
  writing : Store Inst → Bytes → Work Inst Val

-- `WasmRuntime`. `permits` counts the permits of the pool that it holds, and `swap_file` is what
-- the file at `swap_path` contains.
pub record WasmRuntime (Inst Val : Type 0) : Type 0 where
  pub inner : MaybeInst Inst Val
  pub wasm_work : Option (Work Inst Val)
  pub uninstantiating : Bool
  pub permits : ℕ
  pub swap_file : Option Bytes

unfoldable pub new_runtime : {Inst Val : Type 0} → ControllerCtx → WasmRuntime Inst Val
new_runtime ctx = record {
  inner = not_inst ctx;
  wasm_work = none;
  uninstantiating = true;
  permits = 0;
  swap_file = none;
}

-- What the environment does at one poll: the pool's semaphore, the engine, the file system.
pub data Permit : Type 0 where
  granted waits closed : Permit

-- A poll of `tokio::fs::write`.
pub data Write : Type 0 where
  writes written refused : Write

pub record Reply : Type 0 where
  pub permit : Permit
  pub instantiates : Bool
  pub write : Write
  pub open_ok : Bool

module _ {Inst Val : Type 0} where
  -- `assert!(self.wasm_work.is_none())`, then the job, and the flag that each caller sets.
  unfoldable pub set_wasm_work : Job → Bool → WasmRuntime Inst Val → Outcome (WasmRuntime Inst Val)
  set_wasm_work job flag w = elim (w.wasm_work) [
    | some work ↦ panicked
    | none ↦ ok (record w { wasm_work = some (unpolled job); uninstantiating = flag })
  ]

  unfoldable pub uninstantiate : WasmRuntime Inst Val → Outcome (WasmRuntime Inst Val)
  unfolding set_wasm_work
  uninstantiate w = set_wasm_work uninstantiate_job true w

  unfoldable pub start_controller : WasmRuntime Inst Val → Outcome (WasmRuntime Inst Val)
  unfolding set_wasm_work
  start_controller w = set_wasm_work start_job false w

  unfoldable pub wakeup : AsyncResult → WasmRuntime Inst Val → Outcome (WasmRuntime Inst Val)
  unfolding set_wasm_work
  wakeup result w = set_wasm_work (wakeup_job result) false w

  unfoldable pub load_to_mem : WasmRuntime Inst Val → Outcome (WasmRuntime Inst Val)
  unfolding set_wasm_work
  load_to_mem w = set_wasm_work load_job false w

-- The number of pages that a fresh memory is grown by.
unfoldable pub n_pages : ℕ → ℕ
n_pages memory_diff =
    let n = memory_diff / wasm_page_size in
    if ltb 0 (memory_diff % wasm_page_size) then n + 1 else n
