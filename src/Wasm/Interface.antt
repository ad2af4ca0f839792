-- ===== src/Wasm/Interface.antt =====
-- The operations of `WasmRuntime` (wasm.rs) that the event loop of module.rs calls, and what it
-- relies on. `W` is the runtime's state and `R` what its environment answers at one poll.
use wasm_operator.Base.{List, not, Bool, true, false, ◌≡◌}
use wasm_operator.Base.Outcome.{Outcome, ok, Poll, is_ready, Returns}
use wasm_operator.Abi.Command.{AsyncResult}
use wasm_operator.Runner.{PendingOp}

pub record WasmOps (W R Req : Type 0) : Type 0 where
  -- The list holds the requests that the operator has made meanwhile.
  pub poll_unpin : R → W → Outcome (Poll (Unit {0}) × W × List (PendingOp Req))
  pub is_uninstantiating : W → Bool
  pub uninstantiate : W → Outcome W
  pub load_to_mem : W → Outcome W
  pub wakeup : AsyncResult → W → Outcome W

-- A job has been started, on a state that was good and had none.
pub data Started {W : Type 0} (Good : W → Type 0) (busy uninstantiating : W → Bool) (swapped : Bool)
    : Outcome W → Type 0 where
  started :
      {w : W}
      → Good w
      → busy w ≡ true
      → uninstantiating w ≡ swapped
      → Started Good busy uninstantiating swapped (ok w)

-- `Good` is the runtime's invariant, and `busy` says that it has a job (`wasm_work`) to do.
pub record IsWasm {W R Req : Type 0} (o : WasmOps W R Req) (Good : W → Type 0) (busy : W → Bool)
    : Type 0 where
  pub poll_lem :
      (reply : R) (w : W)
      → Good w
      → Returns
          (λ (p, w', made).
            Good w'
            × (busy w' ≡ not (is_ready p))
            × (o.is_uninstantiating w' ≡ o.is_uninstantiating w))
          (o.poll_unpin reply w)
  pub uninstantiate_lem :
      (w : W)
      → Good w
      → busy w ≡ false
      → Started Good busy o.is_uninstantiating true (o.uninstantiate w)
  pub load_to_mem_lem :
      (w : W)
      → Good w
      → busy w ≡ false
      → Started Good busy o.is_uninstantiating false (o.load_to_mem w)
  pub wakeup_lem :
      (result : AsyncResult) (w : W)
      → Good w
      → busy w ≡ false
      → Started Good busy o.is_uninstantiating false (o.wakeup result w)
