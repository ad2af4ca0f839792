-- ===== src/Module/Run.antt =====
-- `start` and `run_event_loop` of module.rs: a whole run of one operator, with its instance as
-- wasm.rs keeps it.
use wasm_operator.Base.{ℕ, suc, Bool, List, [], ◌∷◌, ◌≡◌, ◌≢◌}
use wasm_operator.Base.Outcome
use wasm_operator.Base.Outcome.{Outcome, ok, ◌>>=◌, Poll, ready, pending, Returns, returns, errs}
use wasm_operator.Abi.{RequestCodec, ControllerCtx}
use wasm_operator.Runner.{new_runner}
use wasm_operator.Wasm.{WasmRuntime, Reply, new_runtime, start_controller}
use wasm_operator.Wasm.Wasmtime.{Engine}
use wasm_operator.Wasm.Machine.{Good}
use wasm_operator.Wasm.Serves.{wasm_ops}
use wasm_operator.Wasm.Interface.{WasmOps, IsWasm}
use wasm_operator.Module.Clock.{Chrono}
use wasm_operator.Module.{ControllerModule, Births, new_module, Turn, Evening, malformed, Woken}
use wasm_operator.Module.EventLoop.{poll_event_loop}
use wasm_operator.Module.Total.{IsSound, IsQuietFrom}
use wasm_operator.Module.Progress.{IsRested, poll_event_loop-Returns}

-- The environment at one poll of the task. The turns from `results` on bring no result.
pub record Round (R Time : Type 0) : Type 0 where
  pub results : ℕ
  pub turns : ℕ → Turn R Time
  pub evening : Evening R Time

-- No result arrives from some turn on, and the prediction server sends nothing malformed.
pub record IsCalm {R Time : Type 0} (round : Round R Time) : Type 0 where
  pub quiet : IsQuietFrom round.results round.turns
  pub replied : round.evening.server ≢ malformed

abbrev pub AllCalm : {R Time : Type 0} → List (Round R Time) → Type 0
AllCalm [] = Unit
AllCalm (round ∷ rounds) = IsCalm round × AllCalm rounds

-- The task is polled once in each round, until it is ready.
unfoldable pub run_event_loop :
    {R W Time Req : Type 0}
    → Chrono Time
    → WasmOps W R Req
    → Bool
    → List (Round R Time)
    → ControllerModule W Time Req
    → Outcome (Poll (Unit {0}) × ControllerModule W Time Req)
run_event_loop c o flag [] m = ok (pending, m)
run_event_loop c o flag (round ∷ rounds) m = do
  (p, t) ← poll_event_loop c o flag (suc round.results) round.turns round.evening m
  elim p [ ready _ ↦ ok (ready tt, t.state) | pending ↦ run_event_loop c o flag rounds t.state ]

module _ {Inst Val Req Time : Type 0} (c : Chrono Time) (e : Engine Inst Val)
    (codec : RequestCodec Req) where
  -- A module of `new_controller_module`, at the beginning of `start`.
  unfoldable pub start_module :
      ControllerCtx → Births Time → Outcome (ControllerModule (WasmRuntime Inst Val) Time Req)
  start_module ctx births = do
    w ← start_controller (new_runtime ctx)
    ok (new_module c births w new_runner)

  unfoldable pub start :
      Bool
      → ControllerCtx
      → Births Time
      → List (Round Reply Time)
      → Outcome (Poll (Unit {0}) × ControllerModule (WasmRuntime Inst Val) Time Req)
  start flag ctx births rounds = do
    m ← start_module ctx births
    run_event_loop c (wasm_ops e codec) flag rounds m

-- An operator that is done has no pending operation.
abbrev pub IsOver : {W Time Req : Type 0} → Poll (Unit {0}) → ControllerModule W Time Req → Type 0
IsOver (ready _) m = m.ops_runner.pending_ops ≡ []
IsOver pending m = Unit

-- The state after some polls: the invariant of the module holds.
pub record IsSettled {W Time Req : Type 0} (Good : W → Type 0)
    (x : Poll (Unit {0}) × ControllerModule W Time Req) : Type 0 where
  pub sound : IsSound Good x.1
  pub over : IsOver x.0 x.1

module _ {R W Time Req : Type 0} (c : Chrono Time) (o : WasmOps W R Req) {Good : W → Type 0}
    {busy : W → Bool} (wasm_laws : IsWasm o Good busy) where
  pub run_event_loop-IsSettled :
      (flag : Bool) (rounds : List (Round R Time)) (m : ControllerModule W Time Req)
      → AllCalm rounds
      → IsSound Good m
      → Returns (IsSettled Good) (run_event_loop c o flag rounds m)
  unfolding run_event_loop
  run_event_loop-IsSettled flag [] m calm s = returns (record { sound = s; over = tt })
  run_event_loop-IsSettled flag (round ∷ rounds) m (calm, rest) s =
      Outcome.bind
        (poll_event_loop-Returns c o wasm_laws flag round.results round.turns round.evening m
          calm.quiet calm.replied s)
        (next (λ m' s'. run_event_loop-IsSettled flag rounds m' rest s'))
    where
      next :
          ((m' : ControllerModule W Time Req)
            → IsSound Good m'
            → Returns (IsSettled Good) (run_event_loop c o flag rounds m'))
          → (x : Poll (Unit {0}) × Woken (ControllerModule W Time Req))
          → IsSound Good x.1.state × IsRested o busy round.evening.reply x.0 x.1
          → Returns (IsSettled Good) (elim x.0 [
            | ready _ ↦ ok (ready tt, x.1.state)
            | pending ↦ run_event_loop c o flag rounds x.1.state
          ])
      next go (ready _, t) (s', r) = returns (record { sound = s'; over = r })
      next go (pending, t) (s', r) = go t.state s'
