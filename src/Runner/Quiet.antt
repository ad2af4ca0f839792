-- ===== src/Runner/Quiet.antt =====
-- The loop of `resolve_async_ops` when no result has arrived.
use wasm_operator.Base.{ℕ, zero, suc, Option, none, some, ◌≡◌}
use wasm_operator.Base.Outcome.{Poll, ready, pending}
use wasm_operator.Runner.{
  OpResult, op_ok, op_err, OpsRunner, Sweep, Collected, op_failed, received, idle, conclude,
  sweep_once, collect, poll_next,
}

-- In no round is there a result in the channel.
abbrev pub IsQuiet : (ℕ → Sweep) → Type 0
IsQuiet env = (k : ℕ) → (env k).recv ≡ none

abbrev NotReceived : Option Collected → Type 0
NotReceived (some (received m)) = ⊥
NotReceived (some op_failed) = Unit
NotReceived (some idle) = Unit
NotReceived none = Unit

abbrev pub NoResult : {Req : Type 0} → Option (Collected × OpsRunner Req) → Type 0
NoResult none = Unit
NoResult (some (received m, r)) = ⊥
NoResult (some (op_failed, r)) = Unit
NoResult (some (idle, r)) = Unit

conclude-NotReceived : (polled : Poll (Option OpResult)) → NotReceived (conclude polled none)
unfolding conclude
conclude-NotReceived (ready (some op_err)) = tt
conclude-NotReceived (ready (some (op_ok web))) = tt
conclude-NotReceived (ready none) = tt
conclude-NotReceived pending = tt

sweep_once-NotReceived :
    {Req : Type 0} (s : Sweep) (r : OpsRunner Req) → s.recv ≡ none → NotReceived (sweep_once s r).0
unfolding sweep_once
sweep_once-NotReceived s r e = rw e (conclude-NotReceived (poll_next s.choice r.pending_ops).0)

pub collect-NoResult :
    {Req : Type 0} (fuel : ℕ) (env : ℕ → Sweep) (k : ℕ) (r : OpsRunner Req)
    → IsQuiet env
    → NoResult (collect fuel env k r)
unfolding collect
collect-NoResult zero env k r q = tt
collect-NoResult {Req} (suc fuel) env k r q =
    go (sweep_once (env k) r) (sweep_once-NotReceived (env k) r (q k))
      (λ s. collect-NoResult fuel env (suc k) s q)
  where
    go :
        (x : Option Collected × OpsRunner Req)
        → NotReceived x.0
        → ((s : OpsRunner Req) → NoResult (collect fuel env (suc k) s))
        → NoResult (elim x.0 [ none ↦ collect fuel env (suc k) x.1 | some c ↦ some (c, x.1) ])
    go (some op_failed, s) h ih = tt
    go (some (received m), s) h ih = h
    go (some idle, s) h ih = tt
    go (none, s) h ih = ih s
