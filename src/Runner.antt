-- ===== src/Runner.antt =====
-- pkg/controller/src/modules/runner.rs: the asynchronous operations of one operator.
-- `FuturesUnordered` and the operations' own progress are the environment's: at each poll it says
-- which pending operation, if any, has completed, and what the API server answered it.
pub mod Messages
pub mod WebCalls
pub mod Polled
pub mod Quiet
pub mod Channel
mod Tests
use wasm_operator.Base.{
  ℕ, zero, suc, ◌+◌, ◌-◌, ◌%◌, ◌^◌, Bool, true, false, Option, none, some, List, [], ◌∷◌, ◌++◌,
  get_elem?, erase_idx, if◌then◌else◌,
}
use wasm_operator.Base.Outcome.{Poll, ready, pending}
use wasm_operator.Abi.Command.{Bytes, AsyncResult, AsyncRequestValue, http, http_stream, delay}

-- `usize` and `u64` of the host.
abbrev pub u64_mod : ℕ
u64_mod = 2 ^ 64

-- The answer to a request: none, if `start_request_executor` fails, or the metadata, already
-- serialized by `bincode` (none if that fails), and the chunks of the body, none for a broken one.
pub record Answer : Type 0 where
  pub meta : Option Bytes
  pub body : List (Option Bytes)

pub record PendingOp (Req : Type 0) : Type 0 where
  pub async_request_id : ℕ
  pub request : AsyncRequestValue Req

-- `anyhow::Result<bool>`, the output of an operation.
pub data OpResult : Type 0 where
  op_ok : Bool → OpResult
  op_err : OpResult

abbrev pub message : ℕ → Option Bytes → Bool → AsyncResult
message id v last = record { async_request_id = id; value = v; finished = last }

-- `hyper::body::to_bytes`: all chunks as one, or an error if one is broken.
unfoldable pub to_bytes : List (Option Bytes) → Option Bytes
to_bytes [] = some []
to_bytes (none ∷ body) = none
to_bytes (some chunk ∷ body) = elim (to_bytes body) [
  | none ↦ none
  | some rest ↦ some (chunk ++ rest)
]

-- The loop `while let Some(chunk) = body.next().await`, and the message behind it.
unfoldable pub stream_chunks : ℕ → List (Option Bytes) → List AsyncResult × OpResult
stream_chunks id [] = (message id none true ∷ [], op_ok false)
stream_chunks id (none ∷ body) = ([], op_err)
stream_chunks id (some chunk ∷ body) =
    let (sent, result) = stream_chunks id body in (message id (some chunk) false ∷ sent, result)

-- What follows the metadata of a plain request.
unfoldable pub send_body : ℕ → Option Bytes → List AsyncResult × OpResult
send_body id none = ([], op_err)
send_body id (some full_body) = (message id (some full_body) true ∷ [], op_ok true)

-- The metadata goes first, if `bincode::serialize` has made bytes of it. `send` fails only on a
-- closed channel, and the runner holds both ends.
unfoldable pub send_meta :
    ℕ → Option Bytes → List AsyncResult × OpResult → List AsyncResult × OpResult
send_meta id none rest = ([], op_err)
send_meta id (some meta) (sent, result) = (message id (some meta) false ∷ sent, result)

-- A whole run of an operation's future: the results that it sends, and its output.
unfoldable pub run_request :
    {Req : Type 0} → ℕ → AsyncRequestValue Req → Option Answer → List AsyncResult × OpResult
unfolding to_bytes stream_chunks send_body send_meta
run_request id (delay millis) answer = (message id none true ∷ [], op_ok false)
run_request id (http req) none = ([], op_err)
run_request id (http_stream req) none = ([], op_err)
run_request id (http req) (some a) = send_meta id a.meta (send_body id (to_bytes a.body))
run_request id (http_stream req) (some a) = send_meta id a.meta (stream_chunks id a.body)

-- The state of `OpsRunner` that the event loop reads; its name, URL and service stay as they are.
pub record OpsRunner (Req : Type 0) : Type 0 where
  pub pending_ops : List (PendingOp Req)
  pub have_unpolled_ops : Bool
  pub nr_web_calls : ℕ

abbrev pub new_runner : {Req : Type 0} → OpsRunner Req
new_runner = record { pending_ops = []; have_unpolled_ops = false; nr_web_calls = 0 }

abbrev pub is_web : {Req : Type 0} → AsyncRequestValue Req → Bool
is_web (http _) = true
is_web (http_stream _) = false
is_web (delay _) = false

unfoldable pub handle_opcall : {Req : Type 0} → PendingOp Req → OpsRunner Req → OpsRunner Req
handle_opcall op r = record r { pending_ops = r.pending_ops ++ op ∷ []; have_unpolled_ops = true }

-- The operation that is added; its first poll, which `OpCall::eager` makes at once, can panic:
-- `eager_poll` in Abi.antt.
unfoldable pub handle_request :
    {Req : Type 0} → ℕ → AsyncRequestValue Req → OpsRunner Req → OpsRunner Req
unfolding handle_opcall
handle_request id request r =
    let counted = record r {
      nr_web_calls = if is_web request then (r.nr_web_calls + 1) % u64_mod else r.nr_web_calls;
    } in
    handle_opcall (record { async_request_id = id; request = request }) counted

-- The requests that an operator has made while it ran, in order.
unfoldable pub handle_requests :
    {Req : Type 0} → List (PendingOp Req) → OpsRunner Req → OpsRunner Req
handle_requests [] r = r
handle_requests (op ∷ ops) r = handle_requests ops (handle_request op.async_request_id op.request r)

-- The environment's move at a poll of `pending_ops`.
pub data Choice : Type 0 where
  completes : ℕ → Option Answer → Choice
  waits : Choice

unfoldable pub poll_next :
    {Req : Type 0} → Choice → List (PendingOp Req) → Poll (Option OpResult) × List (PendingOp Req)
unfolding run_request
poll_next c [] = (ready none, [])
poll_next waits (op ∷ ops) = (pending, op ∷ ops)
poll_next (completes i answer) (op ∷ ops) = elim (get_elem? (op ∷ ops) i) [
  | none ↦ (pending, op ∷ ops)
  | some o ↦
      (ready (some (run_request o.async_request_id o.request answer).1), erase_idx (op ∷ ops) i)
]

-- `runner.nr_web_calls -= 1` when a web call has completed; an error changes nothing.
unfoldable pub settle : {Req : Type 0} → Poll (Option OpResult) → OpsRunner Req → OpsRunner Req
settle (ready (some (op_ok true))) r = record r {
  nr_web_calls = (r.nr_web_calls + u64_mod - 1) % u64_mod;
}
settle _ r = r

-- One round of the loop of `resolve_async_ops`: the poll of `pending_ops`, and what the channel
-- `async_result_rx` holds.
pub record Sweep : Type 0 where
  pub choice : Choice
  pub recv : Option AsyncResult

pub data Collected : Type 0 where
  op_failed : Collected
  received : AsyncResult → Collected
  idle : Collected

-- How a round ends, none if the loop goes on.
unfoldable pub conclude : Poll (Option OpResult) → Option AsyncResult → Option Collected
conclude (ready (some op_err)) recv = some op_failed
conclude _ (some result) = some (received result)
conclude (ready (some (op_ok web))) none = none
conclude (ready none) none = some idle
conclude pending none = some idle

unfoldable pub sweep_once :
    {Req : Type 0} → Sweep → OpsRunner Req → Option Collected × OpsRunner Req
unfolding poll_next settle conclude
sweep_once s r =
    let (polled, ops) = poll_next s.choice r.pending_ops in
    (conclude polled s.recv, settle polled (record r { pending_ops = ops }))

-- The loop; none when the fuel is used up.
unfoldable pub collect :
    {Req : Type 0} → ℕ → (ℕ → Sweep) → ℕ → OpsRunner Req → Option (Collected × OpsRunner Req)
collect zero env k r = none
collect (suc fuel) env k r =
    let (ended, r') = sweep_once (env k) r in
    elim ended [ none ↦ collect fuel env (suc k) r' | some c ↦ some (c, r') ]
