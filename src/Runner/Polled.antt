-- ===== src/Runner/Polled.antt =====
-- What a poll of the pending operations of runner.rs gives, and which operations count as web calls.
use wasm_operator.Base.{
  ℕ, Bool, true, false, Option, none, some, List, [], ◌∷◌, ◌≡◌, refl, inl, inr, get_elem?,
  erase_idx, Option-cases,
}
use wasm_operator.Base.Outcome.{Poll, ready, pending}
use wasm_operator.Abi.Command.{Bytes, AsyncResult, AsyncRequestValue, http, http_stream, delay}
use wasm_operator.Runner.{
  Answer, PendingOp, OpResult, op_ok, to_bytes, stream_chunks, send_body, send_meta, run_request,
  is_web, Choice, completes, waits, poll_next,
}

stream_chunks-not_web :
    (id : ℕ) (body : List (Option Bytes)) {web : Bool}
    → (stream_chunks id body).1 ≡ op_ok web
    → web ≡ false
unfolding stream_chunks
stream_chunks-not_web id [] h = cc
stream_chunks-not_web id (none ∷ body) h = cc
stream_chunks-not_web id (some chunk ∷ body) h = stream_chunks-not_web id body h

send_meta-result :
    (id : ℕ) (meta : Option Bytes) (rest : List AsyncResult × OpResult) {web : Bool}
    → (send_meta id meta rest).1 ≡ op_ok web
    → rest.1 ≡ op_ok web
unfolding send_meta
send_meta-result id none rest h = cc
send_meta-result id (some m) (sent, result) h = h

send_body-web :
    (id : ℕ) (full : Option Bytes) {web : Bool} → (send_body id full).1 ≡ op_ok web → web ≡ true
unfolding send_body
send_body-web id none h = cc
send_body-web id (some b) h = cc

-- The output of an operation that succeeds tells plain requests from the others.
pub run_request-is_web :
    {Req : Type 0} (id : ℕ) (request : AsyncRequestValue Req) (answer : Option Answer) {web : Bool}
    → (run_request id request answer).1 ≡ op_ok web
    → web ≡ is_web request
unfolding run_request
run_request-is_web id (delay millis) answer h = cc
run_request-is_web id (http req) none h = cc
run_request-is_web id (http_stream req) none h = cc
run_request-is_web id (http req) (some a) h =
    send_body-web id (to_bytes a.body)
      (send_meta-result id a.meta (send_body id (to_bytes a.body)) h)
run_request-is_web id (http_stream req) (some a) h =
    stream_chunks-not_web id a.body (send_meta-result id a.meta (stream_chunks id a.body) h)

-- What a poll of the pending operations can do.
pub data PollNext {Req : Type 0} (ops : List (PendingOp Req))
    : Poll (Option OpResult) → List (PendingOp Req) → Type 0 where
  empty : ops ≡ [] → PollNext ops (ready none) []
  waiting : PollNext ops pending ops
  done :
      (i : ℕ) (op : PendingOp Req) (answer : Option Answer)
      → get_elem? ops i ≡ some op
      → PollNext ops
          (ready (some (run_request op.async_request_id op.request answer).1))
          (erase_idx ops i)

pub poll_next-PollNext :
    {Req : Type 0} (c : Choice) (ops : List (PendingOp Req))
    → PollNext ops (poll_next c ops).0 (poll_next c ops).1
unfolding poll_next
poll_next-PollNext c [] = empty refl
poll_next-PollNext waits (op ∷ ops) = waiting
poll_next-PollNext (completes i answer) (op ∷ ops) = elim (Option-cases (get_elem? (op ∷ ops) i)) [
  | inl e ↦ rw (e, poll_next) waiting
  | inr (o, e) ↦ rw (e, poll_next) (done i o answer e)
]
