-- ===== src/Runner/Messages.antt =====
-- What an operation of runner.rs sends to the operator, in which order.
use wasm_operator.Base.{
  ℕ, Bool, true, false, not, ◌&&◌, Option, none, some, List, [], ◌∷◌, ◌++◌, ◌≡◌, ◌⊎◌, refl, arith,
  ap, inl, inr, count, All,
}
use mathlib.Core.List.{append-nil}
use wasm_operator.Abi.Command.{Bytes, AsyncResult, AsyncRequestValue, http, http_stream, delay}
use wasm_operator.Runner.{
  Answer, OpResult, op_ok, op_err, message, to_bytes, stream_chunks, send_body, send_meta,
  run_request,
}

-- The last message, and no other, is marked as finished.
unfoldable pub closes : List AsyncResult → Bool
closes [] = false
closes (m ∷ []) = m.finished
closes (m ∷ n ∷ rest) = not m.finished && closes (n ∷ rest)

abbrev pub is_finished : AsyncResult → Bool
is_finished m = m.finished

-- The bytes that the messages carry, one after the other.
unfoldable pub payload : List AsyncResult → Bytes
payload [] = []
payload (m ∷ rest) = elim m.value [ none ↦ payload rest | some bytes ↦ bytes ++ payload rest ]

-- What a complete run, or one that was broken off, may have sent.
abbrev pub SentBy : OpResult → List AsyncResult → Type 0
SentBy (op_ok web) sent = closes sent ≡ true
SentBy op_err sent = count is_finished sent ≡ 0

closes-cons :
    (m : AsyncResult) (sent : List AsyncResult)
    → m.finished ≡ false
    → closes sent ≡ true
    → closes (m ∷ sent) ≡ true
unfolding closes
closes-cons m [] h c = cc
closes-cons m (n ∷ rest) h c = ground arith

SentBy-cons :
    (m : AsyncResult) (result : OpResult) (sent : List AsyncResult)
    → m.finished ≡ false
    → SentBy result sent
    → SentBy result (m ∷ sent)
SentBy-cons m (op_ok web) sent h s = closes-cons m sent h s
SentBy-cons m op_err sent h s = ground arith

stream_chunks-SentBy :
    (id : ℕ) (body : List (Option Bytes))
    → SentBy (stream_chunks id body).1 (stream_chunks id body).0
unfolding stream_chunks closes
stream_chunks-SentBy id [] = refl
stream_chunks-SentBy id (none ∷ body) = refl
stream_chunks-SentBy id (some chunk ∷ body) =
    SentBy-cons (message id (some chunk) false) (stream_chunks id body).1 (stream_chunks id body).0
      refl (stream_chunks-SentBy id body)

send_body-SentBy :
    (id : ℕ) (full : Option Bytes) → SentBy (send_body id full).1 (send_body id full).0
unfolding send_body closes
send_body-SentBy id none = refl
send_body-SentBy id (some b) = refl

send_meta-SentBy :
    (id : ℕ) (meta : Option Bytes) (rest : List AsyncResult × OpResult)
    → SentBy rest.1 rest.0
    → SentBy (send_meta id meta rest).1 (send_meta id meta rest).0
unfolding send_meta
send_meta-SentBy id none rest s = refl
send_meta-SentBy id (some meta) (sent, result) s =
    SentBy-cons (message id (some meta) false) result sent refl s

-- An operation that succeeds sends exactly one message that is marked as finished, and sends it
-- last; one that fails, for whatever request and answer, sends none.
pub run_request-SentBy :
    {Req : Type 0} (id : ℕ) (request : AsyncRequestValue Req) (answer : Option Answer)
    → SentBy (run_request id request answer).1 (run_request id request answer).0
unfolding run_request closes
run_request-SentBy id (delay millis) answer = refl
run_request-SentBy id (http req) none = refl
run_request-SentBy id (http_stream req) none = refl
run_request-SentBy id (http req) (some a) =
    send_meta-SentBy id a.meta (send_body id (to_bytes a.body))
      (send_body-SentBy id (to_bytes a.body))
run_request-SentBy id (http_stream req) (some a) =
    send_meta-SentBy id a.meta (stream_chunks id a.body) (stream_chunks-SentBy id a.body)

-- Every message carries the identifier of the request.
abbrev pub HasId : ℕ → AsyncResult → Type 0
HasId id m = m.async_request_id ≡ id

stream_chunks-HasId :
    (id : ℕ) (body : List (Option Bytes)) → All (HasId id) (stream_chunks id body).0
unfolding stream_chunks
stream_chunks-HasId id [] = (refl, tt)
stream_chunks-HasId id (none ∷ body) = tt
stream_chunks-HasId id (some chunk ∷ body) = (refl, stream_chunks-HasId id body)

send_body-HasId : (id : ℕ) (full : Option Bytes) → All (HasId id) (send_body id full).0
unfolding send_body
send_body-HasId id none = tt
send_body-HasId id (some b) = (refl, tt)

send_meta-HasId :
    (id : ℕ) (meta : Option Bytes) (rest : List AsyncResult × OpResult)
    → All (HasId id) rest.0
    → All (HasId id) (send_meta id meta rest).0
unfolding send_meta
send_meta-HasId id none rest s = tt
send_meta-HasId id (some meta) (sent, result) s = (refl, s)

pub run_request-HasId :
    {Req : Type 0} (id : ℕ) (request : AsyncRequestValue Req) (answer : Option Answer)
    → All (HasId id) (run_request id request answer).0
unfolding run_request
run_request-HasId id (delay millis) answer = (refl, tt)
run_request-HasId id (http req) none = tt
run_request-HasId id (http_stream req) none = tt
run_request-HasId id (http req) (some a) =
    send_meta-HasId id a.meta (send_body id (to_bytes a.body))
      (send_body-HasId id (to_bytes a.body))
run_request-HasId id (http_stream req) (some a) =
    send_meta-HasId id a.meta (stream_chunks id a.body) (stream_chunks-HasId id a.body)

-- The streamed form of a body and its plain form agree: they break off together, and otherwise
-- carry the same bytes.
stream_chunks-to_bytes :
    (id : ℕ) (body : List (Option Bytes))
    → ((to_bytes body ≡ none) × ((stream_chunks id body).1 ≡ op_err))
      ⊎ ((to_bytes body ≡ some (payload (stream_chunks id body).0))
          × ((stream_chunks id body).1 ≡ op_ok false))
unfolding stream_chunks to_bytes payload
stream_chunks-to_bytes id [] = inr (refl, refl)
stream_chunks-to_bytes id (none ∷ body) = inl (refl, refl)
stream_chunks-to_bytes id (some chunk ∷ body) = elim (stream_chunks-to_bytes id body) [
  | inl (p, q) ↦ inl (rw p, q)
  | inr (p, q) ↦ inr (rw p, q)
]

abbrev Agree : List AsyncResult × OpResult → List AsyncResult × OpResult → Type 0
Agree plain streamed =
    ((plain.1 ≡ op_err) × (streamed.1 ≡ op_err))
    ⊎ ((plain.1 ≡ op_ok true) × (streamed.1 ≡ op_ok false) × (payload plain.0 ≡ payload streamed.0))

send_body-Agree :
    (id : ℕ) (body : List (Option Bytes))
    → Agree (send_body id (to_bytes body)) (stream_chunks id body)
unfolding send_body payload
send_body-Agree id body = elim (stream_chunks-to_bytes id body) [
  | inl (p, q) ↦ rw p (inl (refl, q))
  | inr (p, q) ↦ rw p (inr (refl, q, append-nil _))
]

send_meta-Agree :
    (id : ℕ) (meta : Option Bytes) (plain streamed : List AsyncResult × OpResult)
    → Agree plain streamed
    → Agree (send_meta id meta plain) (send_meta id meta streamed)
unfolding send_meta payload
send_meta-Agree id none plain streamed h = inl (refl, refl)
send_meta-Agree id (some m) (sent, result) (sent', result') (inl h) = inl h
send_meta-Agree id (some m) (sent, result) (sent', result') (inr (p, q, e)) =
    inr (p, q, ap (λ bytes. m ++ bytes) e)

-- A plain request and a streamed one that get the same answer fail together; if they succeed, the
-- same bytes reach the operator.
pub payload-http-http_stream :
    {Req : Type 0} (id : ℕ) (req req' : Req) (answer : Option Answer)
    → (((run_request id (http req) answer).1 ≡ op_err)
        × ((run_request id (http_stream req') answer).1 ≡ op_err))
      ⊎ (((run_request id (http req) answer).1 ≡ op_ok true)
          × ((run_request id (http_stream req') answer).1 ≡ op_ok false)
          × (payload (run_request id (http req) answer).0
              ≡ payload (run_request id (http_stream req') answer).0))
unfolding run_request
payload-http-http_stream id req req' none = inl (refl, refl)
payload-http-http_stream id req req' (some a) =
    send_meta-Agree id a.meta (send_body id (to_bytes a.body)) (stream_chunks id a.body)
      (send_body-Agree id a.body)
