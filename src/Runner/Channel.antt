-- ===== src/Runner/Channel.antt =====
-- runner.rs: the channel of ten results that the operations of an operator share, and how they send
-- step by step. Which operation goes on, and when a result is taken out, is free; an operation whose
-- channel is full waits.
pub mod Order
pub mod Steps
pub mod Complete
pub mod Delivery
pub mod Ends
pub mod Known
mod Tests
use wasm_operator.Base.{
  ℕ, Bool, true, false, Option, none, some, List, [], ◌∷◌, ◌++◌, map, ◌≡◌, get_elem?, set,
  erase_idx, length, ltb, if◌then◌else◌,
}
use wasm_operator.Abi.Command.{AsyncResult, AsyncRequestValue}
use wasm_operator.Runner.{Answer, OpResult, run_request}

-- `tokio::sync::mpsc::channel(10)`.
abbrev pub channel_size : ℕ
channel_size = 10

-- A request as it was made, with the answer that it will get.
pub record Begun (Req : Type 0) : Type 0 where
  pub async_request_id : ℕ
  pub request : AsyncRequestValue Req
  pub answer : Option Answer

-- An operation in `pending_ops`: what it has still to send, and what it then ends with.
pub record Sending : Type 0 where
  pub async_request_id : ℕ
  pub unsent : List AsyncResult
  pub result : OpResult

pub record Channel : Type 0 where
  pub pending_ops : List Sending
  pub queue : List AsyncResult

abbrev pub new_channel : Channel
new_channel = record { pending_ops = []; queue = [] }

unfoldable pub begin : {Req : Type 0} → Begun Req → Channel → Channel
begin b c =
    let (sent, result) = run_request b.async_request_id b.request b.answer in
    record c {
      pending_ops =
          c.pending_ops
          ++ record { async_request_id = b.async_request_id; unsent = sent; result = result } ∷ [];
    }

-- `send(...).await` of the operation at an index: none if it has nothing to send, or has to wait.
unfoldable pub send_next : ℕ → Sending → List AsyncResult → Channel → Option Channel
send_next i o [] c = none
send_next i o (m ∷ rest) c =
    if ltb (length c.queue) channel_size
    then some (record {
      pending_ops = set c.pending_ops i (record o { unsent = rest });
      queue = c.queue ++ m ∷ [];
    })
    else none

unfoldable pub send : ℕ → Channel → Option Channel
unfolding send_next
send i c = elim (get_elem? c.pending_ops i) [ none ↦ none | some o ↦ send_next i o o.unsent c ]

-- The operation at an index ends, if it has sent everything.
unfoldable pub end_if : List AsyncResult → Sending → ℕ → Channel → Option (OpResult × Channel)
end_if [] o i c = some (o.result, record c { pending_ops = erase_idx c.pending_ops i })
end_if (m ∷ rest) o i c = none

unfoldable pub complete : ℕ → Channel → Option (OpResult × Channel)
unfolding end_if
complete i c = elim (get_elem? c.pending_ops i) [ none ↦ none | some o ↦ end_if o.unsent o i c ]

-- `async_result_rx.poll_recv`.
unfoldable pub take_first : List AsyncResult → Channel → Option (AsyncResult × Channel)
take_first [] c = none
take_first (m ∷ rest) c = some (m, record c { queue = rest })

unfoldable pub poll_recv : Channel → Option (AsyncResult × Channel)
unfolding take_first
poll_recv c = take_first c.queue c

-- The runs of a runner: the requests that were made, in order, the results that were taken out of
-- the channel, in order, and the state that is reached.
pub data Run {Req : Type 0} : List (Begun Req) → List AsyncResult → Channel → Type 0 where
  initial : Run [] [] new_channel
  begins :
      {made : List (Begun Req)} {received : List AsyncResult} {c : Channel}
      → Run made received c
      → (b : Begun Req) → Run (made ++ b ∷ []) received (begin b c)
  sends :
      {made : List (Begun Req)} {received : List AsyncResult} {c c' : Channel}
      → Run made received c
      → (i : ℕ) → send i c ≡ some c'
      → Run made received c'
  completes :
      {made : List (Begun Req)} {received : List AsyncResult} {c c' : Channel}
      → Run made received c
      → (i : ℕ) (result : OpResult) → complete i c ≡ some (result, c')
      → Run made received c'
  receives :
      {made : List (Begun Req)} {received : List AsyncResult} {c c' : Channel}
      → Run made received c
      → (m : AsyncResult) → poll_recv c ≡ some (m, c')
      → Run made (received ++ m ∷ []) c'

-- The identifiers, and that they differ.
abbrev pub made_ids : {Req : Type 0} → List (Begun Req) → List ℕ
made_ids [] = []
made_ids (b ∷ bs) = b.async_request_id ∷ made_ids bs

abbrev pub op_ids : List Sending → List ℕ
op_ids [] = []
op_ids (o ∷ os) = o.async_request_id ∷ op_ids os
