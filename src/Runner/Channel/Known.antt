-- ===== src/Runner/Channel/Known.antt =====
-- The channel of runner.rs carries results of the requests that were made, and no others.
use wasm_operator.Base.{
  ℕ, some, List, [], ◌∷◌, ◌++◌, ◌≡◌, sym, All, All-append, All-mono, All-get_elem?, All-set,
  All-erase_idx,
}
use mathlib.Core.Path.{subst}
use wasm_operator.Abi.Command.{AsyncResult}
use wasm_operator.Runner.{OpResult, run_request}
use wasm_operator.Runner.Messages.{HasId, run_request-HasId}
use wasm_operator.Runner.Channel.{
  Begun, Sending, Channel, begin, send, complete, poll_recv, Run, initial, begins, sends, completes,
  receives, made_ids,
}
use wasm_operator.Runner.Channel.Steps.{send-cases, complete-cases, poll_recv-cases}

module _ (P : ℕ → Type 0) where
  abbrev IsOf : AsyncResult → Type 0
  IsOf m = P m.async_request_id

  abbrev WillSend : Sending → Type 0
  WillSend o = All IsOf o.unsent

  -- All results that were, are or will be in the channel.
  record IsAllOf (received : List AsyncResult) (c : Channel) : Type 0 where
    before : All IsOf received
    now : All IsOf c.queue
    after : All WillSend c.pending_ops

  made-first :
      {Req : Type 0} (made : List (Begun Req)) (b : Begun Req)
      → All P (made_ids (made ++ b ∷ []))
      → All P (made_ids made) × P b.async_request_id
  made-first [] b (p, h) = (tt, p)
  made-first (d ∷ made) b (p, h) = let (h', q) = made-first made b h in ((p, h'), q)

  begin-IsAllOf :
      {Req : Type 0} (received : List AsyncResult) (c : Channel) (b : Begun Req)
      → P b.async_request_id
      → IsAllOf received c
      → IsAllOf received (begin b c)
  unfolding begin
  begin-IsAllOf received c b p i =
      let results = (run_request b.async_request_id b.request b.answer).0 in
      record {
        before = i.before;
        now = i.now;
        after = All-append WillSend c.pending_ops _ i.after (
          All-mono (HasId b.async_request_id) IsOf results (λ m e. subst P (sym e) p)
              (run_request-HasId b.async_request_id b.request b.answer),
          tt,
        );
      }

  send-IsAllOf :
      (received : List AsyncResult) (c c' : Channel) (k : ℕ)
      → send k c ≡ some c'
      → IsAllOf received c
      → IsAllOf received c'
  send-IsAllOf received c c' k e i =
      let (o, m, rest, at, u, room, same) = send-cases k c c' e in
      let (p, ps) = subst (All IsOf) u (All-get_elem? WillSend c.pending_ops k i.after at) in
      subst (IsAllOf received) same (record {
        before = i.before;
        now = All-append IsOf c.queue (m ∷ []) i.now (p, tt);
        after = All-set WillSend c.pending_ops k i.after ps;
      })

  complete-IsAllOf :
      (received : List AsyncResult) (c c' : Channel) (k : ℕ) (result : OpResult)
      → complete k c ≡ some (result, c')
      → IsAllOf received c
      → IsAllOf received c'
  complete-IsAllOf received c c' k result e i =
      let (o, at, u, same) = complete-cases k result c c' e in
      subst (IsAllOf received) same (record {
        before = i.before;
        now = i.now;
        after = All-erase_idx WillSend c.pending_ops k i.after;
      })

  poll_recv-IsAllOf :
      (received : List AsyncResult) (c c' : Channel) (m : AsyncResult)
      → poll_recv c ≡ some (m, c')
      → IsAllOf received c
      → IsAllOf (received ++ m ∷ []) c'
  poll_recv-IsAllOf received c c' m e i =
      let (rest, q, same) = poll_recv-cases m c c' e in
      let (p, ps) = subst (All IsOf) q i.now in
      subst (IsAllOf (received ++ m ∷ [])) same (record {
        before = All-append IsOf received (m ∷ []) i.before (p, tt);
        now = ps;
        after = i.after;
      })

  Run-IsAllOf :
      {Req : Type 0} {made : List (Begun Req)} {received : List AsyncResult} {c : Channel}
      → Run made received c
      → All P (made_ids made)
      → IsAllOf received c
  Run-IsAllOf initial h = record { before = tt; now = tt; after = tt }
  Run-IsAllOf (begins {made = made} {received = received} {c = c} r b) h =
      let (h', p) = made-first made b h in begin-IsAllOf received c b p (Run-IsAllOf r h')
  Run-IsAllOf (sends {received = received} {c = c} {c' = c'} r k e) h =
      send-IsAllOf received c c' k e (Run-IsAllOf r h)
  Run-IsAllOf (completes {received = received} {c = c} {c' = c'} r k result e) h =
      complete-IsAllOf received c c' k result e (Run-IsAllOf r h)
  Run-IsAllOf (receives {received = received} {c = c} {c' = c'} r m e) h =
      poll_recv-IsAllOf received c c' m e (Run-IsAllOf r h)

pub Run-IsKnown :
    {Req : Type 0} {made : List (Begun Req)} {received : List AsyncResult} {c : Channel}
    → Run made received c
    → (P : ℕ → Type 0) → All P (made_ids made)
    → All (λ m. P m.async_request_id) received
Run-IsKnown r P h = (Run-IsAllOf P r h).before
