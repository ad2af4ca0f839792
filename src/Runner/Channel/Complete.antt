-- ===== src/Runner/Channel/Complete.antt =====
-- An invariant of the channel of runner.rs: what was requested is received, in the channel, or still
-- to be sent.
use wasm_operator.Base.{
  ℕ, ◌≤◌, some, List, [], ◌∷◌, ◌++◌, ◌≡◌, ◌≢◌, refl, sym, ap, ◌∙◌, arith, set, length,
  length-append, All, All-get_elem?, All-append, All-set, All-erase_idx,
}
use mathlib.Core.Path.{subst}
use mathlib.Core.List.{append_assoc, append-nil}
use wasm_operator.Abi.Command.{AsyncResult}
use wasm_operator.Runner.{OpResult, run_request}
use wasm_operator.Runner.Messages.{HasId, run_request-HasId}
use wasm_operator.Runner.Channel.{
  channel_size, Begun, Sending, Channel, begin, send, complete, poll_recv, Run, initial, begins,
  sends, completes, receives, made_ids, op_ids,
}
use wasm_operator.Runner.Channel.Steps.{send-cases, complete-cases, poll_recv-cases}
use wasm_operator.Runner.Channel.Order.{
  of_id, of_id-append, Absent, Distinct, all_unsent, HasIds, of_id-all_unsent, of_id-last,
  of_id-moved, Absent-split, all_unsent-append, all_unsent-erase_idx, Distinct-append,
  Distinct-split, op_ids-set, op_ids-append, Distinct-erase_idx, Absent-erase_idx,
}

-- What a request sends in all.
abbrev pub results : {Req : Type 0} → Begun Req → List AsyncResult
results b = (run_request b.async_request_id b.request b.answer).0

abbrev pub all_results : {Req : Type 0} → List (Begun Req) → List AsyncResult
all_results [] = []
all_results (b ∷ bs) = results b ++ all_results bs

-- The requests of `made`, what was taken out of the channel, and the state agree.
pub record IsComplete {Req : Type 0} (made : List (Begun Req)) (received : List AsyncResult)
    (c : Channel) : Type 0 where
  pub all :
      (id : ℕ)
      → of_id id (received ++ (c.queue ++ all_unsent c.pending_ops)) ≡ of_id id (all_results made)
  ids : Distinct (op_ids c.pending_ops)
  old : (n : ℕ) → Absent n (made_ids made) → Absent n (op_ids c.pending_ops)
  own : All HasIds c.pending_ops
  pub room : length c.queue ≤ channel_size

pub made_ids-append :
    {Req : Type 0} (made : List (Begun Req)) (b : Begun Req)
    → made_ids (made ++ b ∷ []) ≡ made_ids made ++ b.async_request_id ∷ []
made_ids-append [] b = refl
made_ids-append (d ∷ made) b = ap (λ ks. d.async_request_id ∷ ks) (made_ids-append made b)

all_results-append :
    {Req : Type 0} (made : List (Begun Req)) (b : Begun Req)
    → all_results (made ++ b ∷ []) ≡ all_results made ++ results b
all_results-append [] b = append-nil (results b)
all_results-append (d ∷ made) b =
    ap (λ ms. results d ++ ms) (all_results-append made b)
    ∙ sym (append_assoc (results d) (all_results made) (results b))

-- The operation that `begin` adds.
abbrev started : {Req : Type 0} → Begun Req → Sending
started b = record {
  async_request_id = b.async_request_id;
  unsent = results b;
  result = (run_request b.async_request_id b.request b.answer).1;
}

begin-IsComplete :
    {Req : Type 0} (made : List (Begun Req)) (received : List AsyncResult) (c : Channel)
    (b : Begun Req)
    → Absent b.async_request_id (made_ids made)
    → IsComplete made received c
    → IsComplete (made ++ b ∷ []) received (begin b c)
unfolding begin
begin-IsComplete made received c b new i =
    let ops = op_ids-append c.pending_ops (started b ∷ []) in
    record {
      all = λ id.
          ap (λ ms. of_id id (received ++ (c.queue ++ ms)))
            (all_unsent-append c.pending_ops (started b ∷ []))
          ∙ of_id-last id received c.queue (all_unsent c.pending_ops) (results b ++ [])
          ∙ ap (λ ms. ms ++ of_id id (results b ++ [])) (i.all id)
          ∙ ap (λ ms. of_id id (all_results made) ++ of_id id ms) (append-nil (results b))
          ∙ sym (
              ap (of_id id) (all_results-append made b)
              ∙ of_id-append id (all_results made) (results b));
      ids = subst Distinct (sym ops) (
          Distinct-append (op_ids c.pending_ops) b.async_request_id i.ids
            (i.old b.async_request_id new));
      old = λ n a.
          let (a', ne) =
            Absent-split n (made_ids made) b.async_request_id
              (subst (Absent n) (made_ids-append made b) a) in
          subst (Absent n) (sym ops) (
            All-append (λ k. k ≢ n) (op_ids c.pending_ops) (b.async_request_id ∷ []) (i.old n a')
              (ne, tt));
      own =
          All-append HasIds c.pending_ops (started b ∷ []) i.own
            (run_request-HasId b.async_request_id b.request b.answer, tt);
      room = i.room;
    }

send-IsComplete :
    {Req : Type 0} (made : List (Begun Req)) (received : List AsyncResult) (c c' : Channel) (k : ℕ)
    → send k c ≡ some c'
    → IsComplete made received c
    → IsComplete made received c'
send-IsComplete made received c c' k e i =
    let (o, m, rest, at, u, room, same) = send-cases k c c' e in
    subst (IsComplete made received) same (record {
      all = λ id.
          of_id-moved id received c.queue (all_unsent c.pending_ops)
            (all_unsent (set c.pending_ops k (record o { unsent = rest }))) m
            (of_id-all_unsent id c.pending_ops k at u i.ids i.own)
          ∙ i.all id;
      ids =
          subst Distinct (sym (op_ids-set c.pending_ops k (record o { unsent = rest }) at refl))
            i.ids;
      old = λ n a.
          subst (Absent n) (sym (op_ids-set c.pending_ops k (record o { unsent = rest }) at refl))
            (i.old n a);
      own =
          All-set HasIds c.pending_ops k i.own
            (subst (All (HasId o.async_request_id)) u
              (All-get_elem? HasIds c.pending_ops k i.own at)).1;
      room = (let l = length-append c.queue (m ∷ []) in omega (arith, l, room));
    })

complete-IsComplete :
    {Req : Type 0} (made : List (Begun Req)) (received : List AsyncResult) (c c' : Channel) (k : ℕ)
    (result : OpResult)
    → complete k c ≡ some (result, c')
    → IsComplete made received c
    → IsComplete made received c'
complete-IsComplete made received c c' k result e i =
    let (o, at, u, same) = complete-cases k result c c' e in
    subst (IsComplete made received) same (record {
      all = λ id. rw (all_unsent-erase_idx c.pending_ops k at u) (i.all id);
      ids = Distinct-erase_idx c.pending_ops k i.ids;
      old = λ n a. Absent-erase_idx n c.pending_ops k (i.old n a);
      own = All-erase_idx HasIds c.pending_ops k i.own;
      room = i.room;
    })

poll_recv-IsComplete :
    {Req : Type 0} (made : List (Begun Req)) (received : List AsyncResult) (c c' : Channel)
    (m : AsyncResult)
    → poll_recv c ≡ some (m, c')
    → IsComplete made received c
    → IsComplete made (received ++ m ∷ []) c'
poll_recv-IsComplete made received c c' m e i =
    let (rest, q, same) = poll_recv-cases m c c' e in
    subst (IsComplete made (received ++ m ∷ [])) same (record {
      all = λ id.
          ap (of_id id) (
            append_assoc received (m ∷ []) (rest ++ all_unsent c.pending_ops)
            ∙ ap (λ ms. received ++ (ms ++ all_unsent c.pending_ops)) (sym q))
          ∙ i.all id;
      ids = i.ids;
      old = i.old;
      own = i.own;
      room = (let l = ap length q in omega (arith, l, (i.room)));
    })

pub Run-IsComplete :
    {Req : Type 0} {made : List (Begun Req)} {received : List AsyncResult} {c : Channel}
    → Run made received c
    → Distinct (made_ids made)
    → IsComplete made received c
Run-IsComplete initial d = record {
  all = λ id. refl;
  ids = tt;
  old = λ n a. tt;
  own = tt;
  room = omega arith;
}
Run-IsComplete (begins {made = made} {received = received} {c = c} r b) d =
    let (d', new) =
      Distinct-split (made_ids made) b.async_request_id
        (subst Distinct (made_ids-append made b) d) in
    begin-IsComplete made received c b new (Run-IsComplete r d')
Run-IsComplete (sends {made = made} {received = received} {c = c} {c' = c'} r k e) d =
    send-IsComplete made received c c' k e (Run-IsComplete r d)
Run-IsComplete (completes {made = made} {received = received} {c = c} {c' = c'} r k result e) d =
    complete-IsComplete made received c c' k result e (Run-IsComplete r d)
Run-IsComplete (receives {made = made} {received = received} {c = c} {c' = c'} r m e) d =
    poll_recv-IsComplete made received c c' m e (Run-IsComplete r d)
