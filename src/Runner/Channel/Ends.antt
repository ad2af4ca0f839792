-- ===== src/Runner/Channel/Ends.antt =====
-- The operations of runner.rs come to an end, as long as results are taken out of the channel.
use wasm_operator.Base.{
  ℕ, suc, ◌+◌, some, true, List, [], ◌∷◌, ◌≡◌, refl, ap, arith, get_elem?, erase_idx, length,
  length-append, sum_of, sum_of-set, sum_of-erase_idx, ltb, ltb_iff,
}
use mathlib.Core.Path.{subst}
use wasm_operator.Abi.Command.{AsyncResult}
use wasm_operator.Runner.{OpResult}
use wasm_operator.Runner.Channel.{
  channel_size, Sending, Channel, send, send_next, complete, end_if, poll_recv, take_first,
}
use wasm_operator.Runner.Channel.Steps.{sent, send-cases, complete-cases, poll_recv-cases}

-- A step that is no new request.
pub data Move (c c' : Channel) : Type 0 where
  sends : (i : ℕ) → send i c ≡ some c' → Move c c'
  completes : (i : ℕ) (result : OpResult) → complete i c ≡ some (result, c') → Move c c'
  receives : (m : AsyncResult) → poll_recv c ≡ some (m, c') → Move c c'

-- The moves that are left: a result is sent and received, and an operation ends.
abbrev pub op_work : Sending → ℕ
op_work o = suc (length o.unsent + length o.unsent)

abbrev pub work : Channel → ℕ
work c = sum_of op_work c.pending_ops + length c.queue

Move-work : (c c' : Channel) → Move c c' → work c ≡ suc (work c')
Move-work c c' (sends i e) =
    let (o, m, rest, at, u, room, same) = send-cases i c c' e in
    let sum = sum_of-set op_work c.pending_ops i (record o { unsent = rest }) at in
    let longer = length-append c.queue (m ∷ []) in
    let one = ap length u in
    subst (λ x. work c ≡ suc (work x)) same (omega (arith, sum, longer, one))
Move-work c c' (completes i result e) =
    let (o, at, u, same) = complete-cases i result c c' e in
    let sum = sum_of-erase_idx op_work c.pending_ops i at in
    let nothing = ap length u in
    subst (λ x. work c ≡ suc (work x)) same (omega (arith, sum, nothing))
Move-work c c' (receives m e) =
    let (rest, q, same) = poll_recv-cases m c c' e in
    let one = ap length q in subst (λ x. work c ≡ suc (work x)) same (omega (arith, one))

-- A result that is in the channel can be received; if there is none, the first operation goes on.
stuck-queue : (c : Channel) → ((c' : Channel) → ¬ Move c c') → c.queue ≡ []
unfolding poll_recv take_first
stuck-queue c stuck = by_queue c.queue refl
  where
    by_queue : (q : List AsyncResult) → c.queue ≡ q → c.queue ≡ []
    by_queue [] e = e
    by_queue (m ∷ rest) e = absurd (stuck (record c { queue = rest }) (receives m (rw e refl)))

stuck-pending : (c : Channel) → ((c' : Channel) → ¬ Move c c') → c.queue ≡ [] → c.pending_ops ≡ []
unfolding send send_next complete end_if
stuck-pending c stuck empty = by_ops c.pending_ops refl
  where
    first :
        (o : Sending) (unsent : List AsyncResult)
        → get_elem? c.pending_ops 0 ≡ some o
        → o.unsent ≡ unsent
        → (c' : Channel) × Move c c'
    first o [] at u = (
      record c { pending_ops = erase_idx c.pending_ops 0 },
      completes 0 o.result (rw (at, complete) (rw (u, end_if) refl)),
    )
    first o (m ∷ rest) at u =
        let shorter = ap length empty in
        let room : ltb (length c.queue) channel_size ≡ true =
          (ltb_iff (length c.queue) channel_size).1 (omega (arith, shorter)) in
        (sent 0 o m rest c, sends 0 (rw (at, send) (rw (u, send_next) (rw room refl))))

    by_ops : (os : List Sending) → c.pending_ops ≡ os → c.pending_ops ≡ []
    by_ops [] e = e
    by_ops (o ∷ os) e =
        let (c', move) = first o o.unsent (ap (λ os. get_elem? os 0) e) refl in
        absurd (stuck c' move)

-- Each move of the operations and of the one that receives their results leaves one move less; and
-- where no move is possible, all operations have ended, and the channel is empty.
pub Move-ends :
    (c : Channel)
    → ((c' : Channel) → Move c c' → work c ≡ suc (work c'))
      × (((c' : Channel) → ¬ Move c c') → (c.pending_ops ≡ []) × (c.queue ≡ []))
Move-ends c =
    (Move-work c, λ stuck. let empty = stuck-queue c stuck in (stuck-pending c stuck empty, empty))
