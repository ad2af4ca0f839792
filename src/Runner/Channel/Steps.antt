-- ===== src/Runner/Channel/Steps.antt =====
-- What a step of the channel of runner.rs does, if it succeeds.
use wasm_operator.Base.{
  ℕ, suc, ◌≤◌, Option, none, some, some_injective, List, [], ◌∷◌, ◌++◌, ◌≡◌, refl, ap, get_elem?,
  set, erase_idx, length, ltb, ltb_iff, if_some,
}
use wasm_operator.Abi.Command.{AsyncResult}
use wasm_operator.Runner.{OpResult}
use wasm_operator.Runner.Channel.{
  channel_size, Sending, Channel, send, send_next, complete, end_if, poll_recv, take_first,
}

-- The state after a result was sent.
abbrev pub sent : ℕ → Sending → AsyncResult → List AsyncResult → Channel → Channel
sent i o m rest c = record {
  pending_ops = set c.pending_ops i (record o { unsent = rest });
  queue = c.queue ++ m ∷ [];
}

send_next-cases :
    (i : ℕ) (o : Sending) (unsent : List AsyncResult) (c c' : Channel)
    → send_next i o unsent c ≡ some c'
    → (m : AsyncResult) × (rest : List AsyncResult) × (unsent ≡ m ∷ rest)
      × (suc (length c.queue) ≤ channel_size)
      × (sent i o m rest c ≡ c')
unfolding send_next
send_next-cases i o [] c c' e = cc
send_next-cases i o (m ∷ rest) c c' e =
    let (room, same) = if_some (ltb (length c.queue) channel_size) (sent i o m rest c) e in
    (m, rest, refl, (ltb_iff (length c.queue) channel_size).0 room, same)

pub send-cases :
    (i : ℕ) (c c' : Channel)
    → send i c ≡ some c'
    → (o : Sending) × (m : AsyncResult) × (rest : List AsyncResult) × (get_elem? c.pending_ops i
        ≡ some o)
      × (o.unsent ≡ m ∷ rest)
      × (suc (length c.queue) ≤ channel_size)
      × (sent i o m rest c ≡ c')
unfolding send
send-cases i c c' e = by_op (get_elem? c.pending_ops i) refl e
  where
    by_op :
        (x : Option Sending)
        → get_elem? c.pending_ops i ≡ x
        → (elim x [ none ↦ none | some o ↦ send_next i o o.unsent c ]) ≡ some c'
        → (o : Sending) × (m : AsyncResult) × (rest : List AsyncResult) × (get_elem? c.pending_ops i
            ≡ some o)
          × (o.unsent ≡ m ∷ rest)
          × (suc (length c.queue) ≤ channel_size)
          × (sent i o m rest c ≡ c')
    by_op none at e = cc
    by_op (some o) at e =
        let (m, rest, u, room, same) = send_next-cases i o o.unsent c c' e in
        (o, m, rest, at, u, room, same)

pub complete-cases :
    (i : ℕ) (result : OpResult) (c c' : Channel)
    → complete i c ≡ some (result, c')
    → (o : Sending) × (get_elem? c.pending_ops i ≡ some o)
      × (o.unsent ≡ [])
      × (record c { pending_ops = erase_idx c.pending_ops i } ≡ c')
unfolding complete end_if
complete-cases i result c c' e = by_op (get_elem? c.pending_ops i) refl e
  where
    by_unsent :
        (ms : List AsyncResult) (o : Sending)
        → end_if ms o i c ≡ some (result, c')
        → (ms ≡ []) × (record c { pending_ops = erase_idx c.pending_ops i } ≡ c')
    by_unsent [] o e = (refl, ap (λ (x : OpResult × Channel). x.1) (some_injective e))
    by_unsent (m ∷ rest) o e = cc

    by_op :
        (x : Option Sending)
        → get_elem? c.pending_ops i ≡ x
        → (elim x [ none ↦ none | some o ↦ end_if o.unsent o i c ]) ≡ some (result, c')
        → (o : Sending) × (get_elem? c.pending_ops i ≡ some o)
          × (o.unsent ≡ [])
          × (record c { pending_ops = erase_idx c.pending_ops i } ≡ c')
    by_op none at e = cc
    by_op (some o) at e = let (u, same) = by_unsent o.unsent o e in (o, at, u, same)

pub poll_recv-cases :
    (m : AsyncResult) (c c' : Channel)
    → poll_recv c ≡ some (m, c')
    → (rest : List AsyncResult) × (c.queue ≡ m ∷ rest) × (record c { queue = rest } ≡ c')
unfolding poll_recv take_first
poll_recv-cases m c c' e = by_queue c.queue e
  where
    by_queue :
        (q : List AsyncResult)
        → take_first q c ≡ some (m, c')
        → (rest : List AsyncResult) × (q ≡ m ∷ rest) × (record c { queue = rest } ≡ c')
    by_queue [] e = cc
    by_queue (n ∷ rest) e =
        let same = some_injective e in
        (
          rest,
          ap (λ (x : AsyncResult × Channel). x.0 ∷ rest) same,
          ap (λ (x : AsyncResult × Channel). x.1) same,
        )
