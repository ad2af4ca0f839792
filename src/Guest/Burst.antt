-- ===== src/Guest/Burst.antt =====
-- Two results of one request that arrive before the task polls, in executor.rs.
use wasm_operator.Base.{ℕ, Bool, if◌then◌else◌, true, false, Option, none, some, ◌≡◌, refl, ap, ◌∙◌}
use wasm_operator.Base.Outcome.{Outcome, ok, ◌>>=◌, Poll, ready, pending}
use wasm_operator.Abi.Command.{Bytes}
use wasm_operator.Guest.{AsyncState, Guest, Waker, fill, wakeup, poll}
use wasm_operator.Guest.Mailbox.{
  IsOpen, woken, wakeup-IsOpen, put-same, poll-ready, poll-pending, with_state,
}

-- Two calls of `wakeup` before the next poll.
abbrev pub wakeup_twice : ℕ → Bytes → ℕ → Option Bytes → Guest → Outcome Guest
wakeup_twice id first finished second g = do
  (w, g1) ← wakeup id 0 (some first) g
  (w', g2) ← wakeup id finished second g1
  ok g2

-- The values of two polls in a row, and whether the request is still registered.
abbrev pub poll_twice : Waker → ℕ → Guest → Poll (Option Bytes) × Poll (Option Bytes)
poll_twice waker h g = let (p, g1) = poll waker h g in let (q, g2) = poll waker h g1 in (p, q)

poll_twice-ready :
    (waker : Waker) (id h : ℕ) (s : AsyncState) (g : Guest)
    → g.states h ≡ s
    → s.has_value ≡ true
    → poll_twice waker h g ≡ (ready s.value, pending)
poll_twice-ready waker id h s g e v =
    let left = record s { has_value = false; value = none } in
    let again = poll-pending waker h left (with_state h left g) (put-same h left g.states) refl in
    ap (λ (x : Poll (Option Bytes) × Guest). (x.0, (poll waker h x.1).0))
      (poll-ready waker h s g e v)
    ∙ ap (λ (x : Poll (Option Bytes) × Guest). (ready s.value, x.0)) again

woken_once-IsOpen :
    (id : ℕ) (value : Option Bytes) (h : ℕ) (s : AsyncState) (g : Guest)
    → IsOpen id h s g
    → IsOpen id h (fill value s) (woken id 0 value h s g)
woken_once-IsOpen id value h s g o = record {
  registered = o.registered;
  state = put-same h (fill value s) g.states;
}

wakeup_twice-IsOpen :
    (id : ℕ) (first : Bytes) (finished : ℕ) (second : Option Bytes) (h : ℕ) (s : AsyncState)
    (g : Guest)
    → IsOpen id h s g
    → wakeup_twice id first finished second g
      ≡ ok (woken id finished second h (fill (some first) s) (woken id 0 (some first) h s g))
wakeup_twice-IsOpen id first finished second h s g o =
    let g1 = woken id 0 (some first) h s g in
    let s1 = fill (some first) s in
    ap (λ x. x >>= λ (w, g1). wakeup id finished second g1 >>= λ (w', g2). ok g2)
      (wakeup-IsOpen id 0 (some first) h s g o)
    ∙ ap (λ x. x >>= λ (w', g2). ok g2)
        (wakeup-IsOpen id finished second h s1 g1 (woken_once-IsOpen id (some first) h s g o))

-- The value that is kept.
abbrev pub latest : Option Bytes → Bytes → Option Bytes
latest none first = some first
latest (some second) first = some second

latest-polled :
    (waker : Waker) (id h : ℕ) (s : AsyncState) (first : Bytes) (finished : ℕ)
    (second : Option Bytes) (g1 : Guest)
    → poll_twice waker h (woken id finished second h (fill (some first) s) g1)
      ≡ (ready (latest second first), pending)
unfolding fill
latest-polled waker id h s first finished none g1 =
    let s1 = fill (some first) s in
    poll_twice-ready waker id h (fill none s1) (woken id finished none h s1 g1)
      (put-same h (fill none s1) g1.states) refl
latest-polled waker id h s first finished (some second) g1 =
    let s1 = fill (some first) s in
    poll_twice-ready waker id h (fill (some second) s1) (woken id finished (some second) h s1 g1)
      (put-same h (fill (some second) s1) g1.states) refl

woken-registered :
    (last : Bool) (id : ℕ) (value : Option Bytes) (h : ℕ) (s : AsyncState) (g : Guest)
    → IsOpen id h s g
    → (woken id (if last then 1 else 0) value h s g).pending_async id
      ≡ (if last then none else some h)
woken-registered true id value h s g o = put-same id none g.pending_async
woken-registered false id value h s g o = o.registered

-- A state holds one value. If two results of a registered request arrive before its task polls, the
-- first of them not the last of the request: if the second has a value, then the task gets that
-- value, and the first is lost; if the second has none, as the end of a stream, then the task gets
-- the first. In both cases the poll behind that is pending, and the request is no longer registered
-- if the second was the last.
pub wakeup_twice-poll_twice :
    (waker : Waker) (id h : ℕ) (s : AsyncState) (g : Guest) (first : Bytes) (last : Bool)
    (second : Option Bytes)
    → IsOpen id h s g
    → (g' : Guest) × (wakeup_twice id first (if last then 1 else 0) second g ≡ ok g')
      × (poll_twice waker h g' ≡ (ready (latest second first), pending))
      × (g'.pending_async id ≡ (if last then none else some h))
wakeup_twice-poll_twice waker id h s g first last second o =
    let finished : ℕ = if last then 1 else 0 in
    let g1 = woken id 0 (some first) h s g in
    let s1 = fill (some first) s in
    let o1 = woken_once-IsOpen id (some first) h s g o in
    let g' = woken id finished second h s1 g1 in
    (
      g',
      wakeup_twice-IsOpen id first finished second h s g o,
      latest-polled waker id h s first finished second g1,
      woken-registered last id second h s1 g1 o1,
    )
