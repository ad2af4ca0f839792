-- ===== src/Guest/Mailbox.antt =====
-- The state that executor.rs shares between `wakeup` and a waiting task: it holds one value.
use wasm_operator.Base.{
  ℕ, true, false, Option, none, some, List, ◌∷◌, ◌==◌, ==_iff, if◌then◌else◌, ◌≡◌, refl,
}
use wasm_operator.Base.Outcome.{Outcome, ok, ◌>>=◌, ready, pending}
use wasm_operator.Abi.Command.{Bytes, AsyncResult}
use wasm_operator.Guest.Request.{run_until_stalled, deliver}
use wasm_operator.Guest.{
  AsyncState, Guest, Waker, task, put, start_async, fill, wakeup, poll, fresh_state,
}

pub put-same : {A : Type 0} (k : ℕ) (a : A) (f : ℕ → A) → put k a f k ≡ a
put-same k a f = let e : (k == k) ≡ true = (==_iff k k).1 refl in rw e refl

-- The state of a handle that a request is registered under.
pub record IsOpen (id h : ℕ) (s : AsyncState) (g : Guest) : Type 0 where
  pub registered : g.pending_async id ≡ some h
  pub state : g.states h ≡ s

pub start_async-IsOpen :
    (id : ℕ) (g : Guest) → IsOpen id (start_async id g).0 fresh_state (start_async id g).1
unfolding start_async
start_async-IsOpen id g = record {
  registered = put-same id (some g.next) g.pending_async;
  state = put-same g.next fresh_state g.states;
}

-- What a wakeup makes of the guest.
abbrev pub woken : ℕ → ℕ → Option Bytes → ℕ → AsyncState → Guest → Guest
woken id finished value h s g = record g {
  states = put h (fill value s) g.states;
  pending_async = if finished == 1 then put id none g.pending_async else g.pending_async;
}

pub wakeup-IsOpen :
    (id finished : ℕ) (value : Option Bytes) (h : ℕ) (s : AsyncState) (g : Guest)
    → IsOpen id h s g
    → wakeup id finished value g ≡ ok (s.waker, woken id finished value h s g)
unfolding wakeup
wakeup-IsOpen id finished value h s g o = rw (o.registered, wakeup) (rw o.state refl)

pub poll-ready :
    (waker : Waker) (h : ℕ) (s : AsyncState) (g : Guest)
    → g.states h ≡ s
    → s.has_value ≡ true
    → poll waker h g ≡ (
      ready s.value,
      record g { states = put h (record s { has_value = false; value = none }) g.states },
    )
unfolding poll
poll-ready waker h s g e v = rw (e, v) refl

pub poll-pending :
    (waker : Waker) (h : ℕ) (s : AsyncState) (g : Guest)
    → g.states h ≡ s
    → s.has_value ≡ false
    → poll waker h g ≡ (pending, record g { states = put h (record s { waker = waker }) g.states })
unfolding poll
poll-pending waker h s g e v = rw (e, v) refl

-- The state with another content.
abbrev pub with_state : ℕ → AsyncState → Guest → Guest
with_state h s g = record g { states = put h s g.states }

pub with_state-IsOpen :
    (id h : ℕ) (s s' : AsyncState) (g : Guest)
    → IsOpen id h s g
    → IsOpen id h s' (with_state h s' g)
with_state-IsOpen id h s s' g o = record {
  registered = o.registered;
  state = put-same h s' g.states;
}

-- A handle that its task waits for.
abbrev pub awaited : ℕ → AsyncState
awaited t = record { has_value = false; value = none; waker = task t }

-- A task that waits is woken by each result, and then finds its value.
pub wakeup-awaited :
    (t id finished : ℕ) (value : Option Bytes) (h : ℕ) (g : Guest)
    → IsOpen id h (awaited t) g
    → (wakeup id finished value g ≡ ok (task t, woken id finished value h (awaited t) g))
      × (poll (task t) h (woken id finished value h (awaited t) g)
          ≡ (ready value, with_state h (awaited t) (woken id finished value h (awaited t) g)))
unfolding fill
wakeup-awaited t id finished none h g o = (
  wakeup-IsOpen id finished none h (awaited t) g o,
  poll-ready (task t) h _ (woken id finished none h (awaited t) g) (put-same h _ g.states) refl,
)
wakeup-awaited t id finished (some bytes) h g o = (
  wakeup-IsOpen id finished (some bytes) h (awaited t) g o,
  poll-ready (task t) h _ (woken id finished (some bytes) h (awaited t) g) (put-same h _ g.states)
      refl,
)

-- The next poll finds nothing, and waits again.
pub poll-awaited :
    (t id h : ℕ) (g : Guest)
    → IsOpen id h (awaited t) g
    → poll (task t) h g ≡ (pending, with_state h (awaited t) g)
poll-awaited t id h g o = poll-pending (task t) h (awaited t) g o.state refl

pub woken-IsOpen :
    (t id : ℕ) (value : Option Bytes) (h : ℕ) (g : Guest)
    → IsOpen id h (awaited t) g
    → IsOpen id h (awaited t) (with_state h (awaited t) (woken id 0 value h (awaited t) g))
woken-IsOpen t id value h g o = record {
  registered = o.registered;
  state = put-same h (awaited t) (woken id 0 value h (awaited t) g).states;
}

-- The task runs when a result arrives.
pub deliver-cons :
    {F : Type 0} (poll_future : Waker → F × Guest → Outcome (F × Guest)) (t h : ℕ) (m : AsyncResult)
    (rest : List AsyncResult) (future : F) (g : Guest)
    → IsOpen m.async_request_id h (awaited t) g
    → deliver poll_future t (m ∷ rest) (future, g) ≡ (
        poll_future
          (task t)
          (future, woken m.async_request_id (if m.finished then 1 else 0) m.value h (awaited t) g)
        >>= deliver poll_future t rest)
unfolding deliver run_until_stalled
deliver-cons poll_future t h m rest future g o =
    let same : (t == t) ≡ true = (==_iff t t).1 refl in
    rw ((wakeup-awaited t m.async_request_id (if m.finished then 1 else 0) m.value h g o).0, same)
      refl
