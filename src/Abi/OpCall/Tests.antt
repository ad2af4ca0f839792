-- ===== src/Abi/OpCall/Tests.antt =====
-- Runs of opcall.rs, with futures that count down to their value.
use wasm_operator.Base.{ℕ, zero, suc, Option, none, some, ◌≡◌, refl}
use wasm_operator.Base.Outcome.{Outcome, ok, panicked, ◌>>=◌, Poll, ready, pending}
use wasm_operator.Abi.OpCall.{
  MaybeDone, future, done, gone, Futures, IsFutures, eager, poll_all, lazy,
}
use wasm_operator.Abi.OpCall.Polls.{ReadyAfter, now, later, answers, eager-lazy}

abbrev poll_countdown : ℕ → Poll ℕ × ℕ
poll_countdown zero = (ready 42, 0)
poll_countdown (suc n) = (pending, n)

abbrev as_done : Poll ℕ × ℕ → Poll (Unit {0}) × MaybeDone ℕ ℕ
as_done (ready v, f) = (ready tt, done v)
as_done (pending, f) = (pending, future f)

abbrev poll_done : MaybeDone ℕ ℕ → Outcome (Poll (Unit {0}) × MaybeDone ℕ ℕ)
poll_done (future f) = ok (as_done (poll_countdown f))
poll_done (done v) = ok (ready tt, done v)
poll_done gone = panicked

abbrev take_done : MaybeDone ℕ ℕ → Option ℕ × MaybeDone ℕ ℕ
take_done (done v) = (some v, gone)
take_done (future f) = (none, future f)
take_done gone = (none, gone)

abbrev countdowns : Futures ℕ ℕ
countdowns = record { poll_future = poll_countdown; poll = poll_done; take_output = take_done }

countdowns-IsFutures : IsFutures countdowns
countdowns-IsFutures = record {
  poll-future = λ f e. rw e refl;
  poll-future_ready = λ f e. rw e refl;
  poll-done = λ v. refl;
  poll-gone = refl;
  take_output-done = λ v. refl;
}

two-ReadyAfter : ReadyAfter countdowns 42 2 2
two-ReadyAfter = later refl (later refl (now refl))

abbrev countdown : ℕ
countdown = 2

abbrev value : ℕ
value = 42

eager-lazy_example :
    (poll_all countdowns 3 (lazy countdown) ≡ ok (answers 2 value))
    × (poll_all countdowns 4 (lazy countdown) ≡ panicked)
    × ((do op ← eager countdowns countdown; poll_all countdowns 2 op) ≡ ok (answers 1 value))
    × ((do op ← eager countdowns countdown; poll_all countdowns 3 op) ≡ panicked)
eager-lazy_example = eager-lazy countdowns countdowns-IsFutures 2 value countdown two-ReadyAfter
