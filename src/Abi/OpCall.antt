-- ===== src/Abi/OpCall.antt =====
-- pkg/controller/src/abi/opcall.rs: an operation that is polled once when it is made. `MaybeDone` is
-- that of the `futures` crate; its methods are a parameter, with their documented behaviour.
pub mod Polls
mod Tests
use wasm_operator.Base.{ℕ, zero, suc, Option, none, some, List, [], ◌∷◌, ◌≡◌}
use wasm_operator.Base.Outcome.{Outcome, ok, panicked, ◌>>=◌, Poll, ready, pending}

pub data MaybeDone (Fut T : Type 0) : Type 0 where
  future : Fut → MaybeDone Fut T
  done : T → MaybeDone Fut T
  gone : MaybeDone Fut T

-- `poll_future` is the poll of the future inside.
pub record Futures (Fut T : Type 0) : Type 0 where
  pub poll_future : Fut → Poll T × Fut
  pub poll : MaybeDone Fut T → Outcome (Poll (Unit {0}) × MaybeDone Fut T)
  pub take_output : MaybeDone Fut T → Option T × MaybeDone Fut T

-- A poll keeps the output of the future; the output can be taken once, and a poll behind that panics.
pub record IsFutures {Fut T : Type 0} (m : Futures Fut T) : Type 0 where
  pub poll-future :
      (f : Fut) {f' : Fut}
      → m.poll_future f ≡ (pending, f')
      → m.poll (future f) ≡ ok (pending, future f')
  pub poll-future_ready :
      (f : Fut) {f' : Fut} {v : T}
      → m.poll_future f ≡ (ready v, f')
      → m.poll (future f) ≡ ok (ready tt, done v)
  pub poll-done : (v : T) → m.poll (done v) ≡ ok (ready tt, done v)
  pub poll-gone : m.poll gone ≡ panicked
  pub take_output-done : (v : T) → m.take_output (done v) ≡ (some v, gone)

-- `OpCall` is its `MaybeDone`.
module _ {Fut T : Type 0} (m : Futures Fut T) where
  unfoldable pub eager : Fut → Outcome (MaybeDone Fut T)
  eager fut = do (_, inner) ← m.poll (future fut); ok inner

  -- `pinned.as_mut().take_output().unwrap()`.
  unfoldable pub after_take : Option T × MaybeDone Fut T → Outcome (Poll T × MaybeDone Fut T)
  after_take (none, op) = panicked
  after_take (some v, op) = ok (ready v, op)

  unfoldable pub after_poll : Poll (Unit {0}) × MaybeDone Fut T → Outcome (Poll T × MaybeDone Fut T)
  unfolding after_take
  after_poll (pending, op) = ok (pending, op)
  after_poll (ready _, op) = after_take (m.take_output op)

  unfoldable pub poll : MaybeDone Fut T → Outcome (Poll T × MaybeDone Fut T)
  unfolding after_poll
  poll op = do polled ← m.poll op; after_poll polled

  -- What a number of polls in a row return.
  unfoldable pub poll_all : ℕ → MaybeDone Fut T → Outcome (List (Poll T))
  poll_all zero op = ok []
  poll_all (suc n) op = do (p, op') ← poll op; rest ← poll_all n op'; ok (p ∷ rest)

unfoldable pub lazy : {Fut T : Type 0} → Fut → MaybeDone Fut T
lazy fut = future fut

unfoldable pub ready_call : {Fut T : Type 0} → T → MaybeDone Fut T
ready_call value = done value

unfoldable pub gone_call : {Fut T : Type 0} → MaybeDone Fut T
gone_call = gone
