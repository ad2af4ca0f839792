-- ===== src/Abi/OpCall/Polls.antt =====
-- What the polls of an operation of opcall.rs return.
use wasm_operator.Base.{ℕ, zero, suc, ◌-◌, List, [], ◌∷◌, ◌≡◌, ap, ◌∙◌, arith}
use wasm_operator.Base.Outcome.{ok, panicked, ◌>>=◌, Poll, ready, pending}
use wasm_operator.Abi.OpCall.{
  MaybeDone, future, done, gone, Futures, IsFutures, eager, after_take, after_poll, poll, poll_all,
  lazy,
}

-- The future is pending at a number of polls, and then ready with a value.
pub data ReadyAfter {Fut T : Type 0} (m : Futures Fut T) (v : T) : ℕ → Fut → Type 0 where
  now : {f f' : Fut} → m.poll_future f ≡ (ready v, f') → ReadyAfter m v 0 f
  later :
      {n : ℕ} {f f' : Fut}
      → m.poll_future f ≡ (pending, f')
      → ReadyAfter m v n f'
      → ReadyAfter m v (suc n) f

-- A number of polls that are pending, and one that is ready.
abbrev pub answers : {T : Type 0} → ℕ → T → List (Poll T)
answers zero v = ready v ∷ []
answers (suc n) v = pending ∷ answers n v

module _ {Fut T : Type 0} (m : Futures Fut T) (laws : IsFutures m) where
  poll-done : (v : T) → poll m (done v) ≡ ok (ready v, gone)
  unfolding poll after_poll after_take
  poll-done v =
      ap (λ x. x >>= after_poll m) (laws.poll-done v) ∙ ap (after_take m) (laws.take_output-done v)

  poll-now :
      (v : T) (f : Fut) {f' : Fut}
      → m.poll_future f ≡ (ready v, f')
      → poll m (future f) ≡ ok (ready v, gone)
  unfolding poll after_poll after_take
  poll-now v f e =
      ap (λ x. x >>= after_poll m) (laws.poll-future_ready f e)
      ∙ ap (after_take m) (laws.take_output-done v)

  poll-later :
      (f : Fut) {f' : Fut}
      → m.poll_future f ≡ (pending, f')
      → poll m (future f) ≡ ok (pending, future f')
  unfolding poll after_poll
  poll-later f e = ap (λ x. x >>= after_poll m) (laws.poll-future f e)

  poll-gone : poll m gone ≡ panicked
  unfolding poll
  poll-gone = ap (λ x. x >>= after_poll m) laws.poll-gone

  -- The poll of an operation, and the polls behind it.
  first :
      (n : ℕ) (op op' : MaybeDone Fut T) (p : Poll T)
      → poll m op ≡ ok (p, op')
      → poll_all m (suc n) op ≡ (do rest ← poll_all m n op'; ok (p ∷ rest))
  unfolding poll_all
  first n op op' p e =
      ap (λ x. x >>= λ (y : Poll T × MaybeDone Fut T). poll_all m n y.1 >>= λ rest. ok (y.0 ∷ rest))
        e

  gone-panics : (n : ℕ) → poll_all m (suc n) gone ≡ panicked
  unfolding poll_all
  gone-panics n =
      ap (λ x. x >>= λ (y : Poll T × MaybeDone Fut T). poll_all m n y.1 >>= λ rest. ok (y.0 ∷ rest))
        poll-gone

  future-once :
      (n : ℕ) (v : T) (f : Fut)
      → ReadyAfter m v n f
      → (poll_all m (suc n) (future f) ≡ ok (answers n v))
        × (poll_all m (suc (suc n)) (future f) ≡ panicked)
  unfolding poll_all
  future-once zero v f (now e) = (
    first 0 (future f) gone (ready v) (poll-now v f e),
    first 1 (future f) gone (ready v) (poll-now v f e)
        ∙ ap (λ x. x >>= λ rest. ok (ready v ∷ rest)) (gone-panics 0),
  )
  future-once (suc n) v f (later {f' = f'} e r) =
      let (one, two) = future-once n v f' r in
      (
        first (suc n) (future f) (future f') pending (poll-later f e)
            ∙ ap (λ x. x >>= λ rest. ok (pending ∷ rest)) one,
        first (suc (suc n)) (future f) (future f') pending (poll-later f e)
            ∙ ap (λ x. x >>= λ rest. ok (pending ∷ rest)) two,
      )

  done-once :
      (v : T) → (poll_all m 1 (done v) ≡ ok (ready v ∷ [])) × (poll_all m 2 (done v) ≡ panicked)
  unfolding poll_all
  done-once v = (
    first 0 (done v) gone (ready v) (poll-done v),
    first 1 (done v) gone (ready v) (poll-done v)
        ∙ ap (λ x. x >>= λ rest. ok (ready v ∷ rest)) (gone-panics 0),
  )

  -- An operation whose future is pending at `n` polls and then ready. Made with `lazy`, it is
  -- pending at `n` polls and then gives the value; made with `eager`, it has been polled once, so
  -- that it is pending at one poll less, and gives the value at its first poll if it was ready at
  -- once. The value is given once: one poll more panics.
  pub eager-lazy :
      (n : ℕ) (v : T) (f : Fut)
      → ReadyAfter m v n f
      → (poll_all m (suc n) (lazy f) ≡ ok (answers n v))
        × (poll_all m (suc (suc n)) (lazy f) ≡ panicked)
        × ((do op ← eager m f; poll_all m (suc (n - 1)) op) ≡ ok (answers (n - 1) v))
        × ((do op ← eager m f; poll_all m (suc (suc (n - 1))) op) ≡ panicked)
  unfolding lazy eager
  eager-lazy zero v f (now e) =
      let (one, two) = future-once 0 v f (now e) in
      let (one', two') = done-once v in
      let made =
        ap (λ x. x >>= λ (y : Poll (Unit {0}) × MaybeDone Fut T). ok y.1)
          (laws.poll-future_ready f e) in
      (one, two, ap (λ x. x >>= poll_all m 1) made ∙ one', ap (λ x. x >>= poll_all m 2) made ∙ two')
  eager-lazy (suc n) v f (later {f' = f'} e r) =
      let (one, two) = future-once (suc n) v f (later e r) in
      let (one', two') = future-once n v f' r in
      let made =
        ap (λ x. x >>= λ (y : Poll (Unit {0}) × MaybeDone Fut T). ok y.1) (laws.poll-future f e) in
      let before : suc n - 1 ≡ n = omega arith in
      rw before (
        one,
        two,
        ap (λ x. x >>= poll_all m (suc n)) made ∙ one',
        ap (λ x. x >>= poll_all m (suc (suc n))) made ∙ two',
      )
