-- ===== src/Guest/Many/Plain.antt =====
-- Many plain requests of requestor.rs at once.
use wasm_operator.Base.{
  ℕ, ◌<◌, true, false, Option, none, some, List, [], ◌∷◌, ◌≡◌, refl, sym, All, if◌then◌else◌, inl,
  inr, Bool-cases,
}
use mathlib.Core.Path.{subst}
use wasm_operator.Base.Outcome.{ok, Poll, ready, pending, IfOk, IfOk-bind, IfOk-ok}
use wasm_operator.Abi.Command.{Bytes, AsyncResult, http}
use wasm_operator.Runner.{Answer, message, to_bytes, run_request, send_meta, send_body}
use wasm_operator.Guest.{Guest, Waker, task, poll}
use wasm_operator.Guest.Mailbox.{IsOpen, woken, awaited}
use wasm_operator.Guest.Request.{
  Plain, awaits_meta, awaits_body, responded, unwrap, after_meta, after_body, poll_body, poll_meta,
  poll_plain,
}
use wasm_operator.Guest.Plain.{poll_meta-value, poll_body-value}
use wasm_operator.Guest.Many.{deliver_all, put-other, IsFramed, IsFramed-trans, IsOpenFor, Expects}
use wasm_operator.Guest.Many.Delivered.{deliver_all-AllWait, IsOpen-IsOpenFor}
use wasm_operator.Runner.Channel.Order.{of_id}

pub IsFramed-refl : (h : ℕ) (g : Guest) → IsFramed h g g
IsFramed-refl h g = record { others = λ j ne. refl; map_same = λ j. refl }

pub poll-IsFramed : (waker : Waker) (h : ℕ) (g : Guest) → IsFramed h g (poll waker h g).1
unfolding poll
poll-IsFramed waker h g = elim (Bool-cases (g.states h).has_value) [
  | inl y ↦
      rw (y, poll) (record { others = λ j ne. put-other h j _ g.states ne; map_same = λ j. refl })
  | inr n ↦
      rw (n, poll) (record { others = λ j ne. put-other h j _ g.states ne; map_same = λ j. refl })
]

module _ {Meta : Type 0} (deserialize : Bytes → Option Meta) where
  after_body-IsFramed :
      (h : ℕ) (meta : Meta) (g : Guest) (x : Poll (Option Bytes) × Guest)
      → IsFramed h g x.1
      → IfOk (λ (y : Plain Meta × Guest). IsFramed h g y.1) (after_body deserialize h meta x)
  unfolding after_body
  after_body-IsFramed h meta g (pending, g') f = f
  after_body-IsFramed h meta g (ready none, g') f = tt
  after_body-IsFramed h meta g (ready (some body), g') f = f

  poll_body-IsFramed :
      (waker : Waker) (h : ℕ) (meta : Meta) (g g' : Guest)
      → IsFramed h g g'
      → IfOk (λ (y : Plain Meta × Guest). IsFramed h g y.1) (poll_body deserialize waker h meta g')
  unfolding poll_body
  poll_body-IsFramed waker h meta g g' f =
      after_body-IsFramed h meta g (poll waker h g') (IsFramed-trans f (poll-IsFramed waker h g'))

  after_meta-IsFramed :
      (waker : Waker) (h : ℕ) (g : Guest) (x : Poll (Option Bytes) × Guest)
      → IsFramed h g x.1
      → IfOk (λ (y : Plain Meta × Guest). IsFramed h g y.1) (after_meta deserialize waker h x)
  unfolding after_meta
  after_meta-IsFramed waker h g (pending, g') f = f
  after_meta-IsFramed waker h g (ready none, g') f = tt
  after_meta-IsFramed waker h g (ready (some raw), g') f =
      IfOk-bind _ (unwrap (deserialize raw)) _ λ meta. poll_body-IsFramed waker h meta g g' f

  poll_meta-IsFramed :
      (waker : Waker) (h : ℕ) (g : Guest)
      → IfOk (λ (y : Plain Meta × Guest). IsFramed h g y.1) (poll_meta deserialize waker h g)
  unfolding poll_meta
  poll_meta-IsFramed waker h g =
      after_meta-IsFramed waker h g (poll waker h g) (poll-IsFramed waker h g)

  -- A plain request, and the results of it that are still to come.
  data PlainWaits (id h : ℕ) (raw body : Bytes) (meta : Meta)
      : List AsyncResult → Plain Meta → Type 0 where
    both :
        PlainWaits id h raw body meta
          (message id (some raw) false ∷ message id (some body) true ∷ [])
          (awaits_meta h)
    last : PlainWaits id h raw body meta (message id (some body) true ∷ []) (awaits_body h meta)
    over : PlainWaits id h raw body meta [] (responded meta body)

  PlainWaits-Expects :
      (t id h : ℕ) (raw body : Bytes) (meta : Meta)
      → deserialize raw ≡ some meta
      → Expects (poll_plain deserialize) (PlainWaits id h raw body meta) t id h
  unfolding poll_plain
  PlainWaits-Expects t id h raw body meta d = record { step = λ m rest f g w o. one m rest f g w o }
    where
      one :
          (m : AsyncResult) (rest : List AsyncResult) (f : Plain Meta) (g : Guest)
          → PlainWaits id h raw body meta (m ∷ rest) f
          → IsOpen id h (awaited t) g
          → (f' : Plain Meta) × (g' : Guest) × (poll_plain deserialize
                (task t)
                (f, woken id (if m.finished then 1 else 0) m.value h (awaited t) g)
              ≡ ok (f', g'))
            × PlainWaits id h raw body meta rest f'
            × IsOpenFor rest t id h g'
            × IsFramed h (woken id (if m.finished then 1 else 0) m.value h (awaited t) g) g'
      one m rest f g both o =
          let (g', e, o') = poll_meta-value deserialize t id h raw meta g o d in
          (awaits_body h meta, g', e, last, o', IfOk-ok _ _ (poll_meta-IsFramed (task t) h _) e)
      one m rest f g last o =
          let (g', e, gone) = poll_body-value deserialize t id h body meta g o in
          (
            responded meta body,
            g',
            e,
            over,
            tt,
            IfOk-ok _ _ (poll_body-IsFramed (task t) h meta _ _ (IsFramed-refl h _)) e,
          )

  PlainWaits-over :
      (id h : ℕ) (raw body : Bytes) (meta : Meta) (f : Plain Meta)
      → PlainWaits id h raw body meta [] f
      → f ≡ responded meta body
  PlainWaits-over id h raw body meta f over = refl

  -- What a request sends is what its future waits for.
  PlainWaits-both :
      {Req : Type 0} (id h : ℕ) (req : Req) (a : Answer) (raw body : Bytes) (meta : Meta)
      → a.meta ≡ some raw
      → to_bytes a.body ≡ some body
      → PlainWaits id h raw body meta (run_request id (http req) (some a)).0 (awaits_meta h)
  unfolding run_request send_meta send_body
  PlainWaits-both id h req a raw body meta m b = rw (m, b) both

  -- Tasks that each wait for a plain request of their own, with different identifiers and handles,
  -- whose requests are answered with metadata that can be read and a body that arrives in whole. If
  -- the results that arrive are of these requests, and those of each request are what it sends, in
  -- order, however they are mixed, then nothing panics, and each task gets its own metadata and
  -- body.
  pub deliver_all-responded :
      {Req : Type 0} (n : ℕ) (ids handles : ℕ → ℕ) (reqs : ℕ → Req) (answers : ℕ → Answer)
      (raws bodies : ℕ → Bytes) (metas : ℕ → Meta) (ms : List AsyncResult) (g : Guest)
      → ((j k : ℕ) → j < n → k < n → ids j ≡ ids k → j ≡ k)
      → ((j k : ℕ) → j < n → k < n → handles j ≡ handles k → j ≡ k)
      → ((t : ℕ)
          → t < n
          → ((answers t).meta ≡ some (raws t))
            × (deserialize (raws t) ≡ some (metas t))
            × (to_bytes (answers t).body ≡ some (bodies t)))
      → ((t : ℕ) → t < n → IsOpen (ids t) (handles t) (awaited t) g)
      → All (λ m. (t : ℕ) × (t < n) × (m.async_request_id ≡ ids t)) ms
      → ((t : ℕ)
          → t < n
          → of_id (ids t) ms ≡ (run_request (ids t) (http (reqs t)) (some (answers t))).0)
      → (fs : ℕ → Plain Meta) × (g' : Guest) × (deliver_all
            (poll_plain deserialize)
            ms
            ((λ t. awaits_meta (handles t)), g)
          ≡ ok (fs, g'))
        × ((t : ℕ) → t < n → fs t ≡ responded (metas t) (bodies t))
  deliver_all-responded n ids handles reqs answers raws bodies metas ms g ids_differ handles_differ
        answered opened known sent =
      let Waits : ℕ → List AsyncResult → Plain Meta → Type 0 =
        λ t. PlainWaits (ids t) (handles t) (raws t) (bodies t) (metas t) in
      let (fs, g', done, ended) =
        deliver_all-AllWait (poll_plain deserialize) Waits n ids handles
          (λ t lt.
            PlainWaits-Expects t (ids t) (handles t) (raws t) (bodies t) (metas t)
              (answered t lt).1)
          ids_differ handles_differ ms (λ t. awaits_meta (handles t)) g known
          (record {
            waits = λ t lt.
                subst (λ xs. Waits t xs (awaits_meta (handles t))) (sym (sent t lt))
                  (PlainWaits-both (ids t) (handles t) (reqs t) (answers t) (raws t) (bodies t)
                    (metas t) (answered t lt).0 (answered t lt).2);
            opened =
                λ t lt. IsOpen-IsOpenFor (of_id (ids t) ms) t (ids t) (handles t) g (opened t lt);
          }) in
      (
        fs,
        g',
        done,
        λ t lt.
            PlainWaits-over (ids t) (handles t) (raws t) (bodies t) (metas t) (fs t)
              (ended.waits t lt),
      )
