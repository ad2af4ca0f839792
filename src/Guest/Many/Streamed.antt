-- ===== src/Guest/Many/Streamed.antt =====
-- Many streamed requests of requestor.rs at once.
use wasm_operator.Base.{
  ℕ, zero, suc, ◌<◌, false, Option, none, some, List, [], ◌∷◌, ◌++◌, map, ◌≡◌, refl, sym, ◌∙◌, All,
  if◌then◌else◌,
}
use mathlib.Core.Path.{subst}
use mathlib.Core.List.{append_assoc, append-nil}
use wasm_operator.Base.Outcome.{Outcome, ok, Poll, ready, pending, IfOk, IfOk-bind, IfOk-ok}
use wasm_operator.Abi.Command.{Bytes, AsyncResult, http_stream}
use wasm_operator.Runner.{Answer, message, run_request, send_meta, stream_chunks}
use wasm_operator.Guest.{Guest, Waker, task, poll}
use wasm_operator.Guest.Mailbox.{IsOpen, woken, awaited}
use wasm_operator.Guest.Request.{
  Streamed, opens, reads, closed, unwrap, after_next, read_chunks, poll_limit, after_open,
  poll_streamed,
}
use wasm_operator.Guest.Streamed.{poll-opened, poll-chunk, poll-closed}
use wasm_operator.Guest.Many.{deliver_all, IsFramed, IsFramed-trans, IsOpenFor, Expects}
use wasm_operator.Guest.Many.Delivered.{deliver_all-AllWait, IsOpen-IsOpenFor}
use wasm_operator.Guest.Many.Plain.{poll-IsFramed, IsFramed-refl}
use wasm_operator.Runner.Channel.Order.{of_id}

cons_injective : {A : Type 0} {x y : A} {xs ys : List A} → (x ∷ xs) ≡ (y ∷ ys) → (x ≡ y) × (xs ≡ ys)
cons_injective e = (cc, cc)

module _ {Meta : Type 0} (deserialize : Bytes → Option Meta) where
  abbrev Framed : ℕ → Guest → Outcome (Streamed Meta × Guest) → Type 0
  Framed h g r = IfOk (λ (y : Streamed Meta × Guest). IsFramed h g y.1) r

  after_next-IsFramed :
      (again : List Bytes → Guest → Outcome (Streamed Meta × Guest)) (h : ℕ) (meta : Meta)
      (chunks : List Bytes) (g : Guest) (x : Poll (Option Bytes) × Guest)
      → ((got : List Bytes) (g' : Guest) → IsFramed h g g' → Framed h g (again got g'))
      → IsFramed h g x.1
      → Framed h g (after_next deserialize again h meta chunks x)
  unfolding after_next
  after_next-IsFramed again h meta chunks g (pending, g') next f = f
  after_next-IsFramed again h meta chunks g (ready none, g') next f = f
  after_next-IsFramed again h meta chunks g (ready (some chunk), g') next f = next _ g' f

  read_chunks-IsFramed :
      (fuel : ℕ) (waker : Waker) (h : ℕ) (meta : Meta) (chunks : List Bytes) (g g' : Guest)
      → IsFramed h g g'
      → Framed h g (read_chunks deserialize fuel waker h meta chunks g')
  unfolding read_chunks
  read_chunks-IsFramed zero waker h meta chunks g g' f = tt
  read_chunks-IsFramed (suc fuel) waker h meta chunks g g' f =
      after_next-IsFramed (read_chunks deserialize fuel waker h meta) h meta chunks g
        (poll waker h g') (λ got g'' f'. read_chunks-IsFramed fuel waker h meta got g g'' f')
        (IsFramed-trans f (poll-IsFramed waker h g'))

  after_open-IsFramed :
      (waker : Waker) (h : ℕ) (g : Guest) (x : Poll (Option Bytes) × Guest)
      → IsFramed h g x.1
      → Framed h g (after_open deserialize waker h x)
  unfolding after_open
  after_open-IsFramed waker h g (pending, g') f = f
  after_open-IsFramed waker h g (ready none, g') f = tt
  after_open-IsFramed waker h g (ready (some raw), g') f =
      IfOk-bind _ (unwrap (deserialize raw)) _
        λ meta. read_chunks-IsFramed poll_limit waker h meta [] g g' f

  -- The states of the future that are meant here.
  abbrev IsReading : ℕ → Streamed Meta → Type 0
  IsReading h (opens k) = k ≡ h
  IsReading h (reads k meta chunks) = k ≡ h
  IsReading h (closed meta chunks) = Unit

  poll_streamed-IsFramed :
      (waker : Waker) (h : ℕ) (f : Streamed Meta) (g : Guest)
      → IsReading h f
      → Framed h g (poll_streamed deserialize waker (f, g))
  unfolding poll_streamed
  poll_streamed-IsFramed waker h (opens k) g e =
      subst (λ j. Framed j g (after_open deserialize waker k (poll waker k g))) e
        (after_open-IsFramed waker k g (poll waker k g) (poll-IsFramed waker k g))
  poll_streamed-IsFramed waker h (reads k meta chunks) g e =
      subst (λ j. Framed j g (read_chunks deserialize poll_limit waker k meta chunks g)) e
        (read_chunks-IsFramed poll_limit waker k meta chunks g g (IsFramed-refl k g))
  poll_streamed-IsFramed waker h (closed meta chunks) g e = IsFramed-refl h g

  -- A streamed request, and the results of it that are still to come.
  data StreamWaits (id h : ℕ) (raw : Bytes) (meta : Meta) (chunks : List Bytes)
      (ms : List AsyncResult) : Streamed Meta → Type 0 where
    opening :
        ms ≡ message id (some raw) false ∷ (stream_chunks id (map some chunks)).0
        → StreamWaits id h raw meta chunks ms (opens h)
    reading :
        (got rest : List Bytes)
        → got ++ rest ≡ chunks
        → ms ≡ (stream_chunks id (map some rest)).0
        → StreamWaits id h raw meta chunks ms (reads h meta got)
    ended : ms ≡ [] → StreamWaits id h raw meta chunks ms (closed meta chunks)

  -- What one result does.
  abbrev Stepped :
      (t id h : ℕ) (raw : Bytes) (meta : Meta) (chunks : List Bytes) (f : Streamed Meta) (g : Guest)
      → List AsyncResult
      → Type 0
  Stepped t id h raw meta chunks f g [] = Unit
  Stepped t id h raw meta chunks f g (m ∷ rest) =
      (f' : Streamed Meta) × (g' : Guest) × (poll_streamed deserialize (task t)
          (f, woken id (if m.finished then 1 else 0) m.value h (awaited t) g)
        ≡ ok (f', g'))
      × StreamWaits id h raw meta chunks rest f'
      × IsOpenFor rest t id h g'
      × IsFramed h (woken id (if m.finished then 1 else 0) m.value h (awaited t) g) g'

  reading-Stepped :
      (t id h : ℕ) (raw : Bytes) (meta : Meta) (chunks got rest : List Bytes) (g : Guest)
      → got ++ rest ≡ chunks
      → IsOpen id h (awaited t) g
      → Stepped t id h raw meta chunks (reads h meta got) g (stream_chunks id (map some rest)).0
  unfolding stream_chunks
  reading-Stepped t id h raw meta chunks got [] g e o =
      let (g', polled, gone) = poll-closed deserialize t id h meta got g o in
      let all = sym (append-nil got) ∙ e in
      (
        closed meta got,
        g',
        polled,
        subst (λ cs. StreamWaits id h raw meta chunks [] (closed meta cs)) (sym all) (ended refl),
        tt,
        IfOk-ok _ _ (poll_streamed-IsFramed (task t) h (reads h meta got) _ refl) polled,
      )
  reading-Stepped t id h raw meta chunks got (chunk ∷ rest) g e o =
      let (g', polled, o') = poll-chunk deserialize t id h chunk meta got g o in
      (
        reads h meta (got ++ chunk ∷ []),
        g',
        polled,
        reading (got ++ chunk ∷ []) rest (append_assoc got (chunk ∷ []) rest ∙ e) refl,
        IsOpen-IsOpenFor (stream_chunks id (map some rest)).0 t id h g' o',
        IfOk-ok _ _ (poll_streamed-IsFramed (task t) h (reads h meta got) _ refl) polled,
      )

  opening-Stepped :
      (t id h : ℕ) (raw : Bytes) (meta : Meta) (chunks : List Bytes) (g : Guest)
      → deserialize raw ≡ some meta
      → IsOpen id h (awaited t) g
      → Stepped t id h raw meta chunks
          (opens h)
          g
          (message id (some raw) false ∷ (stream_chunks id (map some chunks)).0)
  opening-Stepped t id h raw meta chunks g d o =
      let (g', polled, o') = poll-opened deserialize t id h raw meta g o d in
      (
        reads h meta [],
        g',
        polled,
        reading [] chunks refl refl,
        IsOpen-IsOpenFor (stream_chunks id (map some chunks)).0 t id h g' o',
        IfOk-ok _ _ (poll_streamed-IsFramed (task t) h (opens h) _ refl) polled,
      )

  StreamWaits-Expects :
      (t id h : ℕ) (raw : Bytes) (meta : Meta) (chunks : List Bytes)
      → deserialize raw ≡ some meta
      → Expects (poll_streamed deserialize) (StreamWaits id h raw meta chunks) t id h
  StreamWaits-Expects t id h raw meta chunks d = record {
    step = λ m rest f g w o. one m rest f g w o;
  }
    where
      one :
          (m : AsyncResult) (rest : List AsyncResult) (f : Streamed Meta) (g : Guest)
          → StreamWaits id h raw meta chunks (m ∷ rest) f
          → IsOpen id h (awaited t) g
          → Stepped t id h raw meta chunks f g (m ∷ rest)
      one m rest f g (opening e) o =
          subst (Stepped t id h raw meta chunks (opens h) g) (sym e)
            (opening-Stepped t id h raw meta chunks g d o)
      one m rest f g (reading got more all e) o =
          subst (Stepped t id h raw meta chunks (reads h meta got) g) (sym e)
            (reading-Stepped t id h raw meta chunks got more g all o)
      one m rest f g (ended e) o = cc

  StreamWaits-closed :
      (id h : ℕ) (raw : Bytes) (meta : Meta) (chunks : List Bytes) (f : Streamed Meta)
      → StreamWaits id h raw meta chunks [] f
      → f ≡ closed meta chunks
  unfolding stream_chunks
  StreamWaits-closed id h raw meta chunks f (opening e) = cc
  StreamWaits-closed id h raw meta chunks f (reading got [] all e) = cc
  StreamWaits-closed id h raw meta chunks f (reading got (chunk ∷ rest) all e) = cc
  StreamWaits-closed id h raw meta chunks f (ended e) = refl

  -- What a request sends is what its future waits for.
  StreamWaits-opens :
      {Req : Type 0} (id h : ℕ) (req : Req) (a : Answer) (raw : Bytes) (meta : Meta)
      (chunks : List Bytes)
      → a.meta ≡ some raw
      → a.body ≡ map some chunks
      → StreamWaits id h raw meta chunks (run_request id (http_stream req) (some a)).0 (opens h)
  unfolding run_request send_meta
  StreamWaits-opens id h req a raw meta chunks m b = opening (rw (m, b) refl)

  -- Tasks that each wait for a streamed request of their own, with different identifiers and
  -- handles, whose requests are answered with metadata that can be read and unbroken chunks. If the
  -- results that arrive are of these requests, and those of each request are what it sends, in
  -- order, however they are mixed, then nothing panics, and each task gets its own metadata and each
  -- of its chunks once, in order, and then the end of its stream.
  pub deliver_all-closed :
      {Req : Type 0} (n : ℕ) (ids handles : ℕ → ℕ) (reqs : ℕ → Req) (answers : ℕ → Answer)
      (raws : ℕ → Bytes) (chunks : ℕ → List Bytes) (metas : ℕ → Meta) (ms : List AsyncResult)
      (g : Guest)
      → ((j k : ℕ) → j < n → k < n → ids j ≡ ids k → j ≡ k)
      → ((j k : ℕ) → j < n → k < n → handles j ≡ handles k → j ≡ k)
      → ((t : ℕ)
          → t < n
          → ((answers t).meta ≡ some (raws t))
            × (deserialize (raws t) ≡ some (metas t))
            × ((answers t).body ≡ map some (chunks t)))
      → ((t : ℕ) → t < n → IsOpen (ids t) (handles t) (awaited t) g)
      → All (λ m. (t : ℕ) × (t < n) × (m.async_request_id ≡ ids t)) ms
      → ((t : ℕ)
          → t < n
          → of_id (ids t) ms ≡ (run_request (ids t) (http_stream (reqs t)) (some (answers t))).0)
      → (fs : ℕ → Streamed Meta) × (g' : Guest) × (deliver_all
            (poll_streamed deserialize)
            ms
            ((λ t. opens (handles t)), g)
          ≡ ok (fs, g'))
        × ((t : ℕ) → t < n → fs t ≡ closed (metas t) (chunks t))
  deliver_all-closed n ids handles reqs answers raws chunks metas ms g ids_differ handles_differ
        answered opened known sent =
      let Waits : ℕ → List AsyncResult → Streamed Meta → Type 0 =
        λ t. StreamWaits (ids t) (handles t) (raws t) (metas t) (chunks t) in
      let (fs, g', done, last) =
        deliver_all-AllWait (poll_streamed deserialize) Waits n ids handles
          (λ t lt.
            StreamWaits-Expects t (ids t) (handles t) (raws t) (metas t) (chunks t)
              (answered t lt).1)
          ids_differ handles_differ ms (λ t. opens (handles t)) g known
          (record {
            waits = λ t lt.
                subst (λ xs. Waits t xs (opens (handles t))) (sym (sent t lt))
                  (StreamWaits-opens (ids t) (handles t) (reqs t) (answers t) (raws t) (metas t)
                    (chunks t) (answered t lt).0 (answered t lt).2);
            opened =
                λ t lt. IsOpen-IsOpenFor (of_id (ids t) ms) t (ids t) (handles t) g (opened t lt);
          }) in
      (
        fs,
        g',
        done,
        λ t lt.
            StreamWaits-closed (ids t) (handles t) (raws t) (metas t) (chunks t) (fs t)
              (last.waits t lt),
      )
