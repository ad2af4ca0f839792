-- ===== src/Guest/Many/Delivered.antt =====
-- Each of many tasks gets the results of its own request, in whatever order they arrive.
use wasm_operator.Base.{
  ℕ, ◌<◌, Bool, true, false, Option, none, List, [], ◌∷◌, ◌≡◌, ◌≢◌, ◌⊎◌, refl, sym, ap, ◌∙◌, All,
  ◌==◌, ==_iff, if◌then◌else◌, inl, inr, Bool-cases,
}
use mathlib.Core.Path.{subst}
use wasm_operator.Base.Outcome.{Outcome, ok, ◌>>=◌}
use wasm_operator.Abi.Command.{Bytes, AsyncResult}
use wasm_operator.Guest.{Guest, Waker, task, put, wakeup}
use wasm_operator.Guest.Mailbox.{IsOpen, woken, awaited, wakeup-awaited, put-same}
use wasm_operator.Guest.Many.{
  run_woken, deliver_all, put-other, IsFramed, IsOpenFor, Expects, AllWait, IsKnown, of_id-first,
  of_id-skip,
}
use wasm_operator.Runner.Channel.Order.{of_id}

abbrev flag : AsyncResult → ℕ
flag m = if m.finished then 1 else 0

deliver_all-cons :
    {F : Type 0} (poll_future : Waker → F × Guest → Outcome (F × Guest)) (t : ℕ) (m : AsyncResult)
    (rest : List AsyncResult) (fs : ℕ → F) (g : Guest) {g1 g2 : Guest} {f : F}
    → wakeup m.async_request_id (flag m) m.value g ≡ ok (task t, g1)
    → poll_future (task t) (fs t, g1) ≡ ok (f, g2)
    → deliver_all poll_future (m ∷ rest) (fs, g) ≡ deliver_all poll_future rest (put t f fs, g2)
unfolding deliver_all run_woken
deliver_all-cons {F} poll_future t m rest fs g w p =
    ap
      (λ x. x >>= λ (y : Waker × Guest).
        run_woken poll_future y.0 (fs, y.1) >>= deliver_all poll_future rest)
      w
    ∙ ap (λ x. (x >>= λ (y : F × Guest). ok (put t y.0 fs, y.1)) >>= deliver_all poll_future rest) p

-- The wakeup for another request.
woken-pending_async :
    (id finished : ℕ) (value : Option Bytes) (h t other : ℕ) (g : Guest)
    → other ≢ id
    → (woken id finished value h (awaited t) g).pending_async other ≡ g.pending_async other
woken-pending_async id finished value h t other g ne = by_flag (finished == 1)
  where
    by_flag :
        (b : Bool)
        → (if b then put id none g.pending_async else g.pending_async) other ≡ g.pending_async other
    by_flag true = put-other id other none g.pending_async ne
    by_flag false = refl

IsOpenFor-same :
    (ms : List AsyncResult) (t id h : ℕ) (g g' : Guest)
    → g'.pending_async id ≡ g.pending_async id
    → g'.states h ≡ g.states h
    → IsOpenFor ms t id h g
    → IsOpenFor ms t id h g'
IsOpenFor-same [] t id h g g' p s o = tt
IsOpenFor-same (m ∷ ms) t id h g g' p s o = record {
  registered = p ∙ o.registered;
  state = s ∙ o.state;
}

module _ {F : Type 0} (poll_future : Waker → F × Guest → Outcome (F × Guest))
    (Waits : ℕ → List AsyncResult → F → Type 0) (n : ℕ) (ids handles : ℕ → ℕ)
    (expects : (t : ℕ) → t < n → Expects poll_future (Waits t) t (ids t) (handles t))
    (ids_differ : (j k : ℕ) → j < n → k < n → ids j ≡ ids k → j ≡ k)
    (handles_differ : (j k : ℕ) → j < n → k < n → handles j ≡ handles k → j ≡ k) where
  -- One result: its task takes a step, and the others stay as they are.
  deliver-AllWait :
      (t : ℕ) (m : AsyncResult) (rest : List AsyncResult) (fs : ℕ → F) (g g' : Guest) (f : F)
      → t < n
      → m.async_request_id ≡ ids t
      → AllWait poll_future Waits n ids handles (m ∷ rest) fs g
      → Waits t (of_id (ids t) rest) f
      → IsOpenFor (of_id (ids t) rest) t (ids t) (handles t) g'
      → IsFramed (handles t) (woken (ids t) (flag m) m.value (handles t) (awaited t) g) g'
      → AllWait poll_future Waits n ids handles rest (put t f fs) g'
  deliver-AllWait t m rest fs g g' f lt e all w o frame = record {
    waits = λ j lt_j. waits_at j lt_j (Bool-cases (j == t));
    opened = λ j lt_j. opened_at j lt_j (Bool-cases (j == t));
  }
    where
      skipped : (j : ℕ) → j < n → j ≢ t → of_id (ids j) (m ∷ rest) ≡ of_id (ids j) rest
      skipped j lt_j ne =
          of_id-skip (ids j) m rest λ same. ne (ids_differ j t lt_j lt (sym same ∙ e))

      distinct : (j : ℕ) → (j == t) ≡ false → j ≢ t
      distinct j miss same =
          let hit = (==_iff j t).1 same in let both : true ≡ false = sym hit ∙ miss in cc

      waits_at :
          (j : ℕ)
          → j < n
          → ((j == t) ≡ true) ⊎ ((j == t) ≡ false)
          → Waits j (of_id (ids j) rest) (put t f fs j)
      waits_at j lt_j (inl hit) =
          subst (λ i. Waits i (of_id (ids i) rest) (put t f fs i)) (sym ((==_iff j t).0 hit))
            (subst (Waits t (of_id (ids t) rest)) (sym (put-same t f fs)) w)
      waits_at j lt_j (inr miss) =
          subst (Waits j (of_id (ids j) rest)) (sym (put-other t j f fs (distinct j miss)))
            (subst (λ ms. Waits j ms (fs j)) (skipped j lt_j (distinct j miss)) (all.waits j lt_j))

      opened_at :
          (j : ℕ)
          → j < n
          → ((j == t) ≡ true) ⊎ ((j == t) ≡ false)
          → IsOpenFor (of_id (ids j) rest) j (ids j) (handles j) g'
      opened_at j lt_j (inl hit) =
          subst (λ i. IsOpenFor (of_id (ids i) rest) i (ids i) (handles i) g')
            (sym ((==_iff j t).0 hit)) o
      opened_at j lt_j (inr miss) =
          let ne = distinct j miss in
          IsOpenFor-same (of_id (ids j) rest) j (ids j) (handles j) g g'
            (frame.map_same (ids j)
              ∙ woken-pending_async (ids t) (flag m) m.value (handles t) t (ids j) g
                  λ same. ne (ids_differ j t lt_j lt same))
            (frame.others (handles j) (λ same. ne (handles_differ j t lt_j lt same))
              ∙ put-other (handles t) (handles j) _ g.states
                  λ same. ne (handles_differ j t lt_j lt same))
            (subst (λ ms. IsOpenFor ms j (ids j) (handles j) g) (skipped j lt_j ne)
              (all.opened j lt_j))

  -- All results of the requests, in any order: every task comes to its end.
  pub deliver_all-AllWait :
      (ms : List AsyncResult) (fs : ℕ → F) (g : Guest)
      → All (IsKnown poll_future Waits n ids handles) ms
      → AllWait poll_future Waits n ids handles ms fs g
      → (fs' : ℕ → F) × (g' : Guest) × (deliver_all poll_future ms (fs, g) ≡ ok (fs', g'))
        × AllWait poll_future Waits n ids handles [] fs' g'
  unfolding deliver_all
  deliver_all-AllWait [] fs g known all = (fs, g, refl, all)
  deliver_all-AllWait (m ∷ rest) fs g ((t, lt, e), known) all =
      let first = of_id-first (ids t) m rest e in
      let opened = subst (λ ms. IsOpenFor ms t (ids t) (handles t) g) first (all.opened t lt) in
      let (f, g1, polled, w, o, frame) =
        (expects t lt).step m (of_id (ids t) rest) (fs t) g
          (subst (λ ms. Waits t ms (fs t)) first (all.waits t lt)) opened in
      let called =
        ap (λ id. wakeup id (flag m) m.value g) e
        ∙ (wakeup-awaited t (ids t) (flag m) m.value (handles t) g opened).0 in
      let (fs', g', done, ended) =
        deliver_all-AllWait rest (put t f fs) g1 known
          (deliver-AllWait t m rest fs g g1 f lt e all w o frame) in
      (fs', g', deliver_all-cons poll_future t m rest fs g called polled ∙ done, ended)

pub IsOpen-IsOpenFor :
    (ms : List AsyncResult) (t id h : ℕ) (g : Guest)
    → IsOpen id h (awaited t) g
    → IsOpenFor ms t id h g
IsOpen-IsOpenFor [] t id h g o = tt
IsOpen-IsOpenFor (m ∷ ms) t id h g o = o
