-- ===== src/Guest/Plain.antt =====
-- A plain request of requestor.rs, from the operator to the host and back.
use wasm_operator.Base.{ℕ, true, false, Option, none, some, [], ◌∷◌, ◌≡◌, refl, ap, ◌∙◌}
use wasm_operator.Base.Outcome.{ok, ◌>>=◌, ready}
use wasm_operator.Abi.Command.{Bytes, http}
use wasm_operator.Runner.{Answer, message, to_bytes, run_request, send_meta, send_body}
use wasm_operator.Guest.{Guest, task, start_async, fresh_state}
use wasm_operator.Guest.Mailbox.{
  IsOpen, start_async-IsOpen, deliver-cons, woken, poll-pending, with_state, with_state-IsOpen,
  awaited, wakeup-awaited, poll-awaited, woken-IsOpen, put-same,
}
use wasm_operator.Guest.Request.{
  awaits_meta, awaits_body, responded, after_meta, after_body, poll_body, poll_meta, poll_plain,
  execute_request, deliver,
}

module _ {Meta : Type 0} (deserialize : Bytes → Option Meta) where
  pub execute_request-awaits :
      (t id : ℕ) (g : Guest)
      → (g' : Guest) × (execute_request deserialize (task t) id g ≡ ok (awaits_meta g.next, g'))
        × IsOpen id g.next (awaited t) g'
  unfolding execute_request poll_meta after_meta start_async
  execute_request-awaits t id g =
      let g1 = (start_async id g).1 in
      let o = start_async-IsOpen id g in
      (
        with_state g.next (awaited t) g1,
        ap (after_meta deserialize (task t) g.next)
            (poll-pending (task t) g.next fresh_state g1 o.state refl),
        with_state-IsOpen id g.next fresh_state (awaited t) g1 o,
      )

  pub poll_meta-value :
      (t id h : ℕ) (raw : Bytes) (meta : Meta) (g : Guest)
      → IsOpen id h (awaited t) g
      → deserialize raw ≡ some meta
      → (g' : Guest) × (poll_meta deserialize (task t) h (woken id 0 (some raw) h (awaited t) g)
          ≡ ok (awaits_body h meta, g'))
        × IsOpen id h (awaited t) g'
  unfolding poll_meta poll_body after_meta after_body
  poll_meta-value t id h raw meta g o d =
      let g1 = with_state h (awaited t) (woken id 0 (some raw) h (awaited t) g) in
      let o1 = woken-IsOpen t id (some raw) h g o in
      let found =
        ap (after_meta deserialize (task t) h) (wakeup-awaited t id 0 (some raw) h g o).1 in
      let parsed : after_meta deserialize (task t) h (ready (some raw), g1)
          ≡ poll_body deserialize (task t) h meta g1 =
        rw d refl in
      (
        with_state h (awaited t) g1,
        found ∙ parsed ∙ ap (after_body deserialize h meta) (poll-awaited t id h g1 o1),
        with_state-IsOpen id h (awaited t) (awaited t) g1 o1,
      )

  pub poll_body-value :
      (t id h : ℕ) (body : Bytes) (meta : Meta) (g : Guest)
      → IsOpen id h (awaited t) g
      → (g' : Guest) × (poll_body deserialize
            (task t)
            h
            meta
            (woken id 1 (some body) h (awaited t) g)
          ≡ ok (responded meta body, g'))
        × (g'.pending_async id ≡ none)
  unfolding poll_body after_body
  poll_body-value t id h body meta g o = (
    with_state h (awaited t) (woken id 1 (some body) h (awaited t) g),
    ap (after_body deserialize h meta) (wakeup-awaited t id 1 (some body) h g o).1,
    put-same id none g.pending_async,
  )

  -- The two results of a plain request, delivered to the task that waits for them.
  deliver-responded :
      (t id h : ℕ) (raw body : Bytes) (meta : Meta) (g : Guest)
      → IsOpen id h (awaited t) g
      → deserialize raw ≡ some meta
      → (g' : Guest) × (deliver
            (poll_plain deserialize)
            t
            (message id (some raw) false ∷ message id (some body) true ∷ [])
            (awaits_meta h, g)
          ≡ ok (responded meta body, g'))
        × (g'.pending_async id ≡ none)
  unfolding deliver poll_plain
  deliver-responded t id h raw body meta g o d =
      let (g1, e1, o1) = poll_meta-value t id h raw meta g o d in
      let (g2, e2, gone) = poll_body-value t id h body meta g1 o1 in
      let rest = message id (some body) true ∷ [] in
      (
        g2,
        deliver-cons (poll_plain deserialize) t h (message id (some raw) false) rest (awaits_meta h)
              g o
            ∙ ap (λ x. x >>= deliver (poll_plain deserialize) t rest) e1
            ∙ deliver-cons (poll_plain deserialize) t h (message id (some body) true) []
                (awaits_body h meta) g1 o1
            ∙ ap (λ x. x >>= deliver (poll_plain deserialize) t []) e2,
        gone,
      )

  -- A plain request that the API server answers with metadata `meta` and a body that arrives in
  -- whole: the task that has made it gets exactly these two, after the host has delivered all
  -- results of the request, and nothing panics on the way. The request is no longer registered.
  pub execute_request-responded :
      {Req : Type 0} (t id : ℕ) (req : Req) (a : Answer) (g : Guest) {raw body : Bytes}
      {meta : Meta}
      → a.meta ≡ some raw
      → deserialize raw ≡ some meta
      → to_bytes a.body ≡ some body
      → (g' : Guest) × ((execute_request deserialize (task t) id g
            >>= deliver (poll_plain deserialize) t (run_request id (http req) (some a)).0)
          ≡ ok (responded meta body, g'))
        × (g'.pending_async id ≡ none)
  unfolding run_request send_meta send_body
  execute_request-responded t id req a g {raw} {body} {meta} m d b =
      let (g1, e1, o1) = execute_request-awaits t id g in
      let (g2, e2, gone) = deliver-responded t id g.next raw body meta g1 o1 d in
      (
        g2,
        ap (λ x. x >>= deliver (poll_plain deserialize) t (run_request id (http req) (some a)).0) e1
            ∙ rw (m, b) e2,
        gone,
      )
