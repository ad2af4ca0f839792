-- ===== src/Guest/Streamed.antt =====
-- A streamed request of requestor.rs, from the operator to the host and back.
use wasm_operator.Base.{
  ℕ, suc, true, false, Option, none, some, List, [], ◌∷◌, ◌++◌, map, ◌≡◌, refl, ap, ◌∙◌,
}
use mathlib.Core.List.{append_assoc, append-nil}
use wasm_operator.Base.Outcome.{ok, ◌>>=◌, ready}
use wasm_operator.Abi.Command.{Bytes, http_stream}
use wasm_operator.Runner.{Answer, message, run_request, send_meta, stream_chunks}
use wasm_operator.Guest.{Guest, task, start_async, fresh_state}
use wasm_operator.Guest.Mailbox.{
  IsOpen, start_async-IsOpen, deliver-cons, woken, poll-pending, with_state, with_state-IsOpen,
  awaited, wakeup-awaited, poll-awaited, woken-IsOpen, put-same,
}
use wasm_operator.Guest.Request.{
  opens, reads, closed, after_next, read_chunks, poll_limit, after_open, poll_streamed,
  execute_request_stream, deliver,
}

module _ {Meta : Type 0} (deserialize : Bytes → Option Meta) where
  opens-awaits :
      (t id : ℕ) (g : Guest)
      → (g' : Guest) × (execute_request_stream deserialize (task t) id g ≡ ok (opens g.next, g'))
        × IsOpen id g.next (awaited t) g'
  unfolding execute_request_stream after_open start_async
  opens-awaits t id g =
      let g1 = (start_async id g).1 in
      let o = start_async-IsOpen id g in
      (
        with_state g.next (awaited t) g1,
        ap (after_open deserialize (task t) g.next)
            (poll-pending (task t) g.next fresh_state g1 o.state refl),
        with_state-IsOpen id g.next fresh_state (awaited t) g1 o,
      )

  -- A read that finds nothing.
  read-pauses :
      (fuel t id h : ℕ) (meta : Meta) (chunks : List Bytes) (g : Guest)
      → IsOpen id h (awaited t) g
      → read_chunks deserialize (suc fuel) (task t) h meta chunks g
        ≡ ok (reads h meta chunks, with_state h (awaited t) g)
  unfolding read_chunks after_next
  read-pauses fuel t id h meta chunks g o =
      ap (after_next deserialize (read_chunks deserialize fuel (task t) h meta) h meta chunks)
        (poll-awaited t id h g o)

  pub poll-opened :
      (t id h : ℕ) (raw : Bytes) (meta : Meta) (g : Guest)
      → IsOpen id h (awaited t) g
      → deserialize raw ≡ some meta
      → (g' : Guest) × (poll_streamed deserialize
            (task t)
            (opens h, woken id 0 (some raw) h (awaited t) g)
          ≡ ok (reads h meta [], g'))
        × IsOpen id h (awaited t) g'
  unfolding poll_streamed after_open
  poll-opened t id h raw meta g o d =
      let g1 = with_state h (awaited t) (woken id 0 (some raw) h (awaited t) g) in
      let o1 = woken-IsOpen t id (some raw) h g o in
      let parsed : after_open deserialize (task t) h (ready (some raw), g1)
          ≡ read_chunks deserialize poll_limit (task t) h meta [] g1 =
        rw d refl in
      (
        with_state h (awaited t) g1,
        ap (after_open deserialize (task t) h) (wakeup-awaited t id 0 (some raw) h g o).1
            ∙ parsed
            ∙ read-pauses 1 t id h meta [] g1 o1,
        with_state-IsOpen id h (awaited t) (awaited t) g1 o1,
      )

  pub poll-chunk :
      (t id h : ℕ) (chunk : Bytes) (meta : Meta) (chunks : List Bytes) (g : Guest)
      → IsOpen id h (awaited t) g
      → (g' : Guest) × (poll_streamed deserialize
            (task t)
            (reads h meta chunks, woken id 0 (some chunk) h (awaited t) g)
          ≡ ok (reads h meta (chunks ++ chunk ∷ []), g'))
        × IsOpen id h (awaited t) g'
  unfolding poll_streamed read_chunks after_next
  poll-chunk t id h chunk meta chunks g o =
      let g1 = with_state h (awaited t) (woken id 0 (some chunk) h (awaited t) g) in
      let o1 = woken-IsOpen t id (some chunk) h g o in
      (
        with_state h (awaited t) g1,
        ap (after_next deserialize (read_chunks deserialize 1 (task t) h meta) h meta chunks)
              (wakeup-awaited t id 0 (some chunk) h g o).1
            ∙ read-pauses 0 t id h meta (chunks ++ chunk ∷ []) g1 o1,
        with_state-IsOpen id h (awaited t) (awaited t) g1 o1,
      )

  pub poll-closed :
      (t id h : ℕ) (meta : Meta) (chunks : List Bytes) (g : Guest)
      → IsOpen id h (awaited t) g
      → (g' : Guest) × (poll_streamed deserialize
            (task t)
            (reads h meta chunks, woken id 1 none h (awaited t) g)
          ≡ ok (closed meta chunks, g'))
        × (g'.pending_async id ≡ none)
  unfolding poll_streamed read_chunks after_next
  poll-closed t id h meta chunks g o = (
    with_state h (awaited t) (woken id 1 none h (awaited t) g),
    ap (after_next deserialize (read_chunks deserialize 1 (task t) h meta) h meta chunks)
        (wakeup-awaited t id 1 none h g o).1,
    put-same id none g.pending_async,
  )

  deliver-chunks :
      (t id h : ℕ) (meta : Meta) (chunks : List Bytes) (rest : List Bytes) (g : Guest)
      → IsOpen id h (awaited t) g
      → (g' : Guest) × (deliver
            (poll_streamed deserialize)
            t
            (stream_chunks id (map some rest)).0
            (reads h meta chunks, g)
          ≡ ok (closed meta (chunks ++ rest), g'))
        × (g'.pending_async id ≡ none)
  unfolding stream_chunks deliver
  deliver-chunks t id h meta chunks [] g o =
      let (g1, e1, gone) = poll-closed t id h meta chunks g o in
      (
        g1,
        deliver-cons (poll_streamed deserialize) t h (message id none true) [] (reads h meta chunks)
              g o
            ∙ ap (λ x. x >>= deliver (poll_streamed deserialize) t []) e1
            ∙ rw append-nil refl,
        gone,
      )
  deliver-chunks t id h meta chunks (chunk ∷ rest) g o =
      let (g1, e1, o1) = poll-chunk t id h chunk meta chunks g o in
      let (g2, e2, gone) = deliver-chunks t id h meta (chunks ++ chunk ∷ []) rest g1 o1 in
      let later = (stream_chunks id (map some rest)).0 in
      (
        g2,
        deliver-cons (poll_streamed deserialize) t h (message id (some chunk) false) later
              (reads h meta chunks) g o
            ∙ ap (λ x. x >>= deliver (poll_streamed deserialize) t later) e1
            ∙ e2
            ∙ rw append_assoc refl,
        gone,
      )

  -- A streamed request that the API server answers with metadata `meta` and unbroken chunks: the
  -- task that has made it, and then always waits for the next chunk, gets the metadata and each
  -- chunk once, in order, and then the end of the stream; nothing panics on the way, and two polls
  -- in a row are enough. The request is no longer registered.
  pub execute_request_stream-closed :
      {Req : Type 0} (t id : ℕ) (req : Req) (a : Answer) (g : Guest) (chunks : List Bytes)
      {raw : Bytes} {meta : Meta}
      → a.meta ≡ some raw
      → deserialize raw ≡ some meta
      → a.body ≡ map some chunks
      → (g' : Guest) × ((execute_request_stream deserialize (task t) id g
            >>= deliver (poll_streamed deserialize) t (run_request id (http_stream req) (some a)).0)
          ≡ ok (closed meta chunks, g'))
        × (g'.pending_async id ≡ none)
  unfolding run_request send_meta
  execute_request_stream-closed t id req a g chunks {raw} {meta} m d b =
      let (g1, e1, o1) = opens-awaits t id g in
      let (g2, e2, o2) = poll-opened t id g.next raw meta g1 o1 d in
      let (g3, e3, gone) = deliver-chunks t id g.next meta [] chunks g2 o2 in
      let later = (stream_chunks id (map some chunks)).0 in
      (
        g3,
        ap
              (λ x.
                x
                >>= deliver (poll_streamed deserialize) t
                    (run_request id (http_stream req) (some a)).0)
              e1
            ∙ rw (m, b)
                (deliver-cons (poll_streamed deserialize) t g.next (message id (some raw) false)
                    later (opens g.next) g1 o1
                  ∙ ap (λ x. x >>= deliver (poll_streamed deserialize) t later) e2
                  ∙ e3),
        gone,
      )
