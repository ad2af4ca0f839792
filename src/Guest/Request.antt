-- ===== src/Guest/Request.antt =====
-- requestor.rs and delay.rs: the futures of a plain request, of a streamed one and of a delay, and
-- the run of the task that awaits one when a result arrives.
use wasm_operator.Base.{
  zero, ℕ, suc, ◌+◌, ◌*◌, ◌%◌, ◌^◌, ◌/◌, Option, none, some, List, [], ◌∷◌, ◌++◌, ◌==◌,
  if◌then◌else◌,
}
use wasm_operator.Base.Outcome.{Outcome, ok, panicked, out_of_fuel, ◌>>=◌, Poll, ready, pending}
use wasm_operator.Abi.Command.{Bytes, AsyncResult}
use wasm_operator.Guest.{Guest, Waker, noop_waker, task, start_async, wakeup, poll}

-- `Duration::as_millis() as u64`, of a duration in seconds and nanoseconds.
unfoldable pub as_millis : ℕ → ℕ → ℕ
as_millis secs nanos = (secs * 1000 + nanos / 1_000_000) % 2 ^ 64

-- The run of one task, whose future has the states `F`, as results arrive.
module _ {F : Type 0} (poll_future : Waker → F × Guest → Outcome (F × Guest)) where
  -- `run_until_stalled` for this task: it is polled if it has been woken.
  unfoldable pub run_until_stalled : ℕ → Waker → F × Guest → Outcome (F × Guest)
  run_until_stalled t (task woken) x = if woken == t then poll_future (task t) x else ok x
  run_until_stalled t noop_waker x = ok x

  -- The exported `wakeup`, once for each result.
  unfoldable pub deliver : ℕ → List AsyncResult → F × Guest → Outcome (F × Guest)
  deliver t [] x = ok x
  deliver t (m ∷ rest) (future, g) = do
    (waker, g') ← wakeup m.async_request_id (if m.finished then 1 else 0) m.value g
    x ← run_until_stalled t waker (future, g')
    deliver t rest x

-- The future of `execute_request`, between two polls. `Meta` is `HttpResponseMeta`.
pub data Plain (Meta : Type 0) : Type 0 where
  awaits_meta : ℕ → Plain Meta
  awaits_body : ℕ → Meta → Plain Meta
  responded : Meta → Bytes → Plain Meta

-- What the code does with the value of a future that it awaits: `unwrap`.
abbrev pub unwrap {ℓ} : {A : Type ℓ} → Option A → Outcome A
unwrap none = panicked
unwrap (some a) = ok a

module _ {Meta : Type 0} (deserialize : Bytes → Option Meta) where
  -- `abi_async.await.unwrap()`, with what the poll of `abi_async` has given.
  unfoldable pub after_body : ℕ → Meta → Poll (Option Bytes) × Guest → Outcome (Plain Meta × Guest)
  after_body h meta (pending, g) = ok (awaits_body h meta, g)
  after_body h meta (ready value, g) = do body ← unwrap value; ok (responded meta body, g)

  unfoldable pub poll_body : Waker → ℕ → Meta → Guest → Outcome (Plain Meta × Guest)
  poll_body waker h meta g = after_body h meta (poll waker h g)

  -- `abi_async.clone().await.unwrap()`, and what follows it.
  unfoldable pub after_meta : Waker → ℕ → Poll (Option Bytes) × Guest → Outcome (Plain Meta × Guest)
  after_meta waker h (pending, g) = ok (awaits_meta h, g)
  after_meta waker h (ready value, g) = do
    response_raw ← unwrap value
    response ← unwrap (deserialize response_raw)
    poll_body waker h response g

  unfoldable pub poll_meta : Waker → ℕ → Guest → Outcome (Plain Meta × Guest)
  poll_meta waker h g = after_meta waker h (poll waker h g)

  unfoldable pub poll_plain : Waker → Plain Meta × Guest → Outcome (Plain Meta × Guest)
  poll_plain waker (awaits_meta h, g) = poll_meta waker h g
  poll_plain waker (awaits_body h meta, g) = poll_body waker h meta g
  poll_plain waker (responded meta body, g) = ok (responded meta body, g)

  -- `execute_request` up to the first pause, once the host has returned the identifier.
  unfoldable pub execute_request : Waker → ℕ → Guest → Outcome (Plain Meta × Guest)
  execute_request waker async_request_id g =
      let (h, g') = start_async async_request_id g in poll_meta waker h g'

-- A state holds one value, so that the second poll in a row is pending.
abbrev pub poll_limit : ℕ
poll_limit = 2

-- A task that calls `execute_request_stream` and then takes chunks until the stream ends.
pub data Streamed (Meta : Type 0) : Type 0 where
  opens : ℕ → Streamed Meta
  reads : ℕ → Meta → List Bytes → Streamed Meta
  closed : Meta → List Bytes → Streamed Meta

module _ {Meta : Type 0} (deserialize : Bytes → Option Meta) where
  -- `while let Some(chunk) = stream.next().await`, with what the poll of the stream has given.
  unfoldable pub after_next :
      (List Bytes → Guest → Outcome (Streamed Meta × Guest))
      → ℕ
      → Meta
      → List Bytes
      → Poll (Option Bytes) × Guest
      → Outcome (Streamed Meta × Guest)
  after_next again h meta chunks (pending, g) = ok (reads h meta chunks, g)
  after_next again h meta chunks (ready none, g) = ok (closed meta chunks, g)
  after_next again h meta chunks (ready (some chunk), g) = again (chunks ++ chunk ∷ []) g

  unfoldable pub read_chunks :
      ℕ → Waker → ℕ → Meta → List Bytes → Guest → Outcome (Streamed Meta × Guest)
  read_chunks zero waker h meta chunks g = out_of_fuel
  read_chunks (suc fuel) waker h meta chunks g =
      after_next (read_chunks fuel waker h meta) h meta chunks (poll waker h g)

  unfoldable pub after_open :
      Waker → ℕ → Poll (Option Bytes) × Guest → Outcome (Streamed Meta × Guest)
  after_open waker h (pending, g) = ok (opens h, g)
  after_open waker h (ready value, g) = do
    response_raw ← unwrap value
    response ← unwrap (deserialize response_raw)
    read_chunks poll_limit waker h response [] g

  unfoldable pub poll_streamed : Waker → Streamed Meta × Guest → Outcome (Streamed Meta × Guest)
  poll_streamed waker (opens h, g) = after_open waker h (poll waker h g)
  poll_streamed waker (reads h meta chunks, g) = read_chunks poll_limit waker h meta chunks g
  poll_streamed waker (closed meta chunks, g) = ok (closed meta chunks, g)

  unfoldable pub execute_request_stream : Waker → ℕ → Guest → Outcome (Streamed Meta × Guest)
  execute_request_stream waker async_request_id g =
      let (h, g') = start_async async_request_id g in after_open waker h (poll waker h g')
