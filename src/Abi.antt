-- ===== src/Abi.antt =====
-- pkg/controller/src/abi/mod.rs: what crosses the border between the host and an operator, and
-- pkg/controller/src/runtime/controller_ctx.rs, the data of an operator's store.
pub mod Command
pub mod Ids
pub mod Answerable
pub mod Wakeup
pub mod OpCall
mod Tests
use wasm_operator.Base.{
  ℕ, zero, suc, ◌+◌, ◌%◌, ◌^◌, Bool, true, false, ◌&&◌, Option, none, some, List, [], ◌∷◌, ◌++◌,
  length, take, drop, leb, ◌==◌, if◌then◌else◌,
}
use wasm_operator.Base.Outcome.{Outcome, ok, failed, panicked, ◌>>=◌}
use wasm_operator.Runner.{PendingOp, u64_mod}
use Command.{Bytes, AsyncRequestValue, http, http_stream, delay}

abbrev pub u32_mod : ℕ
u32_mod = 2 ^ 32

-- `ControllerCtx`. Its WASI context does not change, and `ops_runner`, which it shares with the
-- event loop, is kept there: a host function returns the operation that it adds.
pub record ControllerCtx : Type 0 where
  pub async_client_id : ℕ
  pub async_request_id_counter : ℕ  -- AtomicU64

abbrev pub new_ctx : ℕ → ControllerCtx
new_ctx id = record { async_client_id = id; async_request_id_counter = 0 }

-- `fetch_add(1, SeqCst)` wraps; the operation that `handle_request` is called with.
unfoldable pub register :
    {Req : Type 0} → AsyncRequestValue Req → ControllerCtx → ControllerCtx × PendingOp Req
register request ctx = (
  record ctx { async_request_id_counter = (ctx.async_request_id_counter + 1) % u64_mod },
  record { async_request_id = ctx.async_request_id_counter; request = request },
)

-- `memory[(ptr as usize)..((ptr + size) as usize)]` with `ptr + size` in u32, as in a release
-- build: none where the slice panics.
unfoldable pub slice : Bytes → ℕ → ℕ → Option Bytes
slice memory ptr size =
    let end = (ptr + size) % u32_mod in
    if leb ptr end && leb end (length memory) then some (drop ptr (take end memory)) else none

-- A call that an operator makes while it runs, `request` with the memory as it then is.
pub data HostCall : Type 0 where
  request_call : Bytes → (ptr size stream : ℕ) → HostCall
  delay_call : ℕ → HostCall

-- What is used of the crates `bincode` and `http`: `bincode::deserialize`, with the conversion into
-- `http::Request`, and whether `request.uri().path_and_query()` is there.
pub record RequestCodec (Req : Type 0) : Type 0 where
  pub decode : Bytes → Option Req
  pub has_path : Req → Bool

module _ {Req : Type 0} (codec : RequestCodec Req) where
  -- The first poll of the operation, which `OpCall::eager` makes inside the host function:
  -- `path_and_query().unwrap()`. What it does else is a poll of the operation like any other.
  unfoldable pub eager_poll : AsyncRequestValue Req → Outcome (Unit {0})
  eager_poll (delay millis) = ok tt
  eager_poll (http req) = if codec.has_path req then ok tt else panicked
  eager_poll (http_stream req) = if codec.has_path req then ok tt else panicked

  -- The identifier, and `handle_request` with it.
  unfoldable pub hand_over :
      AsyncRequestValue Req → ControllerCtx → Outcome (ControllerCtx × PendingOp Req)
  unfolding eager_poll
  hand_over request ctx = do polled ← eager_poll request; ok (register request ctx)

  unfoldable pub abi_request :
      Bytes → ℕ → ℕ → ℕ → ControllerCtx → Outcome (ControllerCtx × PendingOp Req)
  abi_request memory ptr size stream ctx = elim (slice memory ptr size) [
    | none ↦ panicked
    | some inner_req_bytes ↦ elim (codec.decode inner_req_bytes) [
      | none ↦ panicked
      | some req ↦ hand_over (if stream == 0 then http req else http_stream req) ctx
    ]
  ]

  unfoldable pub abi_delay : ℕ → ControllerCtx → Outcome (ControllerCtx × PendingOp Req)
  abi_delay millis ctx = hand_over (delay millis) ctx

  unfoldable pub host_call : HostCall → ControllerCtx → Outcome (ControllerCtx × PendingOp Req)
  unfolding abi_request abi_delay
  host_call (request_call memory ptr size stream) ctx = abi_request memory ptr size stream ctx
  host_call (delay_call millis) ctx = abi_delay millis ctx

  -- All calls of one run, in order.
  unfoldable pub host_calls :
      List HostCall → ControllerCtx → Outcome (ControllerCtx × List (PendingOp Req))
  host_calls [] ctx = ok (ctx, [])
  host_calls (call ∷ calls) ctx = do
    (ctx1, op) ← host_call call ctx
    (ctx2, ops) ← host_calls calls ctx1
    ok (ctx2, op ∷ ops)
