-- ===== src/Abi/Ids.antt =====
-- The identifiers that the host functions of abi/mod.rs give to requests.
use wasm_operator.Base.{
  ap, ◌∙◌, get_elem?, drop, take, length-drop, length-take, ℕ, zero, suc, ◌+◌, ◌%◌, ◌≤◌, ◌<◌,
  Option, none, some, ◌==◌, if◌then◌else◌, List, [], ◌∷◌, ◌≡◌, ◌≢◌, refl, arith, length,
}
use wasm_operator.Base.Outcome.{Outcome, ok, failed, panicked, out_of_fuel, ◌>>=◌, bind-ok}
use wasm_operator.Runner.{PendingOp, u64_mod}
use wasm_operator.Abi.Command.{Bytes, AsyncRequestValue, http, http_stream, delay}
use wasm_operator.Abi.{
  RequestCodec, u32_mod, ControllerCtx, register, slice, HostCall, request_call, delay_call,
  host_call, host_calls, eager_poll, hand_over, abi_request, abi_delay,
}

-- `first`, `first + 1` and so on, wrapping at the width of the counter.
abbrev pub Counts : {Req : Type 0} → ℕ → List (PendingOp Req) → Type 0
Counts first [] = Unit
Counts first (op ∷ ops) = (op.async_request_id ≡ first) × Counts ((first + 1) % u64_mod) ops

abbrev IsNumbered : {Req : Type 0} → ControllerCtx → ControllerCtx → PendingOp Req → Type 0
IsNumbered ctx ctx' op =
    (op.async_request_id ≡ ctx.async_request_id_counter)
    × (ctx'.async_request_id_counter ≡ (ctx.async_request_id_counter + 1) % u64_mod)
    × (ctx'.async_client_id ≡ ctx.async_client_id)

hand_over-id :
    {Req : Type 0} (codec : RequestCodec Req) (request : AsyncRequestValue Req)
    (ctx : ControllerCtx) {ctx' : ControllerCtx} {op : PendingOp Req}
    → hand_over codec request ctx ≡ ok (ctx', op)
    → IsNumbered ctx ctx' op
unfolding hand_over register
hand_over-id codec request ctx h =
    let (polled, e, same) = bind-ok (eager_poll codec request) _ h in ground (arith, same)

host_call-id :
    {Req : Type 0} (codec : RequestCodec Req) (call : HostCall) (ctx : ControllerCtx)
    {ctx' : ControllerCtx} {op : PendingOp Req}
    → host_call codec call ctx ≡ ok (ctx', op)
    → IsNumbered ctx ctx' op
unfolding host_call abi_request abi_delay
host_call-id codec (delay_call millis) ctx h = hand_over-id codec (delay millis) ctx h
host_call-id {Req} codec (request_call memory ptr size stream) ctx {ctx'} {op} h =
    sliced (slice memory ptr size) h
  where
    decoded :
        (x : Option Req)
        → (elim x [
          | none ↦ panicked
          | some req ↦ hand_over codec (if stream == 0 then http req else http_stream req) ctx
        ])
          ≡ ok (ctx', op)
        → IsNumbered ctx ctx' op
    decoded none e = cc
    decoded (some req) e =
        hand_over-id codec (if stream == 0 then http req else http_stream req) ctx e

    sliced :
        (x : Option Bytes)
        → (elim x [
          | none ↦ panicked
          | some inner_req_bytes ↦ elim (codec.decode inner_req_bytes) [
            | none ↦ panicked
            | some req ↦ hand_over codec (if stream == 0 then http req else http_stream req) ctx
          ]
        ])
          ≡ ok (ctx', op)
        → IsNumbered ctx ctx' op
    sliced none e = cc
    sliced (some bytes) e = decoded (codec.decode bytes) e

-- The whole of a run: its identifiers count up from the counter, which ends behind them.
pub record Numbered {Req : Type 0} (ctx ctx' : ControllerCtx) (ops : List (PendingOp Req))
    : Type 0 where
  pub counts : Counts ctx.async_request_id_counter ops
  pub counter :
      ctx'.async_request_id_counter % u64_mod
      ≡ (ctx.async_request_id_counter + length ops) % u64_mod
  pub client : ctx'.async_client_id ≡ ctx.async_client_id

abbrev AllNumbered :
    {Req : Type 0} → ControllerCtx → Outcome (ControllerCtx × List (PendingOp Req)) → Type 0
AllNumbered ctx (ok (ctx', ops)) = Numbered ctx ctx' ops
AllNumbered ctx failed = Unit
AllNumbered ctx panicked = Unit
AllNumbered ctx out_of_fuel = Unit

host_calls-AllNumbered :
    {Req : Type 0} (codec : RequestCodec Req) (calls : List HostCall) (ctx : ControllerCtx)
    → AllNumbered ctx (host_calls codec calls ctx)
unfolding host_calls
host_calls-AllNumbered codec [] ctx = record { counts = tt; counter = omega arith; client = refl }
host_calls-AllNumbered {Req} codec (call ∷ calls) ctx =
    first (host_call codec call ctx) refl (host_calls-AllNumbered codec calls)
  where
    rest :
        (ctx1 : ControllerCtx) (op : PendingOp Req)
        (x : Outcome (ControllerCtx × List (PendingOp Req)))
        → host_call codec call ctx ≡ ok (ctx1, op)
        → AllNumbered ctx1 x
        → AllNumbered ctx (x >>= λ y. ok (y.0, op ∷ y.1))
    rest ctx1 op (ok (ctx2, ops)) e n =
        let (id, next, client) = host_call-id codec call ctx e in
        record {
          counts = (id, rw (← next) n.counts);
          counter = omega (arith, n.counter, next);
          client = n.client ∙ client;
        }
    rest ctx1 op failed e n = tt
    rest ctx1 op panicked e n = tt
    rest ctx1 op out_of_fuel e n = tt

    first :
        (x : Outcome (ControllerCtx × PendingOp Req))
        → host_call codec call ctx ≡ x
        → ((ctx1 : ControllerCtx) → AllNumbered ctx1 (host_calls codec calls ctx1))
        → AllNumbered ctx (x >>= λ y. host_calls codec calls y.0 >>= λ z. ok (z.0, y.1 ∷ z.1))
    first (ok (ctx1, op)) e ih = rest ctx1 op (host_calls codec calls ctx1) e (ih ctx1)
    first failed e ih = tt
    first panicked e ih = tt
    first out_of_fuel e ih = tt

Counts-get_elem? :
    {Req : Type 0} (first : ℕ) (ops : List (PendingOp Req)) (i : ℕ) {op : PendingOp Req}
    → Counts first ops
    → get_elem? ops i ≡ some op
    → op.async_request_id % u64_mod ≡ (first + i) % u64_mod
Counts-get_elem? first [] i h e = cc
Counts-get_elem? first (o ∷ ops) zero h e = ground (arith, h.0)
Counts-get_elem? first (o ∷ ops) (suc i) h e =
    omega (arith, Counts-get_elem? ((first + 1) % u64_mod) ops i h.1 e)

-- The calls that an operator makes in one run get identifiers that differ, unless there are 2^64
-- calls between them; the client's identifier stays as it is.
pub host_calls-distinct :
    {Req : Type 0} (codec : RequestCodec Req) (calls : List HostCall) (ctx : ControllerCtx)
    {ctx' : ControllerCtx} {ops : List (PendingOp Req)} (i j : ℕ) {a b : PendingOp Req}
    → host_calls codec calls ctx ≡ ok (ctx', ops)
    → get_elem? ops i ≡ some a
    → get_elem? ops j ≡ some b
    → i < j
    → j < i + u64_mod
    → (a.async_request_id ≢ b.async_request_id) × (ctx'.async_client_id ≡ ctx.async_client_id)
host_calls-distinct codec calls ctx {ctx'} {ops} i j {a} {b} e p q lt near = (
  λ same. absurd (
      omega (
        arith,
        Counts-get_elem? ctx.async_request_id_counter ops i n.counts p,
        Counts-get_elem? ctx.async_request_id_counter ops j n.counts q,
        ap (λ (x : ℕ). x % u64_mod) same,
      )),
  n.client,
)
  where
    n : Numbered ctx ctx' ops
    n = rw e at (host_calls-AllNumbered codec calls ctx)

-- The bytes that the host reads for a request lie within the operator's memory, at the place and of
-- the length that it gave; a sum of the two that wraps is no such place.
pub slice_bounds :
    (memory : Bytes) (ptr size : ℕ) {bytes : Bytes}
    → ptr < u32_mod
    → size < u32_mod
    → slice memory ptr size ≡ some bytes
    → (ptr + size ≤ length memory)
      × (length bytes ≡ size)
      × (bytes ≡ drop ptr (take (ptr + size) memory))
unfolding slice
slice_bounds memory ptr size p s h =
    ground (arith, length-drop ptr (take (ptr + size) memory), length-take (ptr + size) memory)
