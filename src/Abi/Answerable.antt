-- ===== src/Abi/Answerable.antt =====
-- The calls of the host functions of abi/mod.rs that are answered, and those that panic.
use wasm_operator.Base.{
  ◌==◌, Bool, true, false, Option, none, some, List, [], ◌∷◌, ◌≡◌, refl, All, inl, inr, Bool-cases,
  if◌then◌else◌,
}
use mathlib.Core.Logic.{◌⊎◌}
use wasm_operator.Base.Outcome.{Outcome, ok, panicked, Returns, returns}
use wasm_operator.Abi.Command.{Bytes, http, http_stream}
use wasm_operator.Abi.{
  RequestCodec, ControllerCtx, HostCall, request_call, delay_call, slice, register, eager_poll,
  hand_over, abi_request, abi_delay, host_call, host_calls,
}

module _ {Req : Type 0} (codec : RequestCodec Req) where
  abbrev HasPath : Option Req → Type 0
  HasPath none = ⊥
  HasPath (some req) = codec.has_path req ≡ true

  abbrev IsRequest : Option Bytes → Type 0
  IsRequest none = ⊥
  IsRequest (some inner_req_bytes) = HasPath (codec.decode inner_req_bytes)

  -- The bytes lie in the memory, they are those of a request, and its URI has a path.
  abbrev pub IsAnswerable : HostCall → Type 0
  IsAnswerable (delay_call millis) = Unit
  IsAnswerable (request_call memory ptr size stream) = IsRequest (slice memory ptr size)

  -- A result where `P` holds, and a panic where it does not.
  abbrev pub Answers : {A : Type 0} → Type 0 → Outcome A → Type 0
  Answers P r = (P × ((a : _) × (r ≡ ok a))) ⊎ ((P → ⊥) × (r ≡ panicked))

  hand_over-Answers :
      (req : Req) (stream : Bool) (ctx : ControllerCtx)
      → Answers
          (codec.has_path req ≡ true)
          (hand_over codec (if stream then http req else http_stream req) ctx)
  unfolding hand_over eager_poll
  hand_over-Answers req true ctx = elim (Bool-cases (codec.has_path req)) [
    | inl y ↦ inl (y, (register (http req) ctx, rw y refl))
    | inr n ↦ inr (λ y. cc, rw n refl)
  ]
  hand_over-Answers req false ctx = elim (Bool-cases (codec.has_path req)) [
    | inl y ↦ inl (y, (register (http_stream req) ctx, rw y refl))
    | inr n ↦ inr (λ y. cc, rw n refl)
  ]

  host_call-Answers :
      (call : HostCall) (ctx : ControllerCtx)
      → Answers (IsAnswerable call) (host_call codec call ctx)
  unfolding host_call abi_request abi_delay hand_over eager_poll
  host_call-Answers (delay_call millis) ctx = inl (tt, (_, refl))
  host_call-Answers (request_call memory ptr size stream) ctx = sliced (slice memory ptr size)
    where
      decoded :
          (x : Option Req)
          → Answers (HasPath x) (elim x [
            | none ↦ panicked
            | some req ↦ hand_over codec (if stream == 0 then http req else http_stream req) ctx
          ])
      decoded none = inr (λ h. h, refl)
      decoded (some req) = hand_over-Answers req (stream == 0) ctx

      sliced :
          (x : Option Bytes)
          → Answers (IsRequest x) (elim x [
            | none ↦ panicked
            | some inner_req_bytes ↦ elim (codec.decode inner_req_bytes) [
              | none ↦ panicked
              | some req ↦ hand_over codec (if stream == 0 then http req else http_stream req) ctx
            ]
          ])
      sliced none = inr (λ h. h, refl)
      sliced (some bytes) = decoded (codec.decode bytes)

  pub host_calls-Answers :
      (calls : List HostCall) (ctx : ControllerCtx)
      → Answers (All IsAnswerable calls) (host_calls codec calls ctx)
  unfolding host_calls
  host_calls-Answers [] ctx = inl (tt, (_, refl))
  host_calls-Answers (call ∷ calls) ctx = elim (host_call-Answers call ctx) [
    | inr (refused, e) ↦ inr (λ all. refused all.0, rw e refl)
    | inl (y, ((ctx1, op), e)) ↦ elim (host_calls-Answers calls ctx1) [
      | inr (refused, e') ↦ inr (λ all. refused all.1, rw (e, e') refl)
      | inl (ys, ((ctx2, ops), e')) ↦ inl ((y, ys), ((ctx2, op ∷ ops), rw (e, e') refl))
    ]
  ]

  pub host_calls-Returns :
      (calls : List HostCall) (ctx : ControllerCtx)
      → All IsAnswerable calls
      → Returns (λ (x : _). Unit {0}) (host_calls codec calls ctx)
  host_calls-Returns calls ctx all = elim (host_calls-Answers calls ctx) [
    | inl (y, (x, e)) ↦ rw e (returns tt)
    | inr (refused, e) ↦ elim (refused all) [ ]
  ]
