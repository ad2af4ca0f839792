-- ===== src/Guest/Many/Tests.antt =====
-- Two requests of one operator, whose results are mixed.
use wasm_operator.Base.{
  ℕ, zero, suc, ◌<◌, true, false, Option, none, some, List, [], ◌∷◌, map, ◌≡◌, refl, arith, ltb,
  if◌then◌else◌,
}
use wasm_operator.Base.Outcome.{ok}
use wasm_operator.Abi.Command.{Bytes, AsyncResult, http, http_stream}
use wasm_operator.Runner.{
  Answer, op_ok, message, to_bytes, run_request, send_meta, send_body, stream_chunks,
}
use wasm_operator.Guest.{Guest}
use wasm_operator.Guest.Mailbox.{IsOpen, awaited}
use wasm_operator.Guest.Request.{
  Plain, awaits_meta, responded, poll_plain, Streamed, opens, closed, poll_streamed,
}
use wasm_operator.Guest.Many.{deliver_all}
use wasm_operator.Guest.Many.Plain.{deliver_all-responded}
use wasm_operator.Guest.Many.Streamed.{deliver_all-closed}
use wasm_operator.Guest.Many.Served.{list_of, web_call, Run-responded}
use wasm_operator.Runner.Channel.{
  Begun, new_channel, begin, send, send_next, complete, end_if, poll_recv, take_first, Run, initial,
  begins, sends, completes, receives,
}
use wasm_operator.Runner.Channel.Order.{of_id}

abbrev same_number : ℕ → ℕ
same_number t = t

abbrev a_request : ℕ → ℕ
a_request t = 8

abbrev first_byte : Bytes → Option ℕ
first_byte [] = none
first_byte (b ∷ bytes) = some b

abbrev raws : ℕ → Bytes
raws zero = 200 ∷ []
raws (suc t) = 404 ∷ []

abbrev bodies : ℕ → Bytes
bodies zero = 1 ∷ 2 ∷ 3 ∷ []
bodies (suc t) = []

abbrev metas : ℕ → ℕ
metas zero = 200
metas (suc t) = 404

abbrev answers : ℕ → Answer
answers zero = record { meta = some (200 ∷ []); body = some (1 ∷ 2 ∷ []) ∷ some (3 ∷ []) ∷ [] }
answers (suc t) = record { meta = some (404 ∷ []); body = [] }

abbrev two_waiting : Guest
two_waiting = record {
  states = λ h. awaited h;
  next = 2;
  pending_async = λ id. if ltb id 2 then some id else none;
}

abbrev mixed : List AsyncResult
mixed =
    message 1 (some (404 ∷ [])) false
    ∷ message 0 (some (200 ∷ [])) false
    ∷ message 0 (some (1 ∷ 2 ∷ 3 ∷ [])) true
    ∷ message 1 (some []) true
    ∷ []

answered :
    (t : ℕ)
    → t < 2
    → ((answers t).meta ≡ some (raws t))
      × (first_byte (raws t) ≡ some (metas t))
      × (to_bytes (answers t).body ≡ some (bodies t))
unfolding to_bytes
answered zero lt = (refl, refl, refl)
answered (suc t) lt = (refl, refl, refl)

two_waiting-IsOpen :
    (t : ℕ) → t < 2 → IsOpen (same_number t) (same_number t) (awaited t) two_waiting
two_waiting-IsOpen t lt = record { registered = ground (arith, lt); state = refl }

mixed-results :
    (t : ℕ)
    → t < 2
    → of_id (same_number t) mixed
      ≡ (run_request (same_number t) (http (a_request t)) (some (answers t))).0
unfolding run_request send_meta send_body to_bytes
mixed-results zero lt = refl
mixed-results (suc zero) lt = refl
mixed-results (suc (suc t)) lt = absurd (omega (arith, lt))

deliver_all-responded_example :
    (fs : ℕ → Plain ℕ) × (g' : Guest) × (deliver_all
        (poll_plain first_byte)
        mixed
        ((λ t. awaits_meta (same_number t)), two_waiting)
      ≡ ok (fs, g'))
    × ((t : ℕ) → t < 2 → fs t ≡ responded (metas t) (bodies t))
deliver_all-responded_example =
    deliver_all-responded first_byte 2 same_number same_number a_request answers raws bodies metas
      mixed two_waiting (λ j k lt lt' e. e) (λ j k lt lt' e. e) answered two_waiting-IsOpen
      (
        (1, omega arith, refl),
        ((0, omega arith, refl), ((0, omega arith, refl), ((1, omega arith, refl), tt))),
      )
      mixed-results

-- The host's side: both operations send, end, and their results are received.
abbrev calls : ℕ → Begun ℕ
calls t = web_call same_number a_request answers t

mixed-Run : Run (list_of calls 2) mixed new_channel
unfolding begin run_request send_meta send_body to_bytes send send_next complete end_if poll_recv
    take_first
mixed-Run =
    let started = begins (begins initial (calls 0)) (calls 1) in
    let all_sent = sends (sends (sends (sends started 1 refl) 0 refl) 0 refl) 1 refl in
    let all_ended = completes (completes all_sent 0 (op_ok true) refl) 0 (op_ok true) refl in
    receives
      (receives
        (receives (receives all_ended (message 1 (some (404 ∷ [])) false) refl)
          (message 0 (some (200 ∷ [])) false) refl)
        (message 0 (some (1 ∷ 2 ∷ 3 ∷ [])) true) refl)
      (message 1 (some []) true) refl

Run-responded_example :
    (fs : ℕ → Plain ℕ) × (g' : Guest) × (deliver_all
        (poll_plain first_byte)
        mixed
        ((λ t. awaits_meta (same_number t)), two_waiting)
      ≡ ok (fs, g'))
    × ((t : ℕ) → t < 2 → fs t ≡ responded (metas t) (bodies t))
Run-responded_example =
    Run-responded first_byte 2 same_number same_number a_request answers raws bodies metas mixed
      new_channel two_waiting (λ j k lt lt' e. e) (λ j k lt lt' e. e) answered two_waiting-IsOpen
      mixed-Run refl refl

-- The same answers, for streamed requests.
abbrev chunks : ℕ → List Bytes
chunks zero = (1 ∷ 2 ∷ []) ∷ (3 ∷ []) ∷ []
chunks (suc t) = []

abbrev mixed_chunks : List AsyncResult
mixed_chunks =
    message 1 (some (404 ∷ [])) false
    ∷ message 0 (some (200 ∷ [])) false
    ∷ message 0 (some (1 ∷ 2 ∷ [])) false
    ∷ message 1 none true
    ∷ message 0 (some (3 ∷ [])) false
    ∷ message 0 none true
    ∷ []

answered_in_chunks :
    (t : ℕ)
    → t < 2
    → ((answers t).meta ≡ some (raws t))
      × (first_byte (raws t) ≡ some (metas t))
      × ((answers t).body ≡ map some (chunks t))
answered_in_chunks zero lt = (refl, refl, refl)
answered_in_chunks (suc t) lt = (refl, refl, refl)

mixed_chunks-results :
    (t : ℕ)
    → t < 2
    → of_id (same_number t) mixed_chunks
      ≡ (run_request (same_number t) (http_stream (a_request t)) (some (answers t))).0
unfolding run_request send_meta stream_chunks
mixed_chunks-results zero lt = refl
mixed_chunks-results (suc zero) lt = refl
mixed_chunks-results (suc (suc t)) lt = absurd (omega (arith, lt))

deliver_all-closed_example :
    (fs : ℕ → Streamed ℕ) × (g' : Guest) × (deliver_all
        (poll_streamed first_byte)
        mixed_chunks
        ((λ t. opens (same_number t)), two_waiting)
      ≡ ok (fs, g'))
    × ((t : ℕ) → t < 2 → fs t ≡ closed (metas t) (chunks t))
deliver_all-closed_example =
    deliver_all-closed first_byte 2 same_number same_number a_request answers raws chunks metas
      mixed_chunks two_waiting (λ j k lt lt' e. e) (λ j k lt lt' e. e) answered_in_chunks
      two_waiting-IsOpen
      (
        (1, omega arith, refl),
        (
          (0, omega arith, refl),
          (
            (0, omega arith, refl),
            ((1, omega arith, refl), ((0, omega arith, refl), ((0, omega arith, refl), tt))),
          ),
        ),
      )
      mixed_chunks-results
