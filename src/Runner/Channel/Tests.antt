-- ===== src/Runner/Channel/Tests.antt =====
-- A run of the channel of runner.rs: a delay and a plain request.
use wasm_operator.Base.{
  ℕ, suc, ◌≤◌, true, false, none, some, List, [], ◌∷◌, ◌++◌, ◌≡◌, refl, arith, length,
}
use wasm_operator.Abi.Command.{http, delay}
use wasm_operator.Runner.{Answer, op_ok, message, to_bytes, run_request, send_meta, send_body}
use wasm_operator.Runner.Channel.{
  channel_size, Begun, Channel, begin, send, send_next, complete, end_if, poll_recv, take_first,
  Run, initial, begins, sends, completes, receives, made_ids,
}
use wasm_operator.Runner.Channel.Order.{of_id, Distinct, all_unsent}
use wasm_operator.Runner.Channel.Delivery.{Run-results}
use wasm_operator.Runner.Channel.Ends.{Move, work, Move-ends}

abbrev answer : Answer
answer = record { meta = some (200 ∷ []); body = some (1 ∷ 2 ∷ []) ∷ some (3 ∷ []) ∷ [] }

abbrev a_request : ℕ
a_request = 8

abbrev a_delay : Begun ℕ
a_delay = record { async_request_id = 0; request = delay 5; answer = none }

abbrev a_web_call : Begun ℕ
a_web_call = record { async_request_id = 1; request = http a_request; answer = some answer }

abbrev two_requests : List (Begun ℕ)
two_requests = a_delay ∷ a_web_call ∷ []

-- The metadata of the web call have been received, and the delay is over.
abbrev waiting : Channel
waiting = record {
  pending_ops =
      record {
        async_request_id = 1;
        unsent = message 1 (some (1 ∷ 2 ∷ 3 ∷ [])) true ∷ [];
        result = op_ok true;
      }
      ∷ [];
  queue = message 0 none true ∷ [];
}

waiting-Run : Run two_requests (message 1 (some (200 ∷ [])) false ∷ []) waiting
unfolding begin run_request send_meta send_body to_bytes send send_next complete end_if poll_recv
    take_first
waiting-Run =
    completes
      (receives (sends (sends (begins (begins initial a_delay) a_web_call) 1 refl) 0 refl)
        (message 1 (some (200 ∷ [])) false) refl)
      0 (op_ok false) refl

two_requests-Distinct : Distinct (made_ids two_requests)
two_requests-Distinct = (((λ e. omega (arith, e)), tt), (tt, tt))

Run-results_example :
    (of_id 1 (
        message 1 (some (200 ∷ [])) false ∷ [] ++ (waiting.queue ++ all_unsent waiting.pending_ops))
      ≡ (run_request 1 (http a_request) (some answer)).0)
    × (length waiting.queue ≤ channel_size)
Run-results_example = Run-results waiting-Run two_requests-Distinct 1 {b = a_web_call} refl

Move-ends_example :
    ((c' : Channel) → Move waiting c' → work waiting ≡ suc (work c'))
    × (((c' : Channel) → ¬ Move waiting c') → (waiting.pending_ops ≡ []) × (waiting.queue ≡ []))
Move-ends_example = Move-ends waiting
