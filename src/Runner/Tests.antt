-- ===== src/Runner/Tests.antt =====
-- Runs of the definitions of runner.rs.
use wasm_operator.Base.{
  ℕ, zero, suc, true, false, none, some, List, [], ◌∷◌, ◌≡◌, ◌⊎◌, refl, length,
}
use wasm_operator.Abi.Command.{http, http_stream, delay}
use wasm_operator.Runner.{
  Answer, PendingOp, op_ok, op_err, run_request, OpsRunner, new_runner, handle_requests,
  handle_request, Sweep, completes, waits, collect, message,
}
use wasm_operator.Runner.Messages.{SentBy, payload, run_request-SentBy, payload-http-http_stream}
use wasm_operator.Runner.WebCalls.{Collects, collect-Collects}

abbrev a_request : ℕ
a_request = 8

abbrev answer : Answer
answer = record { meta = some (200 ∷ []); body = some (1 ∷ 2 ∷ []) ∷ some (3 ∷ []) ∷ [] }

abbrev ops : List (PendingOp ℕ)
ops =
    record { async_request_id = 0; request = http 8 }
    ∷ record { async_request_id = 1; request = delay 100 }
    ∷ record { async_request_id = 2; request = http_stream 9 }
    ∷ []

abbrev three : OpsRunner ℕ
three = record { pending_ops = ops; have_unpolled_ops = true; nr_web_calls = 1 }

abbrev sweeps : ℕ → Sweep
sweeps zero = record {
  choice = completes 0 (some answer);
  recv = some (message 0 (some (200 ∷ [])) false);
}
sweeps (suc k) = record { choice = waits; recv = none }

three_made : handle_requests ops new_runner ≡ three
unfolding handle_requests handle_request
three_made = refl

plain_run :
    run_request 5 (http a_request) (some answer)
    ≡ (message 5 (some (200 ∷ [])) false ∷ message 5 (some (1 ∷ 2 ∷ 3 ∷ [])) true ∷ [], op_ok true)
unfolding run_request
plain_run = refl

run_request-SentBy_example :
    SentBy
      (run_request 5 (http_stream a_request) (some answer)).1
      (run_request 5 (http_stream a_request) (some answer)).0
run_request-SentBy_example = run_request-SentBy 5 (http_stream a_request) (some answer)

payload-http-http_stream_example :
    (((run_request 5 (http a_request) (some answer)).1 ≡ op_err)
      × ((run_request 5 (http_stream a_request) (some answer)).1 ≡ op_err))
    ⊎ (((run_request 5 (http a_request) (some answer)).1 ≡ op_ok true)
        × ((run_request 5 (http_stream a_request) (some answer)).1 ≡ op_ok false)
        × (payload (run_request 5 (http a_request) (some answer)).0
            ≡ payload (run_request 5 (http_stream a_request) (some answer)).0))
payload-http-http_stream_example = payload-http-http_stream 5 a_request a_request (some answer)

collect-Collects_example : Collects three (collect (suc (length three.pending_ops)) sweeps 0 three)
collect-Collects_example = collect-Collects sweeps three (record { exact = refl })
