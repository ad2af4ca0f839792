-- ===== src/Guest/Tests.antt =====
-- Runs of the definitions of kube-runtime-abi.
use wasm_operator.Base.{true, ℕ, List, inr, Option, none, some, [], ◌∷◌, ◌≡◌, refl}
use wasm_operator.Base.Outcome.{ok, panicked, ◌>>=◌, ready, pending}
use wasm_operator.Abi.Command.{Bytes, http, http_stream}
use wasm_operator.Runner.{Answer, run_request, to_bytes}
use wasm_operator.Guest.{Guest, task, fresh_state, start_async}
use wasm_operator.Guest.Mailbox.{start_async-IsOpen}
use wasm_operator.Guest.Request.{
  responded, closed, execute_request, execute_request_stream, deliver, poll_plain, poll_streamed,
}
use wasm_operator.Guest.Plain.{execute_request-responded}
use wasm_operator.Guest.Streamed.{execute_request_stream-closed}
use wasm_operator.Guest.Spawner.{
  Statics, Call, executor_call, spawner_call, new_statics, get_mut_executor, get_spawner, run_calls,
  run_calls-get_spawner,
}
use wasm_operator.Guest.Burst.{wakeup_twice, poll_twice, wakeup_twice-poll_twice}

abbrev new_guest : Guest
new_guest = record { states = λ h. fresh_state; next = 0; pending_async = λ id. none }

abbrev first_byte : Bytes → Option ℕ
first_byte [] = none
first_byte (b ∷ bytes) = some b

abbrev a_request : ℕ
a_request = 8

abbrev answer : Answer
answer = record { meta = some (200 ∷ []); body = some (1 ∷ 2 ∷ []) ∷ some (3 ∷ []) ∷ [] }

execute_request-responded_example :
    (g' : Guest) × ((execute_request first_byte (task 1) 7 new_guest
        >>= deliver (poll_plain first_byte) 1 (run_request 7 (http a_request) (some answer)).0)
      ≡ ok (responded 200 (1 ∷ 2 ∷ 3 ∷ []), g'))
    × (g'.pending_async 7 ≡ none)
unfolding to_bytes
execute_request-responded_example =
    execute_request-responded first_byte 1 7 a_request answer new_guest refl refl refl

execute_request_stream-closed_example :
    (g' : Guest) × ((execute_request_stream first_byte (task 1) 7 new_guest
        >>= deliver
            (poll_streamed first_byte)
            1
            (run_request 7 (http_stream a_request) (some answer)).0)
      ≡ ok (closed 200 ((1 ∷ 2 ∷ []) ∷ (3 ∷ []) ∷ []), g'))
    × (g'.pending_async 7 ≡ none)
execute_request_stream-closed_example =
    execute_request_stream-closed first_byte 1 7 a_request answer new_guest
      ((1 ∷ 2 ∷ []) ∷ (3 ∷ []) ∷ []) refl refl refl

abbrev waiting : Guest
waiting = (start_async 7 new_guest).1

wakeup_twice-poll_twice_example :
    (g' : Guest) × (wakeup_twice 7 (1 ∷ []) 1 (some (2 ∷ [])) waiting ≡ ok g')
    × (poll_twice (task 1) 0 g' ≡ (ready (some (2 ∷ [])), pending))
    × (g'.pending_async 7 ≡ none)
unfolding start_async
wakeup_twice-poll_twice_example =
    wakeup_twice-poll_twice (task 1) 7 0 fresh_state waiting (1 ∷ []) true (some (2 ∷ []))
      (start_async-IsOpen 7 new_guest)

abbrev some_calls : List Call
some_calls = spawner_call ∷ executor_call ∷ spawner_call ∷ executor_call ∷ []

run_calls-get_spawner_example :
    (s : Statics) × (run_calls some_calls new_statics ≡ ok s)
    × ((s' : Statics) × (get_mut_executor s ≡ ok (0, s')))
    × (get_spawner s ≡ inr 0)
    × (true ≡ true → get_mut_executor (record s { borrowed = true }) ≡ panicked)
run_calls-get_spawner_example = run_calls-get_spawner some_calls
