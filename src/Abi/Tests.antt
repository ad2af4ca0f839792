-- ===== src/Abi/Tests.antt =====
-- Runs of the definitions of abi/mod.rs.
use wasm_operator.Base.{
  zero, suc, ◌<◌, true, take-length, ℕ, ◌≤◌, ◌+◌, Option, none, some, List, [], ◌∷◌, ◌≡◌, ◌≢◌, refl,
  arith, length, drop, take,
}
use wasm_operator.Base.Outcome.{ok}
use wasm_operator.Runner.{PendingOp}
use wasm_operator.Abi.Command.{Bytes, AsyncResult, delay}
use wasm_operator.Abi.{
  RequestCodec, HostCall, request_call, ControllerCtx, new_ctx, delay_call, host_calls, host_call,
  hand_over, register, slice, u32_mod,
}
use wasm_operator.Abi.Wakeup.{WakeupArgs, place, wakeup_args, Arrives, wakeup_args-Arrives}
use wasm_operator.Abi.Ids.{host_calls-distinct, slice_bounds}

abbrev nothing : RequestCodec ℕ
nothing = record { decode = λ bytes. none; has_path = λ req. true }

abbrev first_op : PendingOp ℕ
first_op = record { async_request_id = 0; request = delay 10 }

abbrev second_op : PendingOp ℕ
second_op = record { async_request_id = 1; request = delay 20 }

abbrev last_ctx : ControllerCtx
last_ctx = record { async_client_id = 4; async_request_id_counter = 2 }

two_delays :
    host_calls nothing (delay_call 10 ∷ delay_call 20 ∷ []) (new_ctx 4)
    ≡ ok (last_ctx, first_op ∷ second_op ∷ [])
unfolding host_calls host_call register hand_over
two_delays = refl

host_calls-distinct_example :
    (first_op.async_request_id ≢ second_op.async_request_id)
    × (last_ctx.async_client_id ≡ (new_ctx 4).async_client_id)
host_calls-distinct_example =
    host_calls-distinct nothing (delay_call 10 ∷ delay_call 20 ∷ []) (new_ctx 4) 0 1 {a = first_op}
      {b = second_op} two_delays refl refl (omega arith) (omega arith)

abbrev four_bytes : Bytes
four_bytes = 1 ∷ 2 ∷ 3 ∷ 4 ∷ []

abbrev two_bytes : Bytes
two_bytes = 2 ∷ 3 ∷ []

a_slice : slice four_bytes 1 2 ≡ some two_bytes
unfolding slice
a_slice = refl

slice_bounds_example :
    (1 + 2 ≤ length four_bytes) × (length two_bytes ≡ 2) × (two_bytes ≡ drop 1 (take 3 four_bytes))
slice_bounds_example = slice_bounds four_bytes 1 2 (omega arith) (omega arith) a_slice

-- An allocator that always returns the address 1, and a memory whose bytes before it are cut off.
abbrev allocate : ℕ → Bytes → Option (ℕ × Bytes)
allocate n m = some (1, m)

abbrev write : Bytes → ℕ → Bytes → Option Bytes
write m zero b = none
write m (suc zero) b = some (0 ∷ b)
write m (suc (suc ptr)) b = none

allocate_law : (n : ℕ) (m : Bytes) (ptr : ℕ) (m' : Bytes) → allocate n m ≡ some (ptr, m') → ptr ≢ 0
allocate_law n m ptr m' e z = cc

write_law :
    (m : Bytes) (ptr : ℕ) (b m' : Bytes)
    → write m ptr b ≡ some m'
    → take (length b) (drop ptr m') ≡ b
write_law m zero b m' e = cc
write_law m (suc zero) b m' e = let same : 0 ∷ b ≡ m' = cc in rw (← same) (take-length b)
write_law m (suc (suc ptr)) b m' e = cc

abbrev result : AsyncResult
result = record { async_request_id = 7; value = some two_bytes; finished = true }

abbrev memory_after : Bytes
memory_after = 0 ∷ two_bytes

abbrev args : WakeupArgs
args = record { stream_id = 7; finished = 1; ptr = 1; len = 2 }

result_fits : (event : Bytes) → some two_bytes ≡ some event → length event < u32_mod
result_fits event e = let same : two_bytes ≡ event = cc in rw (← same) (omega arith)

result_placed : wakeup_args allocate write result four_bytes ≡ some (args, memory_after)
unfolding wakeup_args place
result_placed = refl

wakeup_args-Arrives_example : Arrives result (args, memory_after)
wakeup_args-Arrives_example =
    wakeup_args-Arrives allocate write allocate_law write_law result four_bytes (args, memory_after)
      result_fits result_placed

-- A request that lies in the memory, and one that does not.
abbrev any_bytes : RequestCodec ℕ
any_bytes = record { decode = λ bytes. some (length bytes); has_path = λ req. true }

abbrev some_calls : List HostCall
some_calls = delay_call 10 ∷ request_call four_bytes 1 2 0 ∷ request_call four_bytes 3 2 1 ∷ []
