-- ===== src/Wasm/Tests.antt =====
-- Runs of the definitions of wasm.rs, with a small engine.
use wasm_operator.Base.{
  ℕ, ◌+◌, ◌*◌, ◌≤◌, ◌<◌, true, false, none, some, [], ◌∷◌, ◌≡◌, refl, arith, length,
}
use mathlib.Core.Logic.{◌⊎◌}
use wasm_operator.Base.Outcome.{ready}
use wasm_operator.Abi.Command.{Bytes, delay, http}
use wasm_operator.Abi.{
  ControllerCtx, new_ctx, host_calls, host_call, hand_over, eager_poll, abi_request, slice,
  register,
}
use wasm_operator.Wasm.Globals.{var_globals}
use wasm_operator.Wasm.Wasmtime.{page}
use wasm_operator.Wasm.{
  wasm_page_size, n_pages, WasmRuntime, got_inst, uns_inst, Snapshot, Store, written, new_runtime,
  Reply, granted, start_controller, uninstantiate, set_wasm_work, take_not, take_got, take,
}
use wasm_operator.Wasm.Pages.{n_pages_bounds}
use wasm_operator.Wasm.Jobs.{
  restore, poll_unpin, poll_job, with_taken, admit, bring_in, with_instance, run_job, run_guest,
  swap_out, write_out,
}
use wasm_operator.Wasm.Restore.{Ends, IsRefused, IsRestored, saved, restore-IsRestored}
use wasm_operator.Wasm.Machine.{IsSwapped}
use wasm_operator.Wasm.Reach.{Reachable, starts, steps, polls, swaps_out, Reachable-permits}
use wasm_operator.Wasm.Example.{
  Example, IsExample, zeros, length-zeros, globals_of, example, example-IsEngine, one_request,
}

n_pages_bounds_example :
    (65_537 ≤ n_pages 65_537 * wasm_page_size)
    × (n_pages 65_537 * wasm_page_size < 65_537 + wasm_page_size)
n_pages_bounds_example = n_pages_bounds 65_537

-- An instance with one page of memory, and another value in its mutable global than at the start.
unfoldable used_memory : Bytes
used_memory = zeros page

abbrev used : Example
used = record { mem = used_memory; globals = globals_of 42 3 }

used-IsExample : IsExample used
unfolding used_memory
used-IsExample = record {
  stack = 42;
  base = 3;
  pages = omega (arith, length-zeros page);
  globals = refl;
}

restore-IsRestored_example :
    Ends
      (IsRefused example one_request example-IsEngine
        (length used_memory)
        (var_globals (globals_of 42 3)))
      (IsRestored example one_request example-IsEngine used)
      (restore example (saved example used used_memory) used_memory example.fresh)
restore-IsRestored_example =
    restore-IsRestored example one_request example-IsEngine used used_memory used-IsExample refl

abbrev all_well : Reply
all_well = record { permit = granted; instantiates = true; write = written; open_ok = true }

-- The operator is started, runs, and is swapped out.
abbrev running : WasmRuntime Example ℕ
running = record {
  inner = got_inst (record {
    context = record { async_client_id = 0; async_request_id_counter = 3 };
    inst = example.fresh;
  });
  wasm_work = none;
  uninstantiating = false;
  permits = 1;
  swap_file = none;
}

abbrev swapped : WasmRuntime Example ℕ
swapped = record {
  inner =
      uns_inst (record { async_client_id = 0; async_request_id_counter = 3 })
        (record { globals = var_globals (globals_of 7 3); memory_min = 0 });
  wasm_work = none;
  uninstantiating = true;
  permits = 0;
  swap_file = some [];
}

running-Reachable : Reachable example one_request running
unfolding start_controller new_runtime set_wasm_work poll_unpin poll_job take_not take with_taken
    admit bring_in with_instance run_job run_guest host_calls host_call hand_over eager_poll
    abi_request slice register
running-Reachable = steps (starts (new_ctx 0) refl) (
    polls all_well (ready tt)
      (record { async_request_id = 0; request = delay 10 }
        ∷ record { async_request_id = 1; request = delay 5000 }
        ∷ record { async_request_id = 2; request = http tt }
        ∷ [])
      refl)

swapped-Reachable : Reachable example one_request swapped
unfolding uninstantiate set_wasm_work poll_unpin poll_job take_got take swap_out write_out
    var_globals
swapped-Reachable =
    steps (steps running-Reachable (swaps_out refl)) (polls all_well (ready tt) [] refl)

Reachable-permits_example :
    ((store : Store Example) × (swapped.inner ≡ got_inst store)
      × IsExample store.inst
      × (swapped.permits ≡ 1)
      × (swapped.uninstantiating ≡ false))
    ⊎ ((ctx : ControllerCtx) × (snapshot : Snapshot ℕ) × (swapped.inner ≡ uns_inst ctx snapshot)
        × IsSwapped example one_request IsExample snapshot swapped.swap_file
        × (swapped.permits ≡ 0)
        × (swapped.uninstantiating ≡ true))
Reachable-permits_example = Reachable-permits example-IsEngine swapped swapped-Reachable refl
