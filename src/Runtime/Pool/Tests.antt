-- ===== src/Runtime/Pool/Tests.antt =====
-- Two modules that share the pool, with the small engine of Wasm/Example.antt.
use wasm_operator.Base.{ℕ, ◌+◌, true, false, none, some, [], ◌∷◌, ◌≡◌, refl, arith, count}
use wasm_operator.Abi.{
  new_ctx, host_calls, host_call, hand_over, eager_poll, abi_request, slice, register,
}
use wasm_operator.Wasm.Wasmtime.{Engine, IsEngine}
use wasm_operator.Wasm.{
  not_inst, got_inst, unpolled, start_job, new_runtime, Reply, writes, written, granted,
  start_controller, set_wasm_work, take_not, take,
}
use wasm_operator.Wasm.Jobs.{
  poll_unpin, poll_job, with_taken, admit, bring_in, with_instance, run_job, run_guest,
}
use wasm_operator.Wasm.Permits.{acquired, released, acquired_by}
use wasm_operator.Wasm.Example.{Example, IsExample, example, example-IsEngine, one_request}
use wasm_operator.Runtime.{pool_size}
use wasm_operator.Runtime.Pool.{
  Task, Pool, new_pool, start_module, add_task, after_request, after_poll, poll_task, ask,
  swaps_out, starts, polls, Reachable, initial, steps,
}
use wasm_operator.Runtime.Pool.Conserved.{in_memory, Reachable-conserved}
use wasm_operator.Runtime.Pool.Frees.{poll_at, poll_each, swap_out-frees}

abbrev engines : ℕ → Engine Example ℕ
engines k = example

engines-IsEngine : (k : ℕ) → IsEngine (engines k) one_request IsExample
engines-IsEngine k = example-IsEngine

abbrev all_well : Reply
all_well = record { permit = granted; instantiates = true; write = written; open_ok = true }

-- The first operator has been started.
abbrev starting : ℕ → Task Example ℕ
starting id = record {
  compiled = 0;
  runtime = record {
    inner = not_inst (new_ctx id);
    wasm_work = some (unpolled start_job);
    uninstantiating = false;
    permits = 0;
    swap_file = none;
  };
}

abbrev running : Task Example ℕ
running = record {
  compiled = 0;
  runtime = record {
    inner = got_inst (record {
      context = record { async_client_id = 0; async_request_id_counter = 3 };
      inst = example.fresh;
    });
    wasm_work = none;
    uninstantiating = false;
    permits = 1;
    swap_file = none;
  };
}

abbrev two_tasks : Pool Example ℕ
two_tasks = record {
  available = 99;
  tasks = running ∷ starting 1 ∷ [];
  async_client_id_counter = 2;
}

two_tasks-Reachable : Reachable engines one_request true two_tasks
unfolding new_pool pool_size start_module add_task start_controller new_runtime set_wasm_work
    poll_task after_poll acquired released acquired_by poll_unpin poll_job take_not take with_taken
    admit bring_in with_instance run_job run_guest host_calls host_call hand_over eager_poll
    abi_request slice register
two_tasks-Reachable =
    steps (steps (steps initial (starts 0)) (starts 0))
      (polls 0 (starting 0) all_well refl λ g. omega arith)

Reachable-conserved_example : 99 + count in_memory two_tasks.tasks ≡ pool_size true
Reachable-conserved_example =
    Reachable-conserved engines one_request IsExample engines-IsEngine true two_tasks
      two_tasks-Reachable

abbrev still_writes : Reply
still_writes = record { permit = granted; instantiates = true; write = writes; open_ok = true }

swap_out-frees_example :
    let s' =
      poll_each engines one_request 0
        (still_writes ∷ still_writes ∷ [])
        (after_request 0 running (ask swaps_out running.runtime) two_tasks) in
    (s'.available ≡ 99) × ((poll_at engines one_request 0 all_well s').available ≡ 100)
swap_out-frees_example =
    swap_out-frees engines one_request IsExample engines-IsEngine true 0 running
      (still_writes ∷ still_writes ∷ []) all_well two_tasks two_tasks-Reachable refl refl refl
      (refl, (refl, tt)) refl
