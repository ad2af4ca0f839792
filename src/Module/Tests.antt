-- ===== src/Module/Tests.antt =====
-- Runs of the definitions of module.rs, with the small engine and a clock of milliseconds.
use wasm_operator.Base.{
  ℕ, zero, suc, true, false, none, some, List, [], ◌∷◌, ◌++◌, count, ◌≡◌, refl, arith, ℤ, pos, ◌<ℤ◌,
}
use wasm_operator.Base.Outcome.{ok, Poll, Returns}
use wasm_operator.Abi.Command.{delay}
use wasm_operator.Runner.{Sweep, waits, message}
use wasm_operator.Runner.WebCalls.{is_web_op}
use wasm_operator.Wasm.{
  written, WasmRuntime, Reply, granted, got_inst, unpolled, uninstantiate_job, uninstantiate,
  set_wasm_work,
}
use wasm_operator.Wasm.Machine.{Good, busy}
use wasm_operator.Wasm.Serves.{wasm_ops, wasm_ops-IsWasm}
use wasm_operator.Wasm.Example.{Example, IsExample, example, example-IsEngine, one_request}
use wasm_operator.Module.Example.{clock, clock-IsChrono}
use wasm_operator.Module.{
  ControllerModule, Births, Readings, Turn, Evening, unreachable, Woken, next_time, buffer_length,
  shutdown_inactive_interval_ms, in_time_before_prediction_period, in_time_grace_period,
  is_inactive_period,
}
use wasm_operator.Module.EventLoop.{
  is_stale, expire_prediction, is_due, load_early, may_shutdown, shutdown_idle, drop_old_timers,
  keep_watch, poll_event_loop,
}
use wasm_operator.Module.Windows.{next_time-before}
use wasm_operator.Module.History.{take_last, push_events, push_events-take_last}
use wasm_operator.Module.Total.{IsSound, IsQuietFrom}
use wasm_operator.Module.Progress.{IsRested, poll_event_loop-Returns}
use wasm_operator.Module.SwapOut.{keep_watch-IsIdle}
use wasm_operator.Module.Run.{Round}

next_time-before_example : in_time_before_prediction_period clock (pos 9005) (pos 10000) ≡ true
unfolding next_time
next_time-before_example =
    next_time-before clock clock-IsChrono (pos 0) (pos 9005) (pos 10000) (omega arith) refl

abbrev earlier : List ℕ
earlier = 1 ∷ 2 ∷ []

abbrev later : List ℕ
later = 3 ∷ 4 ∷ []

push_events-take_last_example :
    push_events later (take_last buffer_length earlier) ≡ take_last buffer_length (earlier ++ later)
push_events-take_last_example = push_events-take_last later earlier

abbrev all_well : Reply
all_well = record { permit = granted; instantiates = true; write = written; open_ok = true }

abbrev readings : Readings ℤ
readings = record { event = pos 20; missed = pos 21; finish = pos 22 }

-- One result arrives in the first turn, and none later.
abbrev sweeps : ℕ → Sweep
sweeps zero = record { choice = waits; recv = some (message 0 none true) }
sweeps (suc k) = record { choice = waits; recv = none }

abbrev turns : ℕ → Turn Reply ℤ
turns zero = record { reply = all_well; sweeps = sweeps; clock = readings }
turns (suc k) = record {
  reply = all_well;
  sweeps = λ i. record { choice = waits; recv = none };
  clock = readings;
}

turns-IsQuietFrom : IsQuietFrom 1 turns
turns-IsQuietFrom zero h = absurd (omega arith)
turns-IsQuietFrom (suc k) h = λ i. refl

abbrev evening : Evening Reply ℤ
evening = record {
  reply = all_well;
  now = pos 5000;
  asked = pos 5000;
  server = unreachable;
  elapsed = λ s. false;
}

abbrev round : Round Reply ℤ
round = record { results = 1; turns = turns; evening = evening }

abbrev births : Births ℤ
births = record { last_event = pos 0; first_event = pos 0; prediction = pos 0 }

abbrev running : WasmRuntime Example ℕ
running = record {
  inner = got_inst (record {
    context = record { async_client_id = 0; async_request_id_counter = 1 };
    inst = example.fresh;
  });
  wasm_work = none;
  uninstantiating = false;
  permits = 1;
  swap_file = none;
}

-- An operator that waits for a delay, and has done so for five seconds.
abbrev waiting : ControllerModule (WasmRuntime Example ℕ) ℤ (Unit {0})
waiting = record {
  wasm = running;
  ops_runner = record {
    pending_ops = record { async_request_id = 0; request = delay 60000 } ∷ [];
    have_unpolled_ops = false;
    nr_web_calls = 0;
  };
  last_event_time = pos 0;
  last_events = pos 0 ∷ [];
  predicted_wakeup = pos 1_000_000;
  sleep_vec = [];
  first_event_after_shutdown = true;
}

waiting-IsSound : IsSound (Good example one_request IsExample) waiting
waiting-IsSound = record {
  good = ((record { stack = 7; base = 3; pages = refl; globals = refl }, refl), refl);
  exact = record { exact = refl };
  bounded = omega arith;
}

poll_event_loop-Returns_example :
    Returns
      (λ (x : Poll (Unit {0}) × Woken (ControllerModule (WasmRuntime Example ℕ) ℤ (Unit {0}))).
        IsSound (Good example one_request IsExample) x.1.state
        × IsRested
            (wasm_ops example one_request)
            (busy example one_request IsExample)
            all_well
            x.0
            x.1)
      (poll_event_loop clock (wasm_ops example one_request) true 2 turns evening waiting)
poll_event_loop-Returns_example =
    poll_event_loop-Returns clock (wasm_ops example one_request) (wasm_ops-IsWasm example-IsEngine)
      true 1 turns evening waiting turns-IsQuietFrom (λ e. cc) waiting-IsSound

-- It is swapped out.
abbrev leaving : Woken (ControllerModule (WasmRuntime Example ℕ) ℤ (Unit {0}))
leaving = record {
  state = record waiting {
    wasm = record running { wasm_work = some (unpolled uninstantiate_job); uninstantiating = true };
  };
  wakes = 1;
}

waiting-leaving : keep_watch clock (wasm_ops example one_request) true evening waiting ≡ ok leaving
unfolding keep_watch expire_prediction is_stale in_time_grace_period
    in_time_before_prediction_period load_early is_due shutdown_idle may_shutdown is_inactive_period
    uninstantiate set_wasm_work drop_old_timers
waiting-leaving = refl

keep_watch-IsIdle_example :
    (count is_web_op waiting.ops_runner.pending_ops ≡ 0)
    × (pos shutdown_inactive_interval_ms <ℤ clock.millis evening.now waiting.last_event_time)
    × (in_time_before_prediction_period clock evening.now waiting.predicted_wakeup ≡ false)
    × (in_time_grace_period clock evening.now waiting.predicted_wakeup ≡ false)
keep_watch-IsIdle_example =
    keep_watch-IsIdle clock clock-IsChrono (wasm_ops example one_request) true evening waiting
      {t = leaving} (record { exact = refl }) (omega arith) refl waiting-leaving refl
