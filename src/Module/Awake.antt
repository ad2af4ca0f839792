-- ===== src/Module/Awake.antt =====
-- What `poll_event_loop` of module.rs does while the operator waits.
use wasm_operator.Base.{
  ◌+◌, ◌≤◌, Bool, true, false, [], ◌∷◌, ◌++◌, ◌≡◌, ◌≢◌, ◌⊎◌, refl, arith, inl, inr, if◌then◌else◌,
  Bool-cases,
}
use wasm_operator.Base.Outcome
use wasm_operator.Base.Outcome.{
  Outcome, ok, failed, panicked, ◌>>=◌, Poll, ready, pending, is_ready, Returns, returns, errs,
}
use wasm_operator.Wasm.Interface.{WasmOps, IsWasm, Started, started}
use wasm_operator.Module.Clock.{Chrono}
use wasm_operator.Module.{
  ControllerModule, ServerReply, predicts, malformed, unreachable, Evening, Woken,
  in_time_before_prediction_period,
}
use wasm_operator.Module.{grace_period_ms, time_before_predicted_ms, next_time}
use wasm_operator.Module.EventLoop.{
  is_stale, is_due, expire_prediction, load_early, ask_prediction, may_shutdown, shutdown_idle,
  drop_old_timers, keep_watch,
}
use wasm_operator.Module.Total.{IsSound}

-- Between the stages: either no job has been started, or the instance is being loaded since a
-- predicted event is near; then the waker has been called.
record IsWatched {W Time Req : Type 0} (c : Chrono Time) (Good : W → Type 0) (busy : W → Bool)
    (now : Time) (t : Woken (ControllerModule W Time Req)) : Type 0 where
  sound : IsSound Good t.state
  job :
      (busy t.state.wasm ≡ false)
      ⊎ ((in_time_before_prediction_period c now t.state.predicted_wakeup ≡ true) × (1 ≤ t.wakes))

-- At the end: a job that has been started will be polled, since the waker has been called.
pub record IsAwake {W Time Req : Type 0} (Good : W → Type 0) (busy : W → Bool)
    (t : Woken (ControllerModule W Time Req)) : Type 0 where
  pub sound : IsSound Good t.state
  pub awake : (busy t.state.wasm ≡ false) ⊎ (1 ≤ t.wakes)

module _ {W R Time Req : Type 0} (c : Chrono Time) (o : WasmOps W R Req) {Good : W → Type 0}
    {busy : W → Bool} (wasm_laws : IsWasm o Good busy) where
  expire_prediction-IsSound :
      (now : Time) (t : Woken (ControllerModule W Time Req))
      → IsSound Good t.state
      → busy t.state.wasm ≡ false
      → IsSound Good (expire_prediction c now t).state
        × (busy (expire_prediction c now t).state.wasm ≡ false)
  unfolding expire_prediction
  expire_prediction-IsSound now t s i = elim (Bool-cases (is_stale c now t.state)) [
    | inl e ↦ rw e (record { good = s.good; exact = s.exact; bounded = s.bounded }, i)
    | inr e ↦ rw e (s, i)
  ]

  -- A module with another instance, timers and so on, but the same operations and history.
  IsSound-same :
      {m m' : ControllerModule W Time Req}
      → IsSound Good m
      → Good m'.wasm
      → m'.ops_runner ≡ m.ops_runner
      → m'.last_events ≡ m.last_events
      → IsSound Good m'
  IsSound-same s g e f = record { good = g; exact = rw e s.exact; bounded = rw f s.bounded }

  load_early-IsWatched :
      (now : Time) (t : Woken (ControllerModule W Time Req))
      → IsSound Good t.state
      → busy t.state.wasm ≡ false
      → Returns (IsWatched c Good busy now) (load_early c o now t)
  unfolding load_early is_due
  load_early-IsWatched now t s i = elim (Bool-cases (is_due c o now t.state)) [
    | inl e ↦ rw e (
        go (o.load_to_mem t.state.wasm) (wasm_laws.load_to_mem_lem t.state.wasm s.good i)
          (ground arith))
    | inr e ↦ rw e (returns (record { sound = s; job = inl i }))
  ]
    where
      go :
          (x : Outcome W)
          → Started Good busy o.is_uninstantiating false x
          → in_time_before_prediction_period c now t.state.predicted_wakeup ≡ true
          → Returns (IsWatched c Good busy now) (
              x >>= λ w. ok (record {
                state = record (t.state) {
                  wasm = w;
                  sleep_vec =
                      t.state.sleep_vec ++ (grace_period_ms + time_before_predicted_ms) ∷ [];
                };
                wakes = t.wakes + 1;
              }))
      go _ (started g b u) near =
          returns (record { sound = IsSound-same s g refl refl; job = inr (near, omega arith) })

  ask_prediction-Returns :
      (e : Evening R Time) (m : ControllerModule W Time Req)
      → e.server ≢ malformed
      → Returns
          (λ (m' : ControllerModule W Time Req).
            (m'.wasm ≡ m.wasm) × (m'.ops_runner ≡ m.ops_runner) × (m'.last_events ≡ m.last_events))
          (ask_prediction c e m)
  unfolding ask_prediction
  ask_prediction-Returns e m h = go (e.server) h
    where
      go :
          (x : ServerReply Time)
          → x ≢ malformed
          → Returns
              (λ (m' : ControllerModule W Time Req).
                (m'.wasm ≡ m.wasm)
                × (m'.ops_runner ≡ m.ops_runner)
                × (m'.last_events ≡ m.last_events))
              (elim x [
                | predicts p ↦ ok (record m {
                  predicted_wakeup = p;
                  sleep_vec = m.sleep_vec ++ next_time (c.millis p e.asked) ∷ [];
                })
                | malformed ↦ panicked
                | unreachable ↦ ok m
              ])
      go (predicts p) h = returns (refl, refl, refl)
      go malformed h = absurd (h refl)
      go unreachable h = returns (refl, refl, refl)

  -- An instance that is just being loaded is not swapped out.
  may_shutdown-near :
      (flag : Bool) (now : Time) (m : ControllerModule W Time Req)
      → in_time_before_prediction_period c now m.predicted_wakeup ≡ true
      → may_shutdown c o flag now m ≡ false
  unfolding may_shutdown
  may_shutdown-near flag now m h = ground arith

  shutdown_idle-IsAwake :
      (flag : Bool) (e : Evening R Time) (t : Woken (ControllerModule W Time Req))
      → e.server ≢ malformed
      → IsWatched c Good busy e.now t
      → Returns (IsAwake Good busy) (shutdown_idle c o flag e t)
  unfolding shutdown_idle
  shutdown_idle-IsAwake flag e t replied s = elim (s.job) [
    | inr (near, woken) ↦
        rw (may_shutdown-near flag e.now t.state near)
          (returns (record { sound = s.sound; awake = inr woken }))
    | inl i ↦ elim (Bool-cases (may_shutdown c o flag e.now t.state)) [
      | inr no_shutdown ↦ rw no_shutdown (returns (record { sound = s.sound; awake = inl i }))
      | inl shutdown ↦ rw shutdown (
          go (o.uninstantiate t.state.wasm)
            (wasm_laws.uninstantiate_lem t.state.wasm s.sound.good i))
    ]
  ]
    where
      asked :
          (m : ControllerModule W Time Req) (first : Bool)
          → IsSound Good m
          → Returns (IsAwake Good busy) (
              (if first then ok m else ask_prediction c e m) >>= λ m'. ok (record {
                state = record m' { first_event_after_shutdown = true };
                wakes = t.wakes + 1;
              }))
      asked m true sound =
          returns
            (record { sound = IsSound-same sound sound.good refl refl; awake = inr (omega arith) })
      asked m false sound = Outcome.bind (ask_prediction-Returns e m replied) λ m' (p, q, r).
          returns
            (record { sound = IsSound-same sound (rw p sound.good) q r; awake = inr (omega arith) })

      go :
          (x : Outcome W)
          → Started Good busy o.is_uninstantiating true x
          → Returns (IsAwake Good busy) (
              x >>= λ w.
              (if t.state.first_event_after_shutdown
                then ok (record (t.state) { wasm = w })
                else ask_prediction c e (record (t.state) { wasm = w }))
              >>= λ m'. ok (record {
                state = record m' { first_event_after_shutdown = true };
                wakes = t.wakes + 1;
              }))
      go _ (started {w} g b u) =
          asked (record (t.state) { wasm = w }) t.state.first_event_after_shutdown
            (IsSound-same s.sound g refl refl)

  pub keep_watch-IsAwake :
      (flag : Bool) (e : Evening R Time) (m : ControllerModule W Time Req)
      → e.server ≢ malformed
      → IsSound Good m
      → busy m.wasm ≡ false
      → Returns (IsAwake Good busy) (keep_watch c o flag e m)
  unfolding keep_watch drop_old_timers
  keep_watch-IsAwake flag e m replied s i =
      Outcome.bind (load_early-IsWatched e.now t expired.0 expired.1) λ t1 watched.
        Outcome.bind (shutdown_idle-IsAwake flag e t1 replied watched) λ t2 a.
          returns (record { sound = IsSound-same a.sound a.sound.good refl refl; awake = a.awake })
    where
      first : Woken (ControllerModule W Time Req)
      first = record { state = m; wakes = if m.ops_runner.have_unpolled_ops then 1 else 0 }

      t : Woken (ControllerModule W Time Req)
      t = expire_prediction c e.now first

      expired : IsSound Good t.state × (busy t.state.wasm ≡ false)
      expired = expire_prediction-IsSound e.now first s i
