-- ===== src/Module/Total.antt =====
-- `poll_event_loop` of module.rs returns: it ends, and none of its assertions fails.
use wasm_operator.Base.{
  ℕ, zero, suc, ◌+◌, ◌≤◌, ◌<◌, Bool, true, false, not, Option, none, some, List, ◌≡◌, refl, sym,
  arith, length,
}
use native.Mathlib.Decide.{dec_lt}
use mathlib.Core.Bool.{false≢true}
use wasm_operator.Base.Outcome
use wasm_operator.Base.Outcome.{
  Outcome, ok, failed, panicked, ◌>>=◌, Poll, ready, pending, is_ready, Returns, returns, errs,
}
use wasm_operator.Abi.Command.{AsyncResult}
use wasm_operator.Runner.{PendingOp, OpsRunner, Collected, op_failed, received, idle, collect}
use wasm_operator.Runner.WebCalls.{handle_requests-IsExact, IsExact, Collects, collect-Collects}
use wasm_operator.Runner.Quiet.{IsQuiet, NoResult, collect-NoResult}
use wasm_operator.Wasm.Interface.{WasmOps, IsWasm, Started, started}
use wasm_operator.Module.Clock.{Chrono}
use wasm_operator.Module.{ControllerModule, Readings, Turn, buffer_length, add_event_time}
use wasm_operator.Module.History.{length-push_event}
use wasm_operator.Module.Resolve.{
  after_poll, note_event, note_missed, note_finished, deliver, resolved, resolve_async_ops, drain,
}

-- From the turn `n` on no result arrives.
abbrev pub IsQuietFrom : {R Time : Type 0} → ℕ → (ℕ → Turn R Time) → Type 0
IsQuietFrom n env = (k : ℕ) → n ≤ k → IsQuiet (env k).sweeps

before_quiet :
    {R Time : Type 0} {n k : ℕ} (env : ℕ → Turn R Time)
    → IsQuietFrom n env
    → ¬ IsQuiet (env k).sweeps
    → k < n
before_quiet {n} {k} env quiet loud = elim (dec_lt k n) [
  | yes h ↦ h
  | no h ↦ absurd (loud (quiet k (omega arith)))
]

-- What holds of a module between two calls; `Good` is the invariant of its instance.
pub record IsSound {W Time Req : Type 0} (Good : W → Type 0) (m : ControllerModule W Time Req)
    : Type 0 where
  pub good : Good m.wasm
  pub exact : IsExact m.ops_runner
  pub bounded : length m.last_events ≤ buffer_length

module _ {W R Time Req : Type 0} (c : Chrono Time) (o : WasmOps W R Req) {Good : W → Type 0}
    {busy : W → Bool} (wasm_laws : IsWasm o Good busy) where
  -- `note_event` and its siblings leave the instance and the operations alone.
  record Keeps (m m' : ControllerModule W Time Req) : Type 0 where
    same_wasm : m'.wasm ≡ m.wasm
    same_runner : m'.ops_runner ≡ m.ops_runner
    bounded : length m.last_events ≤ buffer_length → length m'.last_events ≤ buffer_length

  abbrev note :
      Readings Time → AsyncResult → ControllerModule W Time Req → ControllerModule W Time Req
  note clock result m = note_finished clock result (note_missed c o clock (note_event clock m))

  note-Keeps :
      (clock : Readings Time) (result : AsyncResult) (m : ControllerModule W Time Req)
      → Keeps m (note clock result m)
  unfolding note_event note_missed note_finished add_event_time
  note-Keeps clock result m = record {
    same_wasm = ground arith;
    same_runner = ground arith;
    bounded = ground (arith, length-push_event clock.event m.last_events);
  }

  deliver-IsSound :
      (clock : Readings Time) (result : AsyncResult) (m : ControllerModule W Time Req)
      → IsSound Good m
      → busy m.wasm ≡ false
      → Returns
          (λ (x : Bool × ControllerModule W Time Req). IsSound Good x.1)
          (deliver c o clock result m)
  unfolding deliver
  deliver-IsSound clock result m s idle_wasm = go (o.wakeup result n.wasm) (
      wasm_laws.wakeup_lem result n.wasm (rw keeps.same_wasm s.good) (rw keeps.same_wasm idle_wasm))
    where
      n : ControllerModule W Time Req
      n = note clock result m

      keeps : Keeps m n
      keeps = note-Keeps clock result m

      go :
          (x : Outcome W)
          → Started Good busy o.is_uninstantiating false x
          → Returns
              (λ (x : Bool × ControllerModule W Time Req). IsSound Good x.1)
              (x >>= λ w. ok (true, record n { wasm = w }))
      go _ (started g b u) = returns (record {
        good = g;
        exact = rw keeps.same_runner s.exact;
        bounded = keeps.bounded s.bounded;
      })

  -- What a call of `resolve_async_ops` returns.
  abbrev Resolved : Turn R Time → Bool × ControllerModule W Time Req → Type 0
  Resolved turn (more, m) = IsSound Good m × (IsQuiet turn.sweeps → more ≡ false)

  resolved-Resolved :
      (turn : Turn R Time) (m : ControllerModule W Time Req) (r : OpsRunner Req)
      (x : Option (Collected × OpsRunner Req))
      → IsSound Good m
      → busy m.wasm ≡ false
      → Collects r x
      → (IsQuiet turn.sweeps → NoResult x)
      → Returns (Resolved turn) (resolved c o turn.clock m x)
  unfolding resolved
  resolved-Resolved turn m r none s i h q = absurd h
  resolved-Resolved turn m r (some (op_failed, r')) s i h q = errs
  resolved-Resolved turn m r (some (idle, r')) s i h q =
      returns
        (record { good = s.good; exact = ground (arith, h.exact); bounded = s.bounded }, λ _. refl)
  resolved-Resolved turn m r (some (received result, r')) s i h q =
      Outcome.mono
        (deliver-IsSound turn.clock result (record m { ops_runner = r' })
          (record { good = s.good; exact = ground (arith, h.exact); bounded = s.bounded }) i)
        λ x sound. (sound, λ quiet. absurd (q quiet))

  resolve_async_ops-Resolved :
      (turn : Turn R Time) (m : ControllerModule W Time Req)
      → IsSound Good m
      → busy m.wasm ≡ false
      → Returns (Resolved turn) (resolve_async_ops c o turn m)
  unfolding resolve_async_ops
  resolve_async_ops-Resolved turn m s i =
      resolved-Resolved turn m r (collect (suc (length r.pending_ops)) turn.sweeps 0 r) s i
        (collect-Collects turn.sweeps r (record { exact = s.exact.exact }))
        (collect-NoResult (suc (length r.pending_ops)) turn.sweeps 0 r)
    where
      r : OpsRunner Req
      r = record (m.ops_runner) { have_unpolled_ops = false }

  -- The part of a turn behind its two calls; `next` is the rest of the loop.
  drain_after :
      (turn : Turn R Time)
      (next : ControllerModule W Time Req → Outcome (ControllerModule W Time Req))
      (x : Bool × ControllerModule W Time Req)
      → Resolved turn x
      → (¬ IsQuiet turn.sweeps
          → (m : ControllerModule W Time Req) → IsSound Good m
          → Returns (IsSound Good) (next m))
      → Returns (IsSound Good) (elim x.0 [ true ↦ next x.1 | false ↦ ok x.1 ])
  drain_after turn next (true, m) (s, more) rest = rest (λ q. false≢true (sym (more q))) m s
  drain_after turn next (false, m) (s, more) rest = returns s

  pub after_poll-IsSound :
      (m : ControllerModule W Time Req) (w : W) (made : List (PendingOp Req))
      → IsSound Good m
      → Good w
      → IsSound Good (after_poll w made m)
  unfolding after_poll
  after_poll-IsSound m w made s g = record {
    good = g;
    exact = handle_requests-IsExact made m.ops_runner s.exact;
    bounded = s.bounded;
  }

  pub after_poll-busy :
      (m : ControllerModule W Time Req) (w : W) (made : List (PendingOp Req))
      → busy w ≡ false
      → busy (after_poll w made m).wasm ≡ false
  unfolding after_poll
  after_poll-busy m w made h = h

  drain_polled :
      (turn : Turn R Time)
      (next : ControllerModule W Time Req → Outcome (ControllerModule W Time Req))
      (m : ControllerModule W Time Req) (x : Poll (Unit {0}) × W × List (PendingOp Req))
      → IsSound Good m
      → Good x.1
        × (busy x.1 ≡ not (is_ready x.0))
        × (o.is_uninstantiating x.1 ≡ o.is_uninstantiating m.wasm)
      → (¬ IsQuiet turn.sweeps
          → (m' : ControllerModule W Time Req) → IsSound Good m'
          → Returns (IsSound Good) (next m'))
      → Returns (IsSound Good) (elim x.0 [
        | pending ↦ ok (after_poll x.1 x.2 m)
        | ready _ ↦ resolve_async_ops c o turn (after_poll x.1 x.2 m) >>= λ y. elim y.0 [
          | true ↦ next y.1
          | false ↦ ok y.1
        ]
      ])
  drain_polled turn next m (pending, w, made) s (g, b, u) rest =
      returns (after_poll-IsSound m w made s g)
  drain_polled turn next m (ready _, w, made) s (g, b, u) rest =
      Outcome.bind
        (resolve_async_ops-Resolved turn (after_poll w made m) (after_poll-IsSound m w made s g)
          (after_poll-busy m w made b))
        λ y h. drain_after turn next y h rest

  pub drain-IsSound :
      (n fuel k : ℕ) (env : ℕ → Turn R Time) (m : ControllerModule W Time Req)
      → IsQuietFrom n env
      → k ≤ n
      → n < fuel + k
      → IsSound Good m
      → Returns (IsSound Good) (drain c o fuel env k m)
  unfolding drain
  drain-IsSound n zero k env m quiet low high s = absurd (omega arith)
  drain-IsSound n (suc fuel) k env m quiet low high s =
      let rest =
        λ (loud : ¬ IsQuiet (env k).sweeps) (m' : ControllerModule W Time Req)
            (s' : IsSound Good m').
          drain-IsSound n fuel (suc k) env m' quiet (before_quiet env quiet loud) (omega arith)
            s' in
      Outcome.bind (wasm_laws.poll_lem (env k).reply m.wasm s.good)
        λ x h. drain_polled (env k) (drain c o fuel env (suc k)) m x s h rest
