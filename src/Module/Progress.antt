-- ===== src/Module/Progress.antt =====
-- A whole call of `poll_event_loop` of module.rs.
use wasm_operator.Base.{
  ℕ, suc, ◌≤◌, Bool, false, not, List, [], ◌∷◌, ◌≡◌, ◌≢◌, ◌⊎◌, refl, sym, arith, inl, inr,
  if◌then◌else◌,
}
use wasm_operator.Base.Outcome
use wasm_operator.Base.Outcome.{
  Outcome, ok, failed, panicked, ◌>>=◌, Poll, ready, pending, is_ready, Returns, returns, errs,
}
use wasm_operator.Runner.{PendingOp}
use wasm_operator.Wasm.Interface.{WasmOps, IsWasm}
use wasm_operator.Module.Clock.{Chrono}
use wasm_operator.Module.{ControllerModule, Turn, malformed, Evening, Woken}
use wasm_operator.Module.Resolve.{after_poll}
use wasm_operator.Module.EventLoop.{is_empty, keep_watch, poll_event_loop}
use wasm_operator.Module.Total.{
  IsSound, after_poll-IsSound, after_poll-busy, drain-IsSound, IsQuietFrom,
}
use wasm_operator.Module.Awake.{keep_watch-IsAwake}

-- What a call leaves behind: nothing to do, when it is ready; otherwise a task that will be polled
-- again as soon as its instance can go on.
abbrev pub IsRested :
    {W R Time Req : Type 0}
    → WasmOps W R Req
    → (W → Bool)
    → R
    → Poll (Unit {0})
    → Woken (ControllerModule W Time Req)
    → Type 0
IsRested o busy reply (ready _) t = t.state.ops_runner.pending_ops ≡ []
IsRested {W} {Req} o busy reply pending t =
    (busy t.state.wasm ≡ false)
    ⊎ ((1 ≤ t.wakes)
        ⊎ ((w : W) × (made : List (PendingOp Req)) × (o.poll_unpin reply w
              ≡ ok (pending, t.state.wasm, made))))

module _ {W R Time Req : Type 0} (c : Chrono Time) (o : WasmOps W R Req) {Good : W → Type 0}
    {busy : W → Bool} (wasm_laws : IsWasm o Good busy) where
  abbrev Result : Evening R Time → Poll (Unit {0}) × Woken (ControllerModule W Time Req) → Type 0
  Result e (p, t) = IsSound Good t.state × IsRested o busy e.reply p t

  watch_rest :
      (flag : Bool) (e : Evening R Time) (m : ControllerModule W Time Req)
      (ops : List (PendingOp Req))
      → ops ≡ m.ops_runner.pending_ops
      → e.server ≢ malformed
      → IsSound Good m
      → busy m.wasm ≡ false
      → Returns (Result e) (
          if is_empty ops
          then ok (ready tt, record { state = m; wakes = 0 })
          else (keep_watch c o flag e m >>= λ t. ok (pending, t)))
  watch_rest flag e m [] q replied s i = returns (s, sym q)
  watch_rest flag e m (op ∷ ops) q replied s i =
      Outcome.bind (keep_watch-IsAwake c o wasm_laws flag e m replied s i)
        λ t a. returns (a.sound, elim (a.awake) [ inl x ↦ inl x | inr x ↦ inr (inl x) ])

  poll_rest :
      (flag : Bool) (e : Evening R Time) (m : ControllerModule W Time Req)
      (x : Outcome (Poll (Unit {0}) × W × List (PendingOp Req)))
      → o.poll_unpin e.reply m.wasm ≡ x
      → Returns
          (λ (y : Poll (Unit {0}) × W × List (PendingOp Req)).
            Good y.1
            × (busy y.1 ≡ not (is_ready y.0))
            × (o.is_uninstantiating y.1 ≡ o.is_uninstantiating m.wasm))
          x
      → e.server ≢ malformed
      → IsSound Good m
      → Returns (Result e) (
          x >>= λ y. elim y.0 [
            | pending ↦ ok (pending, record { state = after_poll y.1 y.2 m; wakes = 0 })
            | ready _ ↦
                if is_empty (after_poll y.1 y.2 m).ops_runner.pending_ops
                then ok (ready tt, record { state = after_poll y.1 y.2 m; wakes = 0 })
                else (keep_watch c o flag e (after_poll y.1 y.2 m) >>= λ t. ok (pending, t))
          ])
  unfolding after_poll
  poll_rest flag e m _ q errs replied s = errs
  poll_rest flag e m _ q (returns {a = (pending, w, made)} (g, b, u)) replied s =
      returns (after_poll-IsSound c o wasm_laws m w made s g, inr (inr (m.wasm, made, q)))
  poll_rest flag e m _ q (returns {a = (ready _, w, made)} (g, b, u)) replied s =
      watch_rest flag e (after_poll w made m) (after_poll w made m).ops_runner.pending_ops refl
        replied (after_poll-IsSound c o wasm_laws m w made s g)
        (after_poll-busy c o wasm_laws m w made b)

  -- A call of `poll_event_loop` on a sound module, with a clock and an instance that keep their
  -- laws, in an environment where no result arrives from some turn on and the prediction server
  -- sends nothing malformed, returns (perhaps an error): it ends within one turn more than bring
  -- results, and no assertion fails. It leaves the module sound. If it is ready, no operation is
  -- pending; if it is pending, then the instance has no job, or the task's waker has been called,
  -- or the last poll of the instance's job was pending.
  pub poll_event_loop-Returns :
      (flag : Bool) (n : ℕ) (env : ℕ → Turn R Time) (e : Evening R Time)
      (m : ControllerModule W Time Req)
      → IsQuietFrom n env
      → e.server ≢ malformed
      → IsSound Good m
      → Returns
          (λ (x : Poll (Unit {0}) × Woken (ControllerModule W Time Req)).
            IsSound Good x.1.state × IsRested o busy e.reply x.0 x.1)
          (poll_event_loop c o flag (suc n) env e m)
  unfolding poll_event_loop
  poll_event_loop-Returns flag n env e m quiet replied s =
      Outcome.bind
        (drain-IsSound c o wasm_laws n (suc n) 0 env m quiet (omega arith) (omega arith) s)
        λ m1 s1. poll_rest flag e m1 _ refl (wasm_laws.poll_lem e.reply m1.wasm s1.good) replied s1
