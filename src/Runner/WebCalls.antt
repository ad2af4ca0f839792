-- ===== src/Runner/WebCalls.antt =====
-- The counter `nr_web_calls` of runner.rs, and the loop of `resolve_async_ops` that lowers it.
use wasm_operator.Base.{
  ℕ, zero, suc, ◌%◌, ◌≤◌, ◌<◌, Bool, true, false, Option, none, some, List, [], ◌∷◌, ◌≡◌, ◌≢◌, ◌⊎◌,
  refl, arith, inl, inr, get_elem?, erase_idx, count, length, count-append, length-erase_idx,
  count-erase_idx,
}
use wasm_operator.Base.Outcome.{Poll, ready, pending}
use wasm_operator.Abi.Command.{AsyncResult, AsyncRequestValue}
use wasm_operator.Runner.{
  PendingOp, OpResult, op_ok, op_err, OpsRunner, is_web, u64_mod, handle_request, handle_requests,
  settle, Sweep, Collected, op_failed, received, idle, conclude, sweep_once, collect,
}
use wasm_operator.Runner.Polled.{
  PollNext, empty, waiting, done, run_request-is_web, poll_next-PollNext,
}

abbrev pub is_web_op : {Req : Type 0} → PendingOp Req → Bool
is_web_op op = is_web op.request

-- The counter says how many pending operations are plain requests, up to the width of `usize`.
pub record IsExact {Req : Type 0} (r : OpsRunner Req) : Type 0 where
  pub exact : r.nr_web_calls ≡ count is_web_op r.pending_ops % u64_mod

-- A request of any kind keeps the counter exact: it is raised if the request is a plain one.
pub handle_request-IsExact :
    {Req : Type 0} (id : ℕ) (request : AsyncRequestValue Req) (r : OpsRunner Req)
    → IsExact r
    → IsExact (handle_request id request r)
unfolding handle_request
handle_request-IsExact id request r e =
    let op : PendingOp _ = record { async_request_id = id; request = request } in
    ground (arith, count-append is_web_op r.pending_ops (op ∷ []))

-- Requests that an operator makes keep the counter exact.
pub handle_requests-IsExact :
    {Req : Type 0} (made : List (PendingOp Req)) (r : OpsRunner Req)
    → IsExact r
    → IsExact (handle_requests made r)
unfolding handle_requests
handle_requests-IsExact [] r e = e
handle_requests-IsExact (op ∷ ops) r e =
    handle_requests-IsExact ops (handle_request op.async_request_id op.request r)
      (handle_request-IsExact op.async_request_id op.request r e)

-- A round that does not end in an error keeps the counter exact, and one after which the loop goes
-- on has completed an operation.
abbrev Swept :
    {Req : Type 0}
    → OpsRunner Req
    → Option AsyncResult
    → Poll (Option OpResult)
    → List (PendingOp Req)
    → Type 0
Swept r recv polled ops =
    (conclude polled recv ≢ some op_failed
      → IsExact (settle polled (record r { pending_ops = ops })))
    × (conclude polled recv ≡ none → suc (length ops) ≡ length r.pending_ops)
    × (length ops ≤ length r.pending_ops)

done-Swept :
    {Req : Type 0} (r : OpsRunner Req) (recv : Option AsyncResult) (i : ℕ) (op : PendingOp Req)
    (result : OpResult)
    → IsExact r
    → get_elem? r.pending_ops i ≡ some op
    → ((web : Bool) → result ≡ op_ok web → web ≡ is_web op.request)
    → Swept r recv (ready (some result)) (erase_idx r.pending_ops i)
unfolding conclude settle
done-Swept r recv i op op_err e h web =
    (λ n. absurd (n refl), λ q. cc, omega (arith, length-erase_idx r.pending_ops i h))
done-Swept r recv i op (op_ok true) e h web = (
  λ _. ground (
    arith,
    web true refl,
    length-erase_idx r.pending_ops i h,
    count-erase_idx is_web_op r.pending_ops i h,
  ),
  λ q. omega (arith, length-erase_idx r.pending_ops i h),
  omega (arith, length-erase_idx r.pending_ops i h),
)
done-Swept r recv i op (op_ok false) e h web = (
  λ _. ground (
    arith,
    web false refl,
    length-erase_idx r.pending_ops i h,
    count-erase_idx is_web_op r.pending_ops i h,
  ),
  λ q. omega (arith, length-erase_idx r.pending_ops i h),
  omega (arith, length-erase_idx r.pending_ops i h),
)

settle-Swept :
    {Req : Type 0} (r : OpsRunner Req) (recv : Option AsyncResult) {polled : Poll (Option OpResult)}
    {ops : List (PendingOp Req)}
    → IsExact r
    → PollNext r.pending_ops polled ops
    → Swept r recv polled ops
unfolding conclude settle
settle-Swept r none e (empty h) = ground arith
settle-Swept r (some m) e (empty h) = ground arith
settle-Swept r none e waiting = ground arith
settle-Swept r (some m) e waiting = ground arith
settle-Swept r recv e (done i op answer h) =
    done-Swept r recv i op _ e h
      (λ web q. run_request-is_web op.async_request_id op.request answer q)

-- What a round returns, kept as one statement.
abbrev Round : {Req : Type 0} → OpsRunner Req → Option Collected × OpsRunner Req → Type 0
Round r (ended, r') =
    (ended ≢ some op_failed → IsExact r')
    × (ended ≡ none → suc (length r'.pending_ops) ≡ length r.pending_ops)
    × (length r'.pending_ops ≤ length r.pending_ops)

settle-pending_ops :
    {Req : Type 0} (polled : Poll (Option OpResult)) (r : OpsRunner Req)
    → (settle polled r).pending_ops ≡ r.pending_ops
unfolding settle
settle-pending_ops (ready (some (op_ok true))) r = refl
settle-pending_ops (ready (some (op_ok false))) r = refl
settle-pending_ops (ready (some op_err)) r = refl
settle-pending_ops (ready none) r = refl
settle-pending_ops pending r = refl

sweep_once-Round :
    {Req : Type 0} (s : Sweep) (r : OpsRunner Req) → IsExact r → Round r (sweep_once s r)
unfolding sweep_once
sweep_once-Round s r e =
    rw settle-pending_ops (settle-Swept r s.recv e (poll_next-PollNext s.choice r.pending_ops))

-- What the whole loop returns.
pub record IsCollected {Req : Type 0} (r : OpsRunner Req) (c : Collected) (r' : OpsRunner Req)
    : Type 0 where
  pub exact : (c ≡ op_failed) ⊎ IsExact r'
  pub fewer : length r'.pending_ops ≤ length r.pending_ops

abbrev pub Collects : {Req : Type 0} → OpsRunner Req → Option (Collected × OpsRunner Req) → Type 0
Collects r none = ⊥
Collects r (some (c, r')) = IsCollected r c r'

Collects-mono :
    {Req : Type 0} (r r' : OpsRunner Req) (x : Option (Collected × OpsRunner Req))
    → length r'.pending_ops ≤ length r.pending_ops
    → Collects r' x
    → Collects r x
Collects-mono r r' none h c = c
Collects-mono r r' (some (c, s)) h is = record { exact = is.exact; fewer = omega (arith, is.fewer) }

collect_from :
    {Req : Type 0} (fuel : ℕ) (env : ℕ → Sweep) (k : ℕ) (r : OpsRunner Req)
    → IsExact r
    → length r.pending_ops < fuel
    → Collects r (collect fuel env k r)
unfolding collect
collect_from zero env k r e h = absurd (omega arith)
collect_from {Req} (suc fuel) env k r e h =
    go (sweep_once (env k) r) (sweep_once-Round (env k) r e) (collect_from fuel env (suc k))
  where
    go :
        (x : Option Collected × OpsRunner Req)
        → Round r x
        → ((s : OpsRunner Req)
            → IsExact s
            → length s.pending_ops < fuel
            → Collects s (collect fuel env (suc k) s))
        → Collects r (elim x.0 [ none ↦ collect fuel env (suc k) x.1 | some c ↦ some (c, x.1) ])
    go (some op_failed, s) round ih = record { exact = inl refl; fewer = round.2 }
    go (some (received m), s) round ih = record { exact = inr (round.0 (λ q. cc)); fewer = round.2 }
    go (some idle, s) round ih = record { exact = inr (round.0 (λ q. cc)); fewer = round.2 }
    go (none, s) round ih =
        Collects-mono r s (collect fuel env (suc k) s) round.2
          (ih s (round.0 (λ q. cc)) (omega (arith, round.1 refl)))

-- The loop of `resolve_async_ops` ends: one round more than there are pending operations is enough,
-- whatever completes and arrives. Unless an operation failed, the counter of web calls is exact
-- after it; and no operation is added.
pub collect-Collects :
    {Req : Type 0} (env : ℕ → Sweep) (r : OpsRunner Req)
    → IsExact r
    → Collects r (collect (suc (length r.pending_ops)) env 0 r)
collect-Collects env r e = collect_from (suc (length r.pending_ops)) env 0 r e (omega arith)
