-- ===== src/Runner/Channel/Delivery.antt =====
-- The results that leave the channel of runner.rs: none is lost, and those of a request keep their
-- order.
use wasm_operator.Base.{
  ℕ, zero, suc, ◌≤◌, some, some_injective, List, [], ◌∷◌, ◌++◌, ◌≡◌, ◌≢◌, refl, sym, ap, ◌∙◌,
  get_elem?, length,
}
use mathlib.Core.Path.{subst}
use mathlib.Core.List.{append-nil}
use wasm_operator.Abi.Command.{AsyncResult}
use wasm_operator.Runner.{run_request}
use wasm_operator.Runner.Messages.{run_request-HasId}
use wasm_operator.Runner.Channel.{channel_size, Begun, Channel, Run, made_ids}
use wasm_operator.Runner.Channel.Order.{
  of_id, of_id-append, of_id-HasId, of_id-other, Absent, Distinct, all_unsent,
}
use wasm_operator.Runner.Channel.Complete.{results, all_results, Run-IsComplete}

all_results-other :
    {Req : Type 0} (id : ℕ) (made : List (Begun Req))
    → Absent id (made_ids made)
    → of_id id (all_results made) ≡ []
all_results-other id [] a = refl
all_results-other id (b ∷ made) (ne, a) =
    of_id-append id (results b) (all_results made)
    ∙ rw
        (
          of_id-other id b.async_request_id (results b)
              (run_request-HasId b.async_request_id b.request b.answer) ne,
          all_results-other id made a,
        )
        refl

made_ids-Absent :
    {Req : Type 0} (id : ℕ) (made : List (Begun Req)) (k : ℕ) {b : Begun Req}
    → Absent id (made_ids made)
    → get_elem? made k ≡ some b
    → b.async_request_id ≢ id
made_ids-Absent id [] k a at = cc
made_ids-Absent {Req} id (d ∷ made) zero (ne, a) at =
    λ e. ne (ap (λ (x : Begun Req). x.async_request_id) (some_injective at) ∙ e)
made_ids-Absent id (d ∷ made) (suc k) (ne, a) at = made_ids-Absent id made k a at

all_results-of_id :
    {Req : Type 0} (made : List (Begun Req)) (k : ℕ) {b : Begun Req}
    → Distinct (made_ids made)
    → get_elem? made k ≡ some b
    → of_id b.async_request_id (all_results made) ≡ results b
all_results-of_id [] k d at = cc
all_results-of_id {Req} (b ∷ made) zero (a, d) at =
    subst (λ (x : Begun Req). of_id x.async_request_id (results b ++ all_results made) ≡ results x)
      (some_injective at)
      (of_id-append b.async_request_id (results b) (all_results made)
        ∙ ap (λ ms. of_id b.async_request_id (results b) ++ ms)
            (all_results-other b.async_request_id made a)
        ∙ append-nil (of_id b.async_request_id (results b))
        ∙ of_id-HasId b.async_request_id (results b)
            (run_request-HasId b.async_request_id b.request b.answer))
all_results-of_id (e ∷ made) (suc k) {b} (a, d) at =
    let ne = made_ids-Absent e.async_request_id made k a at in
    of_id-append b.async_request_id (results e) (all_results made)
    ∙ rw
        (of_id-other b.async_request_id e.async_request_id (results e)
          (run_request-HasId e.async_request_id e.request e.answer) λ same. ne (sym same))
        (all_results-of_id made k d at)

-- In every run of a runner whose requests have different identifiers, the results of a request that
-- were taken out of the channel, those that are in it, and those that its operation has still to
-- send, in this order, are what the request sends: none is lost, doubled or overtaken. The channel
-- never holds more than ten results.
pub Run-results :
    {Req : Type 0} {made : List (Begun Req)} {received : List AsyncResult} {c : Channel}
    → Run made received c
    → Distinct (made_ids made)
    → (k : ℕ) {b : Begun Req} → get_elem? made k ≡ some b
    → (of_id b.async_request_id (received ++ (c.queue ++ all_unsent c.pending_ops))
        ≡ (run_request b.async_request_id b.request b.answer).0)
      × (length c.queue ≤ channel_size)
Run-results {made = made} r d k {b} at =
    let i = Run-IsComplete r d in (i.all b.async_request_id ∙ all_results-of_id made k d at, i.room)
