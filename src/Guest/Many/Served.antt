-- ===== src/Guest/Many/Served.antt =====
-- Many plain requests from one end to the other: runner.rs sends their results through the channel,
-- and executor.rs hands them to the tasks.
use wasm_operator.Base.{
  ℕ, zero, suc, ◌<◌, Option, some, List, [], ◌∷◌, ◌++◌, ◌≡◌, ◌≢◌, ◌⊎◌, refl, sym, ap, ◌∙◌, arith,
  get_elem?, length, length-append, All, All-append, inl, inr,
}
use mathlib.Core.Path.{subst}
use mathlib.Core.List.{append-nil}
use wasm_operator.Base.Outcome.{ok}
use wasm_operator.Abi.Command.{Bytes, AsyncResult, http}
use wasm_operator.Runner.{Answer, to_bytes}
use wasm_operator.Runner.Channel.{Begun, Channel, Run, made_ids}
use wasm_operator.Runner.Channel.Order.{of_id, all_unsent, Distinct, Distinct-append}
use wasm_operator.Runner.Channel.Complete.{made_ids-append}
use wasm_operator.Runner.Channel.Delivery.{Run-results}
use wasm_operator.Runner.Channel.Known.{Run-IsKnown}
use wasm_operator.Guest.{Guest}
use wasm_operator.Guest.Mailbox.{IsOpen, awaited}
use wasm_operator.Guest.Request.{Plain, awaits_meta, responded, poll_plain}
use wasm_operator.Guest.Many.{deliver_all}
use wasm_operator.Guest.Many.Plain.{deliver_all-responded}

-- The first `n` values of a function.
abbrev pub list_of {ℓ} : {A : Type ℓ} → (ℕ → A) → ℕ → List A
list_of f zero = []
list_of f (suc n) = list_of f n ++ f n ∷ []

length-list_of : {A : Type 0} (f : ℕ → A) (n : ℕ) → length (list_of f n) ≡ n
length-list_of f zero = refl
length-list_of f (suc n) =
    let sum = length-append (list_of f n) (f n ∷ []) in omega (arith, sum, length-list_of f n)

get_elem?-last : {A : Type 0} (xs : List A) (x : A) → get_elem? (xs ++ x ∷ []) (length xs) ≡ some x
get_elem?-last [] x = refl
get_elem?-last (y ∷ xs) x = get_elem?-last xs x

get_elem?-before :
    {A : Type 0} (xs : List A) (x : A) (i : ℕ)
    → i < length xs
    → get_elem? (xs ++ x ∷ []) i ≡ get_elem? xs i
get_elem?-before [] x i lt = absurd (omega (arith, lt))
get_elem?-before (y ∷ xs) x zero lt = refl
get_elem?-before (y ∷ xs) x (suc i) lt = get_elem?-before xs x i (omega (arith, lt))

below : (t n : ℕ) → t < suc n → (t ≡ n) ⊎ (t < n)
below zero zero lt = inl refl
below zero (suc n) lt = inr (omega arith)
below (suc t) zero lt = absurd (omega (arith, lt))
below (suc t) (suc n) lt = elim (below t n (omega (arith, lt))) [
  | inl e ↦ inl (ap suc e)
  | inr l ↦ inr (omega (arith, l))
]

get_elem?-list_of :
    {A : Type 0} (f : ℕ → A) (n t : ℕ) → t < n → get_elem? (list_of f n) t ≡ some (f t)
get_elem?-list_of f zero t lt = absurd (omega (arith, lt))
get_elem?-list_of f (suc n) t lt = elim (below t n lt) [
  | inl e ↦
      ap (get_elem? (list_of f n ++ f n ∷ [])) (e ∙ sym (length-list_of f n))
      ∙ get_elem?-last (list_of f n) (f n)
      ∙ ap (λ k. some (f k)) (sym e)
  | inr l ↦
      get_elem?-before (list_of f n) (f n) t
        (let same = length-list_of f n in omega (arith, l, same))
      ∙ get_elem?-list_of f n t l
]

All-list_of :
    {A : Type 0} (P : A → Type 0) (f : ℕ → A) (n : ℕ)
    → ((t : ℕ) → t < n → P (f t))
    → All P (list_of f n)
All-list_of P f zero h = tt
All-list_of P f (suc n) h =
    All-append P (list_of f n) (f n ∷ []) (All-list_of P f n λ t lt. h t (omega (arith, lt)))
      (h n (omega arith), tt)

Distinct-list_of :
    (ids : ℕ → ℕ) (n : ℕ)
    → ((j k : ℕ) → j < n → k < n → ids j ≡ ids k → j ≡ k)
    → Distinct (list_of ids n)
Distinct-list_of ids zero h = tt
Distinct-list_of ids (suc n) h =
    Distinct-append (list_of ids n) (ids n)
      (Distinct-list_of ids n λ j k lt lt' e. h j k (omega (arith, lt)) (omega (arith, lt')) e)
      (All-list_of (λ k. k ≢ ids n) ids n
        λ t lt e. let same = h t n (omega (arith, lt)) (omega arith) e in omega (arith, lt, same))

made_ids-list_of :
    {Req : Type 0} (f : ℕ → Begun Req) (n : ℕ)
    → made_ids (list_of f n) ≡ list_of (λ t. (f t).async_request_id) n
made_ids-list_of f zero = refl
made_ids-list_of f (suc n) =
    made_ids-append (list_of f n) (f n)
    ∙ ap (λ ks. ks ++ (f n).async_request_id ∷ []) (made_ids-list_of f n)

-- The request of a task, and the answer that it gets.
abbrev pub web_call : {Req : Type 0} → (ℕ → ℕ) → (ℕ → Req) → (ℕ → Answer) → ℕ → Begun Req
web_call ids reqs answers t = record {
  async_request_id = ids t;
  request = http (reqs t);
  answer = some (answers t);
}

-- Tasks that each wait for a plain request of their own, with different identifiers and handles,
-- whose requests are answered with metadata that can be read and a body that arrives in whole. At
-- the end of a run of the operations of these requests, when all of them have ended and the channel
-- is empty, however they have taken turns: the results that have left the channel, given to the
-- operator in the order in which they came, bring each task its own metadata and body, and nothing
-- panics.
pub Run-responded :
    {Req Meta : Type 0} (deserialize : Bytes → Option Meta) (n : ℕ) (ids handles : ℕ → ℕ)
    (reqs : ℕ → Req) (answers : ℕ → Answer) (raws bodies : ℕ → Bytes) (metas : ℕ → Meta)
    (received : List AsyncResult) (c : Channel) (g : Guest)
    → ((j k : ℕ) → j < n → k < n → ids j ≡ ids k → j ≡ k)
    → ((j k : ℕ) → j < n → k < n → handles j ≡ handles k → j ≡ k)
    → ((t : ℕ)
        → t < n
        → ((answers t).meta ≡ some (raws t))
          × (deserialize (raws t) ≡ some (metas t))
          × (to_bytes (answers t).body ≡ some (bodies t)))
    → ((t : ℕ) → t < n → IsOpen (ids t) (handles t) (awaited t) g)
    → Run (list_of (web_call ids reqs answers) n) received c
    → c.pending_ops ≡ []
    → c.queue ≡ []
    → (fs : ℕ → Plain Meta) × (g' : Guest) × (deliver_all
          (poll_plain deserialize)
          received
          ((λ t. awaits_meta (handles t)), g)
        ≡ ok (fs, g'))
      × ((t : ℕ) → t < n → fs t ≡ responded (metas t) (bodies t))
Run-responded deserialize n ids handles reqs answers raws bodies metas received c g ids_differ
      handles_differ answered opened run ended empty =
    let made = list_of (web_call ids reqs answers) n in
    let same_ids = made_ids-list_of (web_call ids reqs answers) n in
    let distinct = subst Distinct (sym same_ids) (Distinct-list_of ids n ids_differ) in
    let nothing_left : received ++ (c.queue ++ all_unsent c.pending_ops) ≡ received =
      rw (ended, empty) (append-nil received) in
    deliver_all-responded deserialize n ids handles reqs answers raws bodies metas received g
      ids_differ handles_differ answered opened
      (Run-IsKnown run (λ id. (t : ℕ) × (t < n) × (id ≡ ids t))
        (subst (All (λ id. (t : ℕ) × (t < n) × (id ≡ ids t))) (sym same_ids)
          (All-list_of (λ id. (t : ℕ) × (t < n) × (id ≡ ids t)) ids n λ t lt. (t, lt, refl))))
      λ t lt.
        ap (of_id (ids t)) (sym nothing_left)
        ∙ (Run-results run distinct t (get_elem?-list_of (web_call ids reqs answers) n t lt)).0
