-- ===== src/Runner/Channel/Order.antt =====
-- Lists of results, sorted by the identifier of their request.
use wasm_operator.Base.{
  ℕ, zero, suc, false, some, some_injective, List, [], ◌∷◌, ◌++◌, ◌≡◌, ◌≢◌, refl, sym, ap, ◌∙◌,
  arith, get_elem?, set, erase_idx, retain, All, All-get_elem?, All-append, ◌==◌, inl, inr,
  Bool-cases, ==_iff,
}
use mathlib.Core.Path.{subst}
use mathlib.Core.List.{append_assoc}
use wasm_operator.Abi.Command.{AsyncResult}
use wasm_operator.Runner.Messages.{HasId}
use wasm_operator.Runner.Channel.{Sending, op_ids}

-- The results of one request.
abbrev pub of_id : ℕ → List AsyncResult → List AsyncResult
of_id id ms = retain (λ m. m.async_request_id == id) ms

pub of_id-append :
    (id : ℕ) (xs ys : List AsyncResult) → of_id id (xs ++ ys) ≡ of_id id xs ++ of_id id ys
of_id-append id [] ys = refl
of_id-append id (x ∷ xs) ys = ground (arith, of_id-append id xs ys)

pub of_id-HasId : (id : ℕ) (ms : List AsyncResult) → All (HasId id) ms → of_id id ms ≡ ms
of_id-HasId id [] h = refl
of_id-HasId id (m ∷ ms) (e, h) = ground (arith, e, of_id-HasId id ms h)

pub of_id-other :
    (id other : ℕ) (ms : List AsyncResult) → All (HasId other) ms → other ≢ id → of_id id ms ≡ []
of_id-other id other [] h ne = refl
of_id-other id other (m ∷ ms) (e, h) ne = ground (arith, e, of_id-other id other ms h ne, ne)

of_id-none :
    (id : ℕ) (m : AsyncResult) → (m.async_request_id == id) ≡ false → of_id id (m ∷ []) ≡ []
of_id-none id m n = ground (arith, n)

abbrev pub Absent : ℕ → List ℕ → Type 0
Absent id ids = All (λ k. k ≢ id) ids

abbrev pub Distinct : List ℕ → Type 0
Distinct [] = Unit
Distinct (id ∷ ids) = Absent id ids × Distinct ids

-- What the operations have still to send, one after the other.
abbrev pub all_unsent : List Sending → List AsyncResult
all_unsent [] = []
all_unsent (o ∷ os) = o.unsent ++ all_unsent os

abbrev pub HasIds : Sending → Type 0
HasIds o = All (HasId o.async_request_id) o.unsent

Absent-get_elem? :
    (n : ℕ) (os : List Sending) (i : ℕ) {o : Sending}
    → Absent n (op_ids os)
    → get_elem? os i ≡ some o
    → o.async_request_id ≢ n
Absent-get_elem? n [] i a at = cc
Absent-get_elem? n (o ∷ os) zero (ne, a) at =
    let same = ap (λ (x : Sending). x.async_request_id) (some_injective at) in λ e. ne (same ∙ e)
Absent-get_elem? n (o ∷ os) (suc i) (ne, a) at = Absent-get_elem? n os i a at

-- A result that is sent was the first of its request that had not been sent.
pub of_id-all_unsent :
    (id : ℕ) (os : List Sending) (i : ℕ) {o : Sending} {m : AsyncResult} {rest : List AsyncResult}
    → get_elem? os i ≡ some o
    → o.unsent ≡ m ∷ rest
    → Distinct (op_ids os)
    → All HasIds os
    → of_id id (m ∷ []) ++ of_id id (all_unsent (set os i (record o { unsent = rest })))
      ≡ of_id id (all_unsent os)
of_id-all_unsent id [] i at u d h = cc
of_id-all_unsent id (p ∷ os) zero {o} {m} {rest} at u d h =
    let same : p.unsent ≡ m ∷ rest = ap (λ (x : Sending). x.unsent) (some_injective at) ∙ u in
    sym (of_id-append id (m ∷ []) (rest ++ all_unsent os))
    ∙ ap (λ ms. of_id id (ms ++ all_unsent os)) (sym same)
of_id-all_unsent id (p ∷ os) (suc i) {o} {m} {rest} at u (a, d) (hp, h) =
    let tail = all_unsent (set os i (record o { unsent = rest })) in
    let rec = of_id-all_unsent id os i at u d h in
    let (om, _) = subst (All (HasId o.async_request_id)) u (All-get_elem? HasIds os i h at) in
    ap (λ ms. of_id id (m ∷ []) ++ ms) (of_id-append id p.unsent tail)
    ∙ swap id m p.unsent (of_id id tail) p.async_request_id om hp
        (Absent-get_elem? p.async_request_id os i a at)
    ∙ ap (λ ms. of_id id p.unsent ++ ms) rec
    ∙ sym (of_id-append id p.unsent (all_unsent os))
  where
    swap :
        (id : ℕ) (m : AsyncResult) (xs ys : List AsyncResult) (other : ℕ) {k : ℕ}
        → m.async_request_id ≡ k
        → All (HasId other) xs
        → k ≢ other
        → of_id id (m ∷ []) ++ (of_id id xs ++ ys) ≡ of_id id xs ++ (of_id id (m ∷ []) ++ ys)
    swap id m xs ys other e h ne = elim (Bool-cases (m.async_request_id == id)) [
      | inl y ↦
          let found : m.async_request_id ≡ id = (==_iff m.async_request_id id).0 y in
          rw (of_id-other id other xs h λ q. ne (sym e ∙ found ∙ sym q)) refl
      | inr n ↦ rw (of_id-none id m n) refl
    ]

pub op_ids-set :
    (os : List Sending) (i : ℕ) (p : Sending) {o : Sending}
    → get_elem? os i ≡ some o
    → p.async_request_id ≡ o.async_request_id
    → op_ids (set os i p) ≡ op_ids os
op_ids-set [] i p at e = refl
op_ids-set (q ∷ os) zero p at e =
    ap (λ k. k ∷ op_ids os) (e ∙ sym (ap (λ (x : Sending). x.async_request_id) (some_injective at)))
op_ids-set (q ∷ os) (suc i) p at e = ap (λ ks. q.async_request_id ∷ ks) (op_ids-set os i p at e)

pub op_ids-append : (os ps : List Sending) → op_ids (os ++ ps) ≡ op_ids os ++ op_ids ps
op_ids-append [] ps = refl
op_ids-append (o ∷ os) ps = ap (λ ks. o.async_request_id ∷ ks) (op_ids-append os ps)

pub Absent-erase_idx :
    (n : ℕ) (os : List Sending) (i : ℕ) → Absent n (op_ids os) → Absent n (op_ids (erase_idx os i))
Absent-erase_idx n [] i a = tt
Absent-erase_idx n (o ∷ os) zero (ne, a) = a
Absent-erase_idx n (o ∷ os) (suc i) (ne, a) = (ne, Absent-erase_idx n os i a)

pub Distinct-erase_idx :
    (os : List Sending) (i : ℕ) → Distinct (op_ids os) → Distinct (op_ids (erase_idx os i))
Distinct-erase_idx [] i d = tt
Distinct-erase_idx (o ∷ os) zero (a, d) = d
Distinct-erase_idx (o ∷ os) (suc i) (a, d) =
    (Absent-erase_idx o.async_request_id os i a, Distinct-erase_idx os i d)

-- An identifier behind others.
pub Distinct-append :
    (ids : List ℕ) (n : ℕ) → Distinct ids → Absent n ids → Distinct (ids ++ n ∷ [])
Distinct-append [] n d a = (tt, tt)
Distinct-append (k ∷ ids) n (b, d) (ne, a) =
    (All-append (λ j. j ≢ k) ids (n ∷ []) b ((λ e. ne (sym e)), tt), Distinct-append ids n d a)

pub Absent-split :
    (n : ℕ) (ids : List ℕ) (k : ℕ) → Absent n (ids ++ k ∷ []) → Absent n ids × (k ≢ n)
Absent-split n [] k (ne, a) = (tt, ne)
Absent-split n (j ∷ ids) k (ne, a) = let (a', ne') = Absent-split n ids k a in ((ne, a'), ne')

pub Distinct-split : (ids : List ℕ) (n : ℕ) → Distinct (ids ++ n ∷ []) → Distinct ids × Absent n ids
Distinct-split [] n d = (tt, tt)
Distinct-split (k ∷ ids) n (b, d) =
    let (d', a) = Distinct-split ids n d in
    let (b', ne) = Absent-split k ids n b in ((b', d'), ((λ e. ne (sym e)), a))

-- An operation without unsent results leaves none behind.
pub all_unsent-erase_idx :
    (os : List Sending) (i : ℕ) {o : Sending}
    → get_elem? os i ≡ some o
    → o.unsent ≡ []
    → all_unsent (erase_idx os i) ≡ all_unsent os
all_unsent-erase_idx [] i at e = refl
all_unsent-erase_idx (p ∷ os) zero at e =
    sym (ap (λ ms. ms ++ all_unsent os) (ap (λ (x : Sending). x.unsent) (some_injective at) ∙ e))
all_unsent-erase_idx (p ∷ os) (suc i) at e =
    ap (λ ms. p.unsent ++ ms) (all_unsent-erase_idx os i at e)

pub all_unsent-append :
    (os ps : List Sending) → all_unsent (os ++ ps) ≡ all_unsent os ++ all_unsent ps
all_unsent-append [] ps = refl
all_unsent-append (o ∷ os) ps =
    ap (λ ms. o.unsent ++ ms) (all_unsent-append os ps)
    ∙ sym (append_assoc o.unsent (all_unsent os) (all_unsent ps))

-- What comes last in a list of three parts.
pub of_id-last :
    (id : ℕ) (xs ys zs ws : List AsyncResult)
    → of_id id (xs ++ (ys ++ (zs ++ ws))) ≡ of_id id (xs ++ (ys ++ zs)) ++ of_id id ws
of_id-last id xs ys zs ws =
    ap (λ ms. of_id id (xs ++ ms)) (sym (append_assoc ys zs ws))
    ∙ ap (of_id id) (sym (append_assoc xs (ys ++ zs) ws))
    ∙ of_id-append id (xs ++ (ys ++ zs)) ws

-- A result that moves from the last part to the end of the middle part.
pub of_id-moved :
    (id : ℕ) (xs ys zs us : List AsyncResult) (m : AsyncResult)
    → of_id id (m ∷ []) ++ of_id id us ≡ of_id id zs
    → of_id id (xs ++ ((ys ++ m ∷ []) ++ us)) ≡ of_id id (xs ++ (ys ++ zs))
of_id-moved id xs ys zs us m e =
    of_id-append id xs ((ys ++ m ∷ []) ++ us)
    ∙ ap (λ ms. of_id id xs ++ ms)
        (ap (of_id id) (append_assoc ys (m ∷ []) us)
          ∙ of_id-append id ys (m ∷ us)
          ∙ ap (λ ms. of_id id ys ++ ms) (of_id-append id (m ∷ []) us ∙ e)
          ∙ sym (of_id-append id ys zs))
    ∙ sym (of_id-append id xs (ys ++ zs))
