-- ===== src/Module/History.antt =====
-- The history of events in module.rs, which is sent to the prediction server.
use wasm_operator.Base.{
  ℕ, zero, suc, ◌+◌, ◌-◌, ◌≤◌, ◌<◌, false, List, [], ◌∷◌, ◌++◌, ◌≡◌, refl, arith, inl, inr, leb,
  leb_iff, length, drop, Bool-cases, length-append, length-drop, drop-append,
}
use mathlib.Core.List.{append-nil, append_assoc}
use wasm_operator.Module.{buffer_length, push_event}

-- The last `n` elements of a list.
abbrev pub take_last {ℓ} : {A : Type ℓ} → ℕ → List A → List A
take_last n xs = drop (length xs - n) xs

unfoldable pub push_events : {Time : Type 0} → List Time → List Time → List Time
push_events [] events = events
push_events (t ∷ ts) events = push_events ts (push_event t events)

drop-nil {ℓ} : (A : Type ℓ) (n : ℕ) → drop {ℓ} {A = A} n [] ≡ []
drop-nil A zero = refl
drop-nil A (suc n) = refl

drop-drop {ℓ} : {A : Type ℓ} (m n : ℕ) (xs : List A) → drop m (drop n xs) ≡ drop (n + m) xs
drop-drop m zero xs = let e : 0 + m ≡ m = omega arith in rw e
drop-drop {A} m (suc n) [] = rw (drop-nil A (suc n + m), drop-nil A m)
drop-drop m (suc n) (x ∷ xs) =
    let e : suc n + m ≡ suc (n + m) = omega arith in rw e (drop-drop m n xs)

push_event-full :
    {Time : Type 0} (t : Time) (events : List Time)
    → buffer_length ≤ length events
    → push_event t events ≡ drop 1 events ++ t ∷ []
unfolding push_event
push_event-full t events h = rw ((leb_iff buffer_length (length events)).1 h)

push_event-room :
    {Time : Type 0} (t : Time) (events : List Time)
    → length events < buffer_length
    → push_event t events ≡ events ++ t ∷ []
unfolding push_event
push_event-room t events h =
    let e : leb buffer_length (length events) ≡ false = ground arith in rw e

-- One more event, on a buffer that holds the last ones of a history.
push_event-take_last :
    {Time : Type 0} (t : Time) (all : List Time)
    → push_event t (take_last buffer_length all) ≡ take_last buffer_length (all ++ t ∷ [])
push_event-take_last t all = elim (Bool-cases (leb buffer_length (length all))) [
  | inl h ↦
      let full : buffer_length ≤ length all = (leb_iff buffer_length (length all)).0 h in
      let skip : length (all ++ t ∷ []) - buffer_length ≡ (length all - buffer_length) + 1 =
        omega (arith, length-append all (t ∷ [])) in
      rw (
        push_event-full t (take_last buffer_length all)
            (omega (arith, length-drop (length all - buffer_length) all)),
        drop-drop 1 (length all - buffer_length) all,
        skip,
        drop-append ((length all - buffer_length) + 1) all (t ∷ []) (omega arith),
      )
  | inr h ↦
      let none_yet : length all - buffer_length ≡ 0 = ground arith in
      let none_then : length (all ++ t ∷ []) - buffer_length ≡ 0 =
        ground (arith, length-append all (t ∷ [])) in
      rw (none_yet, none_then, push_event-room t all (ground arith))
]

-- Whatever events are recorded one after the other, on a buffer that holds the last 50 of a
-- history, the buffer holds the last 50 of the history that they extend, in order.
pub push_events-take_last :
    {Time : Type 0} (ts all : List Time)
    → push_events ts (take_last buffer_length all) ≡ take_last buffer_length (all ++ ts)
unfolding push_events
push_events-take_last [] all = rw append-nil
push_events-take_last (t ∷ ts) all =
    rw (push_event-take_last t all, push_events-take_last ts (all ++ t ∷ []), append_assoc)

pub length-push_event :
    {Time : Type 0} (t : Time) (events : List Time)
    → length events ≤ buffer_length
    → length (push_event t events) ≤ buffer_length
unfolding push_event
length-push_event t events h = ground (
  arith,
  length-append events (t ∷ []),
  length-append (drop 1 events) (t ∷ []),
  length-drop 1 events,
)
