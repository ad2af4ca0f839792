-- ===== src/Operators/Traces.antt =====
-- `read_traces` of controllers/value-changer/src/main.rs: the times of a trace become intervals. A
-- time and a duration of `chrono` are a number of nanoseconds.
use wasm_operator.Base.{
  ℕ, suc, ◌+◌, Option, none, some, List, [], ◌∷◌, map, length, ◌≡◌, refl, ap, ◌∙◌, arith, ℤ, pos,
  ◌+ℤ◌, ◌-ℤ◌, ltb, if◌then◌else◌,
}
use wasm_operator.Base.Outcome.{Outcome, ok, panicked, ◌>>=◌}

-- The records of the file, none for one that cannot be parsed (`expect`).
unfoldable pub parsed_dates : List (Option ℤ) → Outcome (List ℤ)
parsed_dates [] = ok []
parsed_dates (none ∷ records) = panicked
parsed_dates (some date ∷ records) = do rest ← parsed_dates records; ok (date ∷ rest)

-- The last loop: each difference less the one before it.
unfoldable pub interval_differences : ℤ → List ℤ → List ℤ
interval_differences previous_duration [] = []
interval_differences previous_duration (i ∷ differences) =
    (i -ℤ previous_duration) ∷ interval_differences i differences

-- The differences from the first date, and their intervals.
unfoldable pub intervals : List ℤ → List ℤ
intervals [] = []
intervals (begin_date ∷ dates) =
    let differences = map (λ (x : ℤ). x -ℤ begin_date) dates in
    let first = begin_date -ℤ begin_date in interval_differences first (first ∷ differences)

unfoldable pub read_traces : List (Option ℤ) → Outcome (List ℤ)
read_traces records = do
  dates ← parsed_dates records
  if ltb 1 (length dates) then ok (intervals dates) else panicked

-- The intervals of dates, straight from one date to the next.
unfoldable pub gaps : ℤ → List ℤ → List ℤ
gaps date [] = []
gaps date (next ∷ dates) = (next -ℤ date) ∷ gaps next dates

difference_gap : (x y z : ℤ) → (x -ℤ z) -ℤ (y -ℤ z) ≡ x -ℤ y
difference_gap x y z = ground arith

interval_differences-gaps :
    (begin_date date : ℤ) (dates : List ℤ)
    → interval_differences (date -ℤ begin_date) (map (λ (x : ℤ). x -ℤ begin_date) dates)
      ≡ gaps date dates
unfolding interval_differences gaps
interval_differences-gaps begin_date date [] = refl
interval_differences-gaps begin_date date (next ∷ dates) =
    rw (difference_gap next date begin_date, interval_differences-gaps begin_date next dates) refl

-- The first program run waits nothing; after it the intervals are those from each date to the next.
pub intervals-gaps :
    (begin_date : ℤ) (dates : List ℤ)
    → intervals (begin_date ∷ dates) ≡ pos 0 ∷ gaps begin_date dates
unfolding intervals interval_differences
intervals-gaps begin_date dates =
    let none_left : (begin_date -ℤ begin_date) -ℤ (begin_date -ℤ begin_date) ≡ pos 0 =
      ground arith in
    rw (none_left, interval_differences-gaps begin_date begin_date dates) refl

unfoldable pub total : List ℤ → ℤ
total [] = pos 0
total (x ∷ xs) = x +ℤ total xs

unfoldable pub last_of : ℤ → List ℤ → ℤ
last_of date [] = date
last_of date (next ∷ dates) = last_of next dates

minus_self : (x : ℤ) → pos 0 ≡ x -ℤ x
minus_self x = ground arith

telescope : (x y z : ℤ) → (y -ℤ x) +ℤ (z -ℤ y) ≡ z -ℤ x
telescope x y z = ground arith

plus_zero : (x y : ℤ) → pos 0 +ℤ (x -ℤ y) ≡ x -ℤ y
plus_zero x y = ground arith

total-gaps : (date : ℤ) (dates : List ℤ) → total (gaps date dates) ≡ last_of date dates -ℤ date
unfolding total gaps last_of
total-gaps date [] = minus_self date
total-gaps date (next ∷ dates) =
    rw (total-gaps next dates) (telescope date next (last_of next dates))

length-gaps : (date : ℤ) (dates : List ℤ) → length (gaps date dates) ≡ length dates
unfolding gaps
length-gaps date [] = refl
length-gaps date (next ∷ dates) = rw (length-gaps next dates) refl

parsed_dates-map : (dates : List ℤ) → parsed_dates (map some dates) ≡ ok dates
unfolding parsed_dates
parsed_dates-map [] = refl
parsed_dates-map (date ∷ dates) = rw (parsed_dates-map dates) refl

-- A trace of two dates or more that can be parsed gives one interval for each date, and the
-- intervals add up to the time from the first date to the last.
pub read_traces-total :
    (begin_date next : ℤ) (dates : List ℤ)
    → (waits : List ℤ) × (read_traces (map some (begin_date ∷ next ∷ dates)) ≡ ok waits)
      × (length waits ≡ length dates + 2)
      × (total waits ≡ last_of next dates -ℤ begin_date)
unfolding read_traces total gaps last_of
read_traces-total begin_date next dates =
    let all : List ℤ = next ∷ dates in
    (
      pos 0 ∷ gaps begin_date all,
      ap (λ x. x >>= λ (ds : List ℤ). if ltb 1 (length ds) then ok (intervals ds) else panicked)
            (parsed_dates-map (begin_date ∷ all))
          ∙ enough (length dates) (intervals (begin_date ∷ all))
          ∙ ap ok (intervals-gaps begin_date all),
      omega (arith, length-gaps begin_date all),
      ap (λ x. pos 0 +ℤ x) (total-gaps begin_date all) ∙ plus_zero (last_of next dates) begin_date,
    )
  where
    enough :
        (n : ℕ) (waits : List ℤ) → (if ltb 1 (suc (suc n)) then ok waits else panicked) ≡ ok waits
    enough n waits = ground arith
