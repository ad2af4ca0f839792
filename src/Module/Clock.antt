-- ===== src/Module/Clock.antt =====
-- What module.rs uses of the `chrono` crate: points in time, differences in milliseconds, days.
use wasm_operator.Base.{ℕ, ◌*◌, ◌≡◌, ℤ, pos, neg}

pub record Chrono (Time : Type 0) : Type 0 where
  -- `a.signed_duration_since(b).num_milliseconds()`
  pub millis : Time → Time → ℤ
  -- `t + Duration::days(n)`
  pub plus_days : Time → ℕ → Time

-- The whole milliseconds of a difference are rounded towards zero, so the difference the other way
-- round has the opposite sign; a day has 86,400,000 of them.
pub record IsChrono {Time : Type 0} (c : Chrono Time) : Type 0 where
  pub millis-neg : (a b : Time) → c.millis b a ≡ neg (c.millis a b)
  pub millis-plus_days : (t : Time) (n : ℕ) → c.millis (c.plus_days t n) t ≡ pos (n * 86_400_000)
