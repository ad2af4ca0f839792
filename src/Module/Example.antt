-- ===== src/Module/Example.antt =====
-- A clock for tests, which counts milliseconds, and a module with a small engine.
use wasm_operator.Base.{ℕ, ◌*◌, ℤ, pos, negsuc, ◌+ℤ◌, ◌-ℤ◌, neg, ◌≡◌, arith}
use wasm_operator.Module.Clock.{Chrono, IsChrono}

abbrev pub clock : Chrono ℤ
clock = record { millis = λ a b. a -ℤ b; plus_days = λ t n. t +ℤ pos (n * 86_400_000) }

minus_neg : (a b : ℤ) → b -ℤ a ≡ neg (a -ℤ b)
minus_neg (pos a) (pos b) = ground arith
minus_neg (pos a) (negsuc b) = ground arith
minus_neg (negsuc a) (pos b) = ground arith
minus_neg (negsuc a) (negsuc b) = ground arith

plus_minus : (t : ℤ) (n : ℕ) → (t +ℤ pos n) -ℤ t ≡ pos n
plus_minus (pos t) n = ground arith
plus_minus (negsuc t) n = ground arith

pub clock-IsChrono : IsChrono clock
clock-IsChrono = record {
  millis-neg = minus_neg;
  millis-plus_days = λ t n. plus_minus t (n * 86_400_000);
}
