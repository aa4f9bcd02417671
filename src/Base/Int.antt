-- ===== src/Base/Int.antt =====
-- Go's `int`, as far as the program compares it with zero: a natural number, or below zero.
use Prim.Native.Nat.{ℕ}

-- `negsuc n` is -(n + 1).
pub data ℤ : Type 0 where
  pos : ℕ → ℤ
  negsuc : ℕ → ℤ

-- `max(n, 0)`
abbrev pub pos_part : ℤ → ℕ
pos_part (pos n) = n
pos_part (negsuc n) = 0

-- What two natural numbers, the one below 2 ^ 63, sum to in 64 bits is written where they are added.
abbrev pub max_int : ℕ
max_int = 9_223_372_036_854_775_807
