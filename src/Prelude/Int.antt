-- ===== src/Prelude/Int.antt =====
-- Signed integers over the native numbers, as far as the code needs them: floor division of a
-- possibly negative number by a positive one.
use Prim.Native.Nat.{ℕ, zero, suc, ◌/◌}

-- `negsuc n` is -(n + 1).
pub data ℤ : Type 0 where
  pos : ℕ → ℤ
  negsuc : ℕ → ℤ

abbrev pub neg : ℤ → ℤ
neg (pos zero) = pos zero
neg (pos (suc n)) = negsuc n
neg (negsuc n) = pos (suc n)

-- Python's `a // d`, which rounds down: -(n + 1) // d is -(n // d + 1).
abbrev pub floor_div : ℤ → ℕ → ℤ
floor_div (pos n) d = pos (n / d)
floor_div (negsuc n) d = negsuc (n / d)

abbrev pub pos_part : ℤ → ℕ
pos_part (pos n) = n
pos_part (negsuc n) = 0
