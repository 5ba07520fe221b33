-- ===== src/Base/Int.antt =====
-- Go's `int` and `int64` where a negative value can occur.
use Prim.Native.Nat.{ℕ}
use mathlib.Core.Bool.{Bool, true, false}

-- `negsuc n` is -(n + 1).
pub data ℤ : Type 0 where
  pos : ℕ → ℤ
  negsuc : ℕ → ℤ

abbrev pub is_zero_ℕ : ℕ → Bool
is_zero_ℕ ℕ.zero = true
is_zero_ℕ (ℕ.suc n) = false

-- i == 0
abbrev pub is_zero : ℤ → Bool
is_zero (pos n) = is_zero_ℕ n
is_zero (negsuc n) = false

-- i <= 0
abbrev pub is_nonpositive : ℤ → Bool
is_nonpositive (pos n) = is_zero_ℕ n
is_nonpositive (negsuc n) = true

-- The magnitude of a value that is not negative.
abbrev pub to_ℕ : ℤ → ℕ
to_ℕ (pos n) = n
to_ℕ (negsuc n) = 0
