-- ===== src/Base/Ints.antt =====
-- C's `int` results, over the native numbers: counts, file descriptors and the error value -1.
use Prim.Native.Nat.{ℕ}
use mathlib.Core.Bool.{Bool, true, false}

-- `negsuc n` is -(n + 1).
pub data ℤ : Type 0 where
  pos : ℕ → ℤ
  negsuc : ℕ → ℤ

abbrev pub minus_one : ℤ
minus_one = negsuc 0

abbrev pub is_minus_one : ℤ → Bool
is_minus_one (negsuc (ℕ.zero)) = true
is_minus_one _ = false

abbrev pub is_negative : ℤ → Bool
is_negative (negsuc _) = true
is_negative (pos _) = false
