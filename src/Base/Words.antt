-- ===== src/Base/Words.antt =====
-- Machine words: unsigned integers as native numbers with their wrap-around.
use Prim.Native.Nat.{ℕ, ◌%◌, ◌^◌}

abbrev pub u32 : ℕ → ℕ
u32 n = n % 2 ^ 32

abbrev pub u16 : ℕ → ℕ
u16 n = n % 2 ^ 16

abbrev pub u8 : ℕ → ℕ
u8 n = n % 2 ^ 8
