-- ===== src/Base/Words.antt =====
-- 32-bit machine words as native numbers below 2 ^ 32, and the signed reading of their order.
use Prim.Native.Nat.{ℕ, ◌+◌, ◌-◌, ◌*◌, ◌%◌, ◌^◌}
use mathlib.Core.Bool.{Bool}
use nyu_operating_systems.Base.Tests.{ltb}

abbrev pub u32 : ℕ → ℕ
u32 n = n % 2 ^ 32

abbrev pub add32 : ℕ → ℕ → ℕ
add32 a b = u32 (a + b)

abbrev pub sub32 : ℕ → ℕ → ℕ
sub32 a b = u32 (a + 2 ^ 32 - b)

-- `(int)a < (int)b`: adding 2 ^ 31 turns the signed order into the unsigned one.
abbrev pub int_lt : ℕ → ℕ → Bool
int_lt a b = ltb (u32 (a + 2 ^ 31)) (u32 (b + 2 ^ 31))

-- The word of -1.
abbrev pub minus_one : ℕ
minus_one = 2 ^ 32 - 1

-- A word from its bytes, on a little-endian machine.
abbrev pub le_word : ℕ → ℕ → ℕ → ℕ → ℕ
le_word a b c d = a + 2 ^ 8 * b + 2 ^ 16 * c + 2 ^ 24 * d
