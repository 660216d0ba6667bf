-- ===== src/Common/Int.antt =====
-- Signed integers over the native numbers, under the library's names, and the conversions that C
-- makes between `lua_Integer` and the machine types.
use Prim.Native.Nat.{ℕ, ◌-◌, ◌%◌, ◌^◌}
use mathlib.Core.Bool.{Bool, true, false}
use flualibs.Common.Tests.{ltb, if◌then◌else◌}

-- `negsuc n` is -(n + 1).
pub data ℤ : Type 0 where
  pos : ℕ → ℤ
  negsuc : ℕ → ℤ

-- The bits of an integer in a word of `w` bits.
abbrev pub to_word : ℕ → ℤ → ℕ
to_word w (pos n) = n % 2 ^ w
to_word w (negsuc n) = 2 ^ w - 1 - n % 2 ^ w

-- The integer that the bits stand for in two's complement.
abbrev pub of_word : ℕ → ℕ → ℤ
of_word w n = if ltb n (2 ^ (w - 1)) then pos n else negsuc (2 ^ w - 1 - n)

-- `(int)n`.
abbrev pub to_int : ℤ → ℤ
to_int n = of_word 32 (to_word 32 n)

abbrev pub is_negative : ℤ → Bool
is_negative (pos n) = false
is_negative (negsuc n) = true
