-- ===== src/Prelude/Ints.antt =====
-- Signed integers over the native numbers, under the library's names.
use Prim.Native.Nat.{ℕ}
use mathlib.Core.Bool.{Bool, true, false}
use polarcloud.Prelude.Tests.{◌==◌}

-- `negsuc n` is -(n + 1).
pub data ℤ : Type 0 where
  pos : ℕ → ℤ
  negsuc : ℕ → ℤ

-- Whether it is at most zero, and whether it is that natural number.
abbrev pub at_most_zero : ℤ → Bool
at_most_zero (pos n) = n == 0
at_most_zero (negsuc n) = true

abbrev pub is_nat : ℤ → ℕ → Bool
is_nat (pos m) n = m == n
is_nat (negsuc m) n = false
