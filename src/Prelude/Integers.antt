-- ===== src/Prelude/Integers.antt =====
-- The signed 64-bit numbers that the code takes for a `long`, without a bound.
use Prim.Native.Nat.{ℕ, ◌+◌, ◌-◌}
use mathlib.Core.Bool.{Bool, false}
use azalea.Prelude.Tests.{leb, ltb, if◌then◌else◌}

pub data ℤ : Type 0 where
  pos : ℕ → ℤ
  negsuc : ℕ → ℤ

-- `z - n`
abbrev pub sub_nat : ℤ → ℕ → ℤ
sub_nat (pos m) n = if leb n m then pos (m - n) else negsuc (n - m - 1)
sub_nat (negsuc m) n = negsuc (m + n)

-- `z > 0`
abbrev pub is_positive : ℤ → Bool
is_positive (pos m) = ltb 0 m
is_positive (negsuc m) = false
