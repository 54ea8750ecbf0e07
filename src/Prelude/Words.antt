-- ===== src/Prelude/Words.antt =====
-- Where C makes an `int` of a wider word, or a wider word of an `int`.
use Prim.Native.Nat.{ℕ, ◌+◌, ◌-◌, ◌%◌, ◌^◌, ◌<◌}
use mathlib.Core.Path.{◌≡◌, refl}
use mathlib.Core.Bool.{true}
use native.Mathlib.Omega.{arith}
use azalea.Prelude.Tests.{ltb, if◌then◌else◌}

-- An `int`, sign extended to a QWORD.
unfoldable pub extend_int : ℕ → ℕ
extend_int v = let w = v % 2 ^ 32 in if ltb w (2 ^ 31) then w else w + (2 ^ 64 - 2 ^ 32)

-- What a word counts as an `int`: as many rounds as the value, none when it is negative.
unfoldable pub int_count : ℕ → ℕ
int_count v = let w = v % 2 ^ 32 in if ltb w (2 ^ 31) then w else 0

pub extend_int-small : (v : ℕ) → v < 2 ^ 31 → extend_int v ≡ v
unfolding extend_int
extend_int-small v h =
    let word : v % 2 ^ 32 ≡ v = omega arith in
    let small : ltb v (2 ^ 31) ≡ true = ground arith in rw (word, small) refl

pub int_count-small : (v : ℕ) → v < 2 ^ 31 → int_count v ≡ v
unfolding int_count
int_count-small v h =
    let word : v % 2 ^ 32 ≡ v = omega arith in
    let small : ltb v (2 ^ 31) ≡ true = ground arith in rw (word, small) refl
