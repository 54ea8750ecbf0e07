-- ===== src/Syscall/Words.antt =====
-- Words that pass through wider and narrower ones on their way to the proxy.
use azalea.Prelude.{ℕ, ◌%◌, ◌^◌, ◌<◌, ◌≡◌, refl, true, ltb, arith}
use azalea.Prelude.Words.{extend_int}
use azalea.Offload.Owners.{extend_int-mod}

-- An `int` that goes through a QWORD, and a length that goes through an `int`.
pub int_back : (v : ℕ) → v < 2 ^ 32 → extend_int v % 2 ^ 32 ≡ v
int_back v h = omega (arith, extend_int-mod v)

pub length_back : (v : ℕ) → v < 2 ^ 31 → extend_int (v % 2 ^ 32) ≡ v
unfolding extend_int
length_back v h =
    let word : v % 2 ^ 32 ≡ v = omega arith in
    let small : ltb v (2 ^ 31) ≡ true = ground arith in rw (word, word, small) refl
