-- ===== src/Thread/Mask.antt =====
-- Which cores `set_core` of kernel/thread.c allows.
use azalea.Prelude.{
  ℕ, ◌-◌, ◌/◌, ◌%◌, ◌^◌, ◌<◌, ◌≡◌, refl, Bool, Bool-cases, inl, inr, true, false, not, Option, none,
  some, ◌==◌, bit_and, every, every_lem, arith,
}
use azalea.Thread.{clear_core_mask, core_is_allowed, set_core}

abbrev same : Bool → Bool → Bool
same true b = b
same false b = not b

same_sound : (a b : Bool) → same a b ≡ true → a ≡ b
same_sound a b h = ground arith

-- One word with one bit cleared.
cleared_table :
    every 0 32 (λ k.
      every 0 32
        λ j. same (bit_and (bit_and (2 ^ 32 - 1) (2 ^ 32 - 1 - 2 ^ k)) (2 ^ j) == 0) (j == k))
    ≡ true
unfolding every
cleared_table = refl

filled_table : every 0 32 (λ j. not (bit_and (2 ^ 32 - 1) (2 ^ j) == 0)) ≡ true
unfolding every
filled_table = refl

empty_table : every 0 32 (λ j. bit_and 0 (2 ^ j) == 0) ≡ true
unfolding every
empty_table = refl

cleared_word :
    (k j : ℕ)
    → k < 32
    → j < 32
    → (bit_and (bit_and (2 ^ 32 - 1) (2 ^ 32 - 1 - 2 ^ k)) (2 ^ j) == 0) ≡ (j == k)
cleared_word k j hk hj = same_sound _ _ (
    every_lem 32
      (λ j. same (bit_and (bit_and (2 ^ 32 - 1) (2 ^ 32 - 1 - 2 ^ k)) (2 ^ j) == 0) (j == k)) j
      (every_lem 32
        (λ k.
          every 0 32
            λ j. same (bit_and (bit_and (2 ^ 32 - 1) (2 ^ 32 - 1 - 2 ^ k)) (2 ^ j) == 0) (j == k))
        k cleared_table hk)
      hj)

filled_word : (j : ℕ) → j < 32 → (bit_and (2 ^ 32 - 1) (2 ^ j) == 0) ≡ false
filled_word j h =
    ground (arith, every_lem 32 (λ j. not (bit_and (2 ^ 32 - 1) (2 ^ j) == 0)) j filled_table h)

-- The cores that `set_core` is to allow.
abbrev pub allows : Option ℕ → ℕ → Bool
allows none cid = true
allows (some core) cid = cid == core

-- Among the 256 cores of the mask, `set_core` with a core allows that core alone, and with -1 it
-- allows all of them.
pub core_is_allowed-set_core :
    (o : Option ℕ) (cid : ℕ)
    → ((core : ℕ) → o ≡ some core → core < 256)
    → cid < 256
    → core_is_allowed (set_core o) cid ≡ allows o cid
unfolding core_is_allowed set_core clear_core_mask
core_is_allowed-set_core none cid b h =
    every_lem 32 (λ j. bit_and 0 (2 ^ j) == 0) (cid % 32) empty_table (omega arith)
core_is_allowed-set_core (some core) cid b h = elim (Bool-cases (cid / 32 == core / 32)) [
  | inl here ↦
      rw (here, cleared_word (core % 32) (cid % 32) (omega arith) (omega arith)) (ground arith)
  | inr apart ↦ rw (apart, filled_word (cid % 32) (omega arith)) (ground arith)
]
