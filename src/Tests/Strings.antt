-- ===== src/Tests/Strings.antt =====
-- The strings of kernel/utility.c and the core masks of kernel/thread.c, on small ones.
use azalea.Prelude.{
  ◌==◌, ◌<◌, ◌≤◌, ◌↔◌, update, ℕ, ◌+◌, ◌-◌, ◌≡◌, refl, true, false, some, if◌then◌else◌, ltb, arith,
}
use azalea.Utility.{Ram}
use azalea.Utility.Fill.{within}
use azalea.Utility.Text.{
  lk_strlen, strlen_from, lk_reversestring, swap_from, lk_reversestring_lem, hex_from, hex_digit,
  lk_hextostring, decimal_from, lk_decimaltostring, lk_itoa,
}
use azalea.Utility.Compare.{AllBytes, lk_memcmp, compare64, first_byte, load_bytes}
use azalea.Utility.Agree.{lk_memcmp_iff}
use azalea.Utility.Digits.{IsNumeral}
use azalea.Utility.Numerals.{hex_value, decimal_value, lk_itoa-IsNumeral}
use azalea.Thread.{core_is_allowed, set_core}
use azalea.Thread.Mask.{core_is_allowed-set_core}

-- Three characters at address 10.
abbrev abc : Ram
abc j = if ltb j 13 then 97 + (j - 10) else 0

lk_reversestring_lem_example :
    (lk_strlen 8 abc 10 ≡ 3)
    × (lk_reversestring 8 abc 10 10
        ≡ (if within 10 3 10 then abc (10 + 3 - 1 - (10 - 10)) else abc 10))
lk_reversestring_lem_example =
    lk_reversestring_lem 8 abc 10 3 10 (omega arith) refl λ k h. ground arith

core_is_allowed-set_core_example : core_is_allowed (set_core (some 40)) 8 ≡ false
core_is_allowed-set_core_example =
    core_is_allowed-set_core (some 40) 8 (λ core e. ground (arith, e)) (omega arith)

-- The number that the digits at an address make.
abbrev hex_run_at : ℕ → ℕ
hex_run_at j = (lk_hextostring (λ a. 1) 0x2af 0).1 j

hex_run :
    ((lk_hextostring (λ a. 1) 0x2af 0).0 ≡ 3)
    × (hex_run_at 0 ≡ 50)
    × (hex_run_at 1 ≡ 65)
    × (hex_run_at 2 ≡ 70)
    × (hex_run_at 3 ≡ 0)
unfolding lk_hextostring hex_from hex_digit lk_reversestring lk_strlen strlen_from swap_from
hex_run = (refl, refl, refl, refl, refl)

decimal_run :
    ((lk_decimaltostring (λ a. 1) true 17 0).0 ≡ 3)
    × ((lk_decimaltostring (λ a. 1) true 17 0).1 0 ≡ 45)
    × ((lk_decimaltostring (λ a. 1) true 17 0).1 1 ≡ 49)
    × ((lk_decimaltostring (λ a. 1) true 17 0).1 2 ≡ 55)
unfolding lk_decimaltostring decimal_from lk_reversestring lk_strlen strlen_from swap_from
decimal_run = (refl, refl, refl, refl)

lk_itoa-IsNumeral_example :
    IsNumeral 16 hex_value abc
      (lk_itoa abc false 0x2af 0 16).1
      0
      (lk_itoa abc false 0x2af 0 16).0
      0x2af
    × IsNumeral 10 decimal_value abc
        (lk_itoa abc false 0x2af 0 10).1
        0
        (lk_itoa abc false 0x2af 0 10).0
        0x2af
    × (1 ≤ 0x2af
        → ((lk_itoa abc true 0x2af 0 10).1 0 ≡ 45)
          × IsNumeral 10 decimal_value
              (update abc 0 45)
              (lk_itoa abc true 0x2af 0 10).1
              1
              ((lk_itoa abc true 0x2af 0 10).0 - 1)
              0x2af)
lk_itoa-IsNumeral_example =
    lk_itoa-IsNumeral abc 0x2af 0 10 (omega arith) (λ e. absurd (omega (arith, e)))

-- Zeros but for one byte.
abbrev two_words : Ram
two_words j = if j == 23 then 5 else 0

words-AllBytes : AllBytes two_words
unfolding AllBytes
words-AllBytes j = ground arith

lk_memcmp_iff_example :
    (lk_memcmp two_words 16 0 9 ≡ 0) ↔ ((j : ℕ) → j < 9 → two_words (16 + j) ≡ two_words (0 + j))
lk_memcmp_iff_example = lk_memcmp_iff two_words 16 0 9 words-AllBytes

-- A QWORD and one byte: the eighth byte differs first.
compared : lk_memcmp two_words 16 0 9 ≡ 5
unfolding lk_memcmp compare64 first_byte load_bytes
compared = refl
