-- ===== src/Utility/Text.antt =====
-- The strings of kernel/utility.c: length, reversal and the digits of a number. A string is an
-- address in memory; a search for its end looks at `limit` bytes at most.
use azalea.Prelude.{
  ℕ, zero, suc, ◌+◌, ◌-◌, ◌/◌, ◌%◌, ◌^◌, ◌≤◌, ◌<◌, ◌≡◌, ◌≢◌, Bool, Bool-cases, inl, inr, ◌&&◌, leb,
  ltb, ◌==◌, ne→==, if◌then◌else◌, update, arith,
}
use azalea.Utility.{Ram}
use azalea.Utility.Fill.{within}

unfoldable pub strlen_from : ℕ → Ram → ℕ → ℕ → ℕ
strlen_from zero ram a i = i
strlen_from (suc n) ram a i =
    let rest = strlen_from n ram a (i + 1) in if ram (a + i) == 0 then i else rest

-- `lk_strlen`
unfoldable pub lk_strlen : ℕ → Ram → ℕ → ℕ
lk_strlen limit ram a = strlen_from limit ram a 0

-- The loop of `lk_reversestring`, with `n` rounds left from character `i` on.
unfoldable pub swap_from : ℕ → Ram → ℕ → ℕ → ℕ → Ram
swap_from zero ram a length i = ram
swap_from (suc n) ram a length i =
    swap_from n
      (update (update ram (a + i) (ram (a + (length - 1 - i)))) (a + (length - 1 - i))
        (ram (a + i)))
      a length (i + 1)

-- `lk_reversestring`
unfoldable pub lk_reversestring : ℕ → Ram → ℕ → Ram
lk_reversestring limit ram a =
    let length = lk_strlen limit ram a in swap_from (length / 2) ram a length 0

-- The character of a digit of `lk_hextostring`.
unfoldable pub hex_digit : ℕ → ℕ
hex_digit v = if leb 10 v then 65 + (v - 10) else 48 + v

-- The loops that write the digits, the last one first: the number of characters, and the memory.
unfoldable pub hex_from : ℕ → Ram → ℕ → ℕ → ℕ → ℕ × Ram
hex_from zero ram a i value = (i, ram)
hex_from (suc n) ram a i value =
    let rest = hex_from n (update ram (a + i) (hex_digit (value % 16))) a (i + 1) (value / 16) in
    if ltb 0 value then rest else (i, ram)

unfoldable pub decimal_from : ℕ → Ram → ℕ → ℕ → ℕ → ℕ × Ram
decimal_from zero ram a i value = (i, ram)
decimal_from (suc n) ram a i value =
    let rest = decimal_from n (update ram (a + i) (48 + value % 10)) a (i + 1) (value / 10) in
    if ltb 0 value then rest else (i, ram)

-- The string "0".
abbrev pub zero_string : Ram → ℕ → ℕ × Ram
zero_string ram a = (1, update (update ram a 48) (a + 1) 0)

-- `lk_hextostring`: a QWORD has at most 16 digits.
unfoldable pub lk_hextostring : Ram → ℕ → ℕ → ℕ × Ram
lk_hextostring ram value a =
    let r = hex_from 16 ram a 0 value in
    if value == 0 then zero_string ram a else (r.0, lk_reversestring 17 (update r.1 (a + r.0) 0) a)

-- `lk_decimaltostring` of a `long`, given by whether it is negative and by its absolute value,
-- below 2 ^ 63: at most 19 digits.
unfoldable pub lk_decimaltostring : Ram → Bool → ℕ → ℕ → ℕ × Ram
lk_decimaltostring ram negative value a =
    let signed = if negative then update ram a 45 else ram in
    let r = decimal_from 19 signed a (if negative then 1 else 0) value in
    let ended = update r.1 (a + r.0) 0 in
    if value == 0
    then zero_string ram a
    else (r.0, lk_reversestring 20 ended (if ended a == 45 then a + 1 else a))

-- `lk_itoa` of a `long`, given as above.
unfoldable pub lk_itoa : Ram → Bool → ℕ → ℕ → ℕ → ℕ × Ram
lk_itoa ram negative value a radix =
    if radix == 16
    then lk_hextostring ram (if negative then 2 ^ 64 - value else value) a
    else lk_decimaltostring ram negative value a

-- `lk_strlen` returns the number of characters before the first zero, when the limit reaches it.
strlen_from-eq :
    (n : ℕ) (ram : Ram) (a i length : ℕ)
    → i ≤ length
    → length < i + n
    → ram (a + length) ≡ 0
    → ((k : ℕ) → k < length → ram (a + k) ≢ 0)
    → strlen_from n ram a i ≡ length
unfolding strlen_from
strlen_from-eq zero ram a i length lo hi z f = absurd (omega arith)
strlen_from-eq (suc n) ram a i length lo hi z f = elim (Bool-cases (i == length)) [
  | inl here ↦ ground arith
  | inr before ↦
      rw (ne→== (ram (a + i)) 0 (f i (ground arith)))
        (strlen_from-eq n ram a (i + 1) length (ground arith) (omega arith) z f)
]

swap_from_lem :
    (n : ℕ) (ram : Ram) (a length i j : ℕ)
    → i + n ≡ length / 2
    → swap_from n ram a length i j ≡ (
        if leb (a + i) j && ltb (j + i) (a + length) then ram (a + length - 1 - (j - a)) else ram j)
unfolding swap_from
swap_from_lem zero ram a length i j e = ground (arith, middle)
  where
    middle : a + i ≤ j → j + i < a + length → a + length - 1 - (j - a) ≡ j
    middle lo hi = omega arith
swap_from_lem (suc n) ram a length i j e = ground (
  arith,
  swap_from_lem n
      (update (update ram (a + i) (ram (a + (length - 1 - i)))) (a + (length - 1 - i))
        (ram (a + i)))
      a length (i + 1) j,
  first,
  last,
)
  where
    first : j ≡ a + i → a + length - 1 - (j - a) ≡ a + (length - 1 - i)
    first q = omega arith

    last : j ≡ a + (length - 1 - i) → a + length - 1 - (j - a) ≡ a + i
    last q = omega arith

-- `lk_reversestring` reverses the characters before the first zero and leaves every other byte
-- alone, the zero as well, when the limit reaches it.
pub lk_reversestring_lem :
    (limit : ℕ) (ram : Ram) (a length j : ℕ)
    → length < limit
    → ram (a + length) ≡ 0
    → ((k : ℕ) → k < length → ram (a + k) ≢ 0)
    → (lk_strlen limit ram a ≡ length)
      × (lk_reversestring limit ram a j
          ≡ (if within a length j then ram (a + length - 1 - (j - a)) else ram j))
unfolding lk_reversestring lk_strlen
lk_reversestring_lem limit ram a length j h z f =
    (found, rw found (ground (arith, swap_from_lem (length / 2) ram a length 0 j (omega arith))))
  where
    found : strlen_from limit ram a 0 ≡ length
    found = strlen_from-eq limit ram a 0 length (omega arith) (omega arith) z f
