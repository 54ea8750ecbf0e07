-- ===== src/Utility/Numerals.antt =====
-- The strings of `lk_hextostring` and `lk_decimaltostring` of kernel/utility.c.
use mathlib.Core.Path.{subst}
use azalea.Prelude.{
  ℕ, ◌+◌, ◌-◌, ◌^◌, ◌≤◌, ◌<◌, ◌≡◌, ◌≢◌, refl, ◌∙◌, true, false, Bool-cases, inl, inr, leb, ◌==◌,
  if◌then◌else◌, update, update-same, ==_iff, ne→==, arith,
}
use azalea.Utility.{Ram}
use azalea.Utility.Text.{
  hex_digit, zero_string, lk_hextostring, lk_decimaltostring, lk_itoa, lk_reversestring,
}
use azalea.Utility.Digits.{
  IsDigit, digit_low, IsNumeral, emit_digits, emit-IsWritten, few_digits, hex_from-eq,
  decimal_from-eq, at_start, turned-IsNumeral, text, ended,
}

-- The digit of a character.
abbrev pub hex_value : ℕ → ℕ
hex_value c = if leb 65 c then c - 55 else c - 48

abbrev pub decimal_value : ℕ → ℕ
decimal_value c = c - 48

hex_back : (d : ℕ) → d < 16 → hex_value (hex_digit d) ≡ d
unfolding hex_digit
hex_back d h = ground arith

hex_seen : (d : ℕ) → d < 16 → IsDigit 16 (hex_digit d)
unfolding hex_digit
hex_seen d h = elim (Bool-cases (leb 10 d)) [
  | inl e ↦ rw e (inr (ground arith, ground arith))
  | inr e ↦ rw e (inl (omega arith, ground arith, omega arith))
]

zero-IsNumeral :
    (b : ℕ) (digit : ℕ → ℕ) (ram : Ram) (a : ℕ)
    → digit 48 ≡ 0
    → 1 ≤ b
    → IsNumeral b digit ram (zero_string ram a).1 a 1 0
zero-IsNumeral b digit ram a h some_base = record {
  number =
      let at : a + 0 ≡ a = omega arith in
      let before : a == a + 1 ≡ false = ground arith in
      rw (at, before, update-same ram a 48, h) (omega arith);
  ends = update-same (update ram a 48) (a + 1) 0;
  some_digits = omega arith;
  chars = λ k q.
      let at : a + k ≡ a = omega arith in
      let before : a == a + 1 ≡ false = ground arith in
      rw (at, before, update-same ram a 48)
        (inl (omega arith, omega arith, omega (arith, some_base)));
  kept = λ j side.
      let off : j == a ≡ false = elim side [ inl lo ↦ ground arith | inr hi ↦ ground arith ] in
      let off' : j == a + 1 ≡ false = elim side [ inl lo ↦ ground arith | inr hi ↦ ground arith ] in
      rw (off', off) refl;
}

lk_hextostring-IsNumeral :
    (ram : Ram) (value a : ℕ)
    → value < 2 ^ 64
    → IsNumeral 16 hex_value ram
        (lk_hextostring ram value a).1
        a
        (lk_hextostring ram value a).0
        value
unfolding lk_hextostring
lk_hextostring-IsNumeral ram value a h = elim (Bool-cases (value == 0)) [
  | inl e ↦ rw ((==_iff value 0).0 e) (zero-IsNumeral 16 hex_value ram a refl (omega arith))
  | inr e ↦
      let w =
        emit-IsWritten 16 hex_digit hex_value (omega arith) hex_back hex_seen 16 ram a 0 value
          (omega arith) in
      let few =
        few_digits 16 hex_digit hex_value (omega arith) hex_back hex_seen 16 ram a 0 value in
      let r = emit_digits 16 hex_digit 16 ram a 0 value in
      rw (e, hex_from-eq 16 ram a 0 value)
        (at_start 16 hex_value 17 ram a value r w (omega arith) (ground arith))
]

decimal_seen : (d : ℕ) → d < 10 → IsDigit 10 (48 + d)
decimal_seen d h = inl (omega arith, omega arith, omega arith)

decimal_back : (d : ℕ) → d < 10 → decimal_value (48 + d) ≡ d
decimal_back d h = omega arith

positive :
    (ram : Ram) (value a : ℕ)
    → value < 2 ^ 63
    → IsNumeral 10 decimal_value ram
        (lk_decimaltostring ram false value a).1
        a
        (lk_decimaltostring ram false value a).0
        value
unfolding lk_decimaltostring
positive ram value a h = elim (Bool-cases (value == 0)) [
  | inl e ↦ rw ((==_iff value 0).0 e) (zero-IsNumeral 10 decimal_value ram a refl (omega arith))
  | inr e ↦
      let some_value : 1 ≤ value = ground arith in
      let r = emit_digits 10 (λ d. 48 + d) 19 ram a 0 value in
      let w =
        emit-IsWritten 10 (λ d. 48 + d) decimal_value (omega arith) decimal_back decimal_seen 19 ram
          a 0 value (omega arith) in
      let few =
        few_digits 10 (λ d. 48 + d) decimal_value (omega arith) decimal_back decimal_seen 19 ram a 0
          value in
      let at : a + 0 ≡ a = omega arith in
      let char : 48 ≤ r.1 a =
        digit_low 10 (r.1 a) (
          subst (λ k. IsDigit 10 (r.1 k)) at
            (w.chars 0 (omega arith) (w.some_digits some_value))) in
      let off : a == a + r.0 ≡ false = ground (arith, w.some_digits some_value) in
      let unsigned : r.1 a == 45 ≡ false = ground arith in
      rw (e, decimal_from-eq 19 ram a 0 value, off, unsigned)
        (at_start 10 decimal_value 20 ram a value r w (omega arith) some_value)
]

negative :
    (ram : Ram) (value a : ℕ)
    → value < 2 ^ 63
    → 1 ≤ value
    → ((lk_decimaltostring ram true value a).1 a ≡ 45)
      × IsNumeral 10 decimal_value
          (update ram a 45)
          (lk_decimaltostring ram true value a).1
          (a + 1)
          ((lk_decimaltostring ram true value a).0 - 1)
          value
unfolding lk_decimaltostring text ended
negative ram value a h some_value =
    let signed = update ram a 45 in
    let r = emit_digits 10 (λ d. 48 + d) 19 signed a 1 value in
    let w =
      emit-IsWritten 10 (λ d. 48 + d) decimal_value (omega arith) decimal_back decimal_seen 19
        signed a 1 value (omega arith) in
    let few =
      few_digits 10 (λ d. 48 + d) decimal_value (omega arith) decimal_back decimal_seen 19 signed a
        1 value in
    let some_text : value == 0 ≡ false = ground arith in
    let off : a == a + r.0 ≡ false = ground (arith, w.grows) in
    let sign : r.1 a ≡ 45 = w.kept a (inl (omega arith)) ∙ update-same ram a 45 in
    let minus : r.1 a == 45 ≡ true = rw sign refl in
    let done : IsNumeral 10 decimal_value signed
        (lk_reversestring 20 (update r.1 (a + r.0) 0) (a + 1)) (a + 1) (r.0 - 1) value =
      turned-IsNumeral 10 decimal_value 20 signed a 1 value r w (omega arith) some_value in
    rw (some_text, decimal_from-eq 19 signed a 1 value, off, minus)
      (done.kept a (inl (omega arith)) ∙ update-same ram a 45, done)

-- For a number below 2^63, `lk_itoa` with radix 16 writes a string whose characters, read as
-- hexadecimal digits with the highest first, make the number. With any other radix it writes decimal
-- digits, and for the negative of a number that is not 0 a minus sign before them. It returns the
-- number of characters with the sign, and no byte outside the string, its sign and its end changes.
pub lk_itoa-IsNumeral :
    (ram : Ram) (value a radix : ℕ)
    → value < 2 ^ 63
    → radix ≢ 16
    → IsNumeral 16 hex_value ram
        (lk_itoa ram false value a 16).1
        a
        (lk_itoa ram false value a 16).0
        value
      × IsNumeral 10 decimal_value ram
          (lk_itoa ram false value a radix).1
          a
          (lk_itoa ram false value a radix).0
          value
      × (1 ≤ value
          → ((lk_itoa ram true value a radix).1 a ≡ 45)
            × IsNumeral 10 decimal_value
                (update ram a 45)
                (lk_itoa ram true value a radix).1
                (a + 1)
                ((lk_itoa ram true value a radix).0 - 1)
                value)
unfolding lk_itoa
lk_itoa-IsNumeral ram value a radix h other = rw (ne→== radix 16 other) (
  lk_hextostring-IsNumeral ram value a (omega arith),
  positive ram value a h,
  (λ some_value. negative ram value a h some_value),
)
