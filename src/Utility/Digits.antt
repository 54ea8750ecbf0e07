-- ===== src/Utility/Digits.antt =====
-- The digits that `lk_hextostring` and `lk_decimaltostring` of kernel/utility.c write make the
-- number.
use mathlib.Core.Path.{subst}
use native.Mathlib.Nat.{mod-lt, mod-add-div, div-lt_iff_lt-mul, pow-suc, pow-zero}
use azalea.Prelude.{
  ℕ, zero, suc, ◌+◌, ◌-◌, ◌*◌, ◌/◌, ◌%◌, ◌^◌, ◌≤◌, ◌<◌, ◌≡◌, ◌⊎◌, refl, sym, ap, ◌∙◌, true, false,
  Bool-cases, inl, inr, ltb, ◌==◌, if◌then◌else◌, update, update-same, ==_iff, arith,
}
use azalea.Utility.{Ram}
use azalea.Utility.Fill.{within}
use azalea.Utility.Text.{hex_from, hex_digit, decimal_from, lk_reversestring, lk_reversestring_lem}

-- The number of `n` digits, the lowest first and the highest first.
abbrev pub low : (base : ℕ) → (ℕ → ℕ) → ℕ → ℕ
low b f zero = 0
low b f (suc n) = f 0 + b * low b (λ j. f (j + 1)) n

abbrev pub high : (base : ℕ) → (ℕ → ℕ) → ℕ → ℕ
high b f zero = 0
high b f (suc n) = b * high b f n + f n

low-same : (b : ℕ) (f g : ℕ → ℕ) (n : ℕ) → ((j : ℕ) → j < n → f j ≡ g j) → low b f n ≡ low b g n
low-same b f g zero h = refl
low-same b f g (suc n) h =
    let rest : low b (λ j. f (j + 1)) n ≡ low b (λ j. g (j + 1)) n =
      low-same b (λ j. f (j + 1)) (λ j. g (j + 1)) n (λ j q. h (j + 1) (omega arith)) in
    ap (λ x. x + b * low b (λ j. f (j + 1)) n) (h 0 (omega arith)) ∙ ap (λ x. g 0 + b * x) rest

-- The digits in the other order.
high-low :
    (b : ℕ) (f g : ℕ → ℕ) (n : ℕ) → ((j : ℕ) → j < n → g j ≡ f (n - 1 - j)) → high b g n ≡ low b f n
high-low b f g zero h = refl
high-low b f g (suc n) h =
    let rest : high b g n ≡ low b (λ j. f (j + 1)) n =
      high-low b (λ j. f (j + 1)) g n
        (λ j q.
          let same : suc n - 1 - j ≡ n - 1 - j + 1 = omega arith in
          h j (omega arith) ∙ ap f same) in
    let last : g n ≡ f 0 =
      let none : suc n - 1 - n ≡ 0 = omega arith in h n (omega arith) ∙ ap f none in
    ap (λ x. b * x + g n) rest ∙ omega (arith, last)

-- The loop of both functions, for a base and its characters.
unfoldable pub emit_digits : (base : ℕ) → (ℕ → ℕ) → ℕ → Ram → ℕ → ℕ → ℕ → ℕ × Ram
emit_digits b char zero ram a i value = (i, ram)
emit_digits b char (suc n) ram a i value =
    let rest = emit_digits b char n (update ram (a + i) (char (value % b))) a (i + 1) (value / b) in
    if ltb 0 value then rest else (i, ram)

pub hex_from-eq :
    (n : ℕ) (ram : Ram) (a i value : ℕ)
    → hex_from n ram a i value ≡ emit_digits 16 hex_digit n ram a i value
unfolding hex_from emit_digits
hex_from-eq zero ram a i value = refl
hex_from-eq (suc n) ram a i value =
    ap (λ r. if ltb 0 value then r else (i, ram))
      (hex_from-eq n (update ram (a + i) (hex_digit (value % 16))) a (i + 1) (value / 16))

pub decimal_from-eq :
    (n : ℕ) (ram : Ram) (a i value : ℕ)
    → decimal_from n ram a i value ≡ emit_digits 10 (λ d. 48 + d) n ram a i value
unfolding decimal_from emit_digits
decimal_from-eq zero ram a i value = refl
decimal_from-eq (suc n) ram a i value =
    ap (λ r. if ltb 0 value then r else (i, ram))
      (decimal_from-eq n (update ram (a + i) (48 + value % 10)) a (i + 1) (value / 10))

-- The characters '0' to '9' and 'A' to 'Z', as far as the base has digits.
abbrev pub IsDigit : (base c : ℕ) → Type 0
IsDigit b c = ((48 ≤ c) × (c < 58) × (c < 48 + b)) ⊎ ((65 ≤ c) × (c < 55 + b))

pub digit_low : (b c : ℕ) → IsDigit b c → 48 ≤ c
digit_low b c (inl h) = h.0
digit_low b c (inr h) = omega (arith, h.0)

-- What the loop leaves from character `i` on.
pub record IsWritten (base : ℕ) (digit : ℕ → ℕ) (ram : Ram) (a i value : ℕ) (r : ℕ × Ram)
    : Type 0 where
  pub grows : i ≤ r.0
  pub some_digits : 1 ≤ value → i < r.0
  pub number : low base (λ j. digit (r.1 (a + (i + j)))) (r.0 - i) ≡ value
  pub kept : (j : ℕ) → (j < a + i) ⊎ (a + r.0 ≤ j) → r.1 j ≡ ram j
  pub chars : (k : ℕ) → i ≤ k → k < r.0 → IsDigit base (r.1 (a + k))

module _ (b : ℕ) (char digit : ℕ → ℕ) (some_base : 1 ≤ b)
    (back : (d : ℕ) → d < b → digit (char d) ≡ d)
    (seen : (d : ℕ) → d < b → IsDigit b (char d)) where
  digit_at :
      (ram r : Ram) (a i v : ℕ)
      → r (a + i) ≡ update ram (a + i) (char v) (a + i)
      → v < b
      → digit (r (a + (i + 0))) ≡ v
  digit_at ram r a i v e h =
      let at : a + (i + 0) ≡ a + i = omega arith in
      ap (λ k. digit (r k)) at ∙ ap digit (e ∙ update-same ram (a + i) (char v)) ∙ back v h

  -- One character more, before those of the rest of the number.
  step :
      (ram : Ram) (a i value : ℕ) (r : ℕ × Ram)
      → IsWritten b digit (update ram (a + i) (char (value % b))) a (i + 1) (value / b) r
      → IsWritten b digit ram a i value r
  step ram a i value r w =
      let small : value % b < b = mod-lt value some_base in
      let here = w.kept (a + i) (inl (omega arith)) in
      let written : r.1 (a + i) ≡ char (value % b) =
        here ∙ update-same ram (a + i) (char (value % b)) in
      record {
        grows = omega (arith, w.grows);
        some_digits = λ q. omega (arith, w.grows);
        number =
            let more : r.0 - i ≡ suc (r.0 - (i + 1)) = omega (arith, w.grows) in
            let tail =
              low-same b (λ j. digit (r.1 (a + (i + (j + 1))))) (λ j. digit (r.1 (a + (i + 1 + j))))
                (r.0 - (i + 1))
                (λ j q.
                  let at : a + (i + (j + 1)) ≡ a + (i + 1 + j) = omega arith in
                  ap (λ k. digit (r.1 k)) at) in
            ap (low b (λ j. digit (r.1 (a + (i + j))))) more
            ∙ ap (λ x. x + b * low b (λ j. digit (r.1 (a + (i + (j + 1))))) (r.0 - (i + 1)))
                (digit_at ram r.1 a i (value % b) here small)
            ∙ ap (λ x. value % b + b * x) (tail ∙ w.number)
            ∙ mod-add-div value b;
        kept = λ j side.
            let off : j == a + i ≡ false = elim side [
              | inl lo ↦ ground arith
              | inr hi ↦ ground (arith, w.grows)
            ] in
            let wide : (j < a + (i + 1)) ⊎ (a + r.0 ≤ j) = elim side [
              | inl lo ↦ inl (omega arith)
              | inr hi ↦ inr hi
            ] in
            w.kept j wide ∙ rw off refl;
        chars = λ k lo hi. elim (Bool-cases (k == i)) [
          | inl same ↦
              let at = ap (λ k. r.1 (a + k)) ((==_iff k i).0 same) in
              subst (IsDigit b) (sym (at ∙ written)) (seen (value % b) small)
          | inr other ↦ w.chars k (ground arith) hi
        ];
      }

  pub emit-IsWritten :
      (n : ℕ) (ram : Ram) (a i value : ℕ)
      → value < b ^ n
      → IsWritten b digit ram a i value (emit_digits b char n ram a i value)
  unfolding emit_digits
  emit-IsWritten zero ram a i value h =
      let one : b ^ 0 ≡ 1 = pow-zero b in
      record {
        grows = omega arith;
        some_digits = λ q. absurd (omega (arith, one));
        number = let none : i - i ≡ 0 = omega arith in rw none (omega (arith, one));
        kept = λ j q. refl;
        chars = λ k lo hi. absurd (omega arith);
      }
  emit-IsWritten (suc n) ram a i value h = elim (Bool-cases (ltb 0 value)) [
    | inr e ↦ rw e (record {
      grows = omega arith;
      some_digits = λ q. absurd (ground arith);
      number = let none : i - i ≡ 0 = omega arith in rw none (ground arith);
      kept = λ j q. refl;
      chars = λ k lo hi. absurd (omega arith);
    })
    | inl e ↦
        let next = update ram (a + i) (char (value % b)) in
        let whole : value < b ^ n * b = subst (λ x. value < x) (pow-suc b n) h in
        let fewer : value / b < b ^ n = (div-lt_iff_lt-mul some_base).1 whole in
        let w = emit-IsWritten n next a (i + 1) (value / b) fewer in rw e (step ram a i value _ w)
  ]

  pub few_digits :
      (n : ℕ) (ram : Ram) (a i value : ℕ) → (emit_digits b char n ram a i value).0 ≤ i + n
  unfolding emit_digits
  few_digits zero ram a i value = omega arith
  few_digits (suc n) ram a i value =
      ground (arith, few_digits n (update ram (a + i) (char (value % b))) a (i + 1) (value / b))

-- A string whose characters are the digits of a number, the highest first.
pub record IsNumeral (base : ℕ) (digit : ℕ → ℕ) (ram ram' : Ram) (a length value : ℕ) : Type 0 where
  pub number : high base (λ j. digit (ram' (a + j))) length ≡ value
  pub ends : ram' (a + length) ≡ 0
  pub some_digits : 1 ≤ length
  pub chars : (k : ℕ) → k < length → IsDigit base (ram' (a + k))
  pub kept : (j : ℕ) → (j < a) ⊎ (a + length < j) → ram' j ≡ ram j

module _ (b : ℕ) (digit : ℕ → ℕ) (limit : ℕ) (ram : Ram) (a i value : ℕ) (r : ℕ × Ram)
    (w : IsWritten b digit ram a i value r) (fits : r.0 - i < limit) where
  unfoldable pub ended : Ram
  ended = update r.1 (a + r.0) 0

  unfoldable pub text : Ram
  text = lk_reversestring limit ended (a + i)

  inner : (k : ℕ) → k < r.0 - i → IsDigit b (ended (a + i + k))
  unfolding ended
  inner k q =
      let at : a + i + k ≡ a + (i + k) = omega arith in
      let off : a + (i + k) == a + r.0 ≡ false = ground (arith, w.grows) in
      rw (at, off) (w.chars (i + k) (omega arith) (omega arith))

  turned :
      (j : ℕ)
      → text j ≡ (
          if within (a + i) (r.0 - i) j
          then ended (a + i + (r.0 - i) - 1 - (j - (a + i)))
          else ended j)
  unfolding text ended
  turned j =
      let last : a + i + (r.0 - i) ≡ a + r.0 = omega (arith, w.grows) in
      let zero_end : ended (a + i + (r.0 - i)) ≡ 0 = ap ended last ∙ update-same r.1 (a + r.0) 0 in
      (lk_reversestring_lem limit ended (a + i) (r.0 - i) j fits zero_end
        (λ k q z. absurd (omega (arith, z, digit_low b (ended (a + i + k)) (inner k q))))).1

  turned_char : (j : ℕ) → j < r.0 - i → text (a + i + j) ≡ r.1 (a + (i + (r.0 - i - 1 - j)))
  unfolding ended
  turned_char j h =
      let inside : within (a + i) (r.0 - i) (a + i + j) ≡ true = ground arith in
      let at : a + i + (r.0 - i) - 1 - (a + i + j - (a + i)) ≡ a + (i + (r.0 - i - 1 - j)) =
        omega (arith, w.grows) in
      let off : a + (i + (r.0 - i - 1 - j)) == a + r.0 ≡ false = ground (arith, w.grows) in
      turned (a + i + j) ∙ rw (inside, at, off) refl

  pub turned-IsNumeral : 1 ≤ value → IsNumeral b digit ram text (a + i) (r.0 - i) value
  unfolding ended
  turned-IsNumeral h = record {
    number =
        high-low b (λ j. digit (r.1 (a + (i + j)))) (λ j. digit (text (a + i + j))) (r.0 - i)
          (λ j q. ap digit (turned_char j q))
        ∙ w.number;
    ends =
        let outside : within (a + i) (r.0 - i) (a + i + (r.0 - i)) ≡ false = ground arith in
        let last : a + i + (r.0 - i) ≡ a + r.0 = omega (arith, w.grows) in
        turned (a + i + (r.0 - i)) ∙ rw (outside, last) (update-same r.1 (a + r.0) 0);
    some_digits = omega (arith, w.some_digits h);
    chars =
        λ k q. subst (IsDigit b) (sym (turned_char k q)) (w.chars _ (omega arith) (omega arith));
    kept = λ j side.
        let outside : within (a + i) (r.0 - i) j ≡ false = elim side [
          | inl lo ↦ ground arith
          | inr hi ↦ ground arith
        ] in
        let off : j == a + r.0 ≡ false = elim side [
          | inl lo ↦ ground (arith, w.grows)
          | inr hi ↦ ground (arith, w.grows)
        ] in
        let wide : (j < a + i) ⊎ (a + r.0 ≤ j) = elim side [
          | inl lo ↦ inl lo
          | inr hi ↦ inr (omega (arith, w.grows))
        ] in
        turned j ∙ rw (outside, off) (w.kept j wide);
  }

-- A number that starts at the buffer.
pub at_start :
    (b : ℕ) (digit : ℕ → ℕ) (limit : ℕ) (ram : Ram) (a value : ℕ) (r : ℕ × Ram)
    → IsWritten b digit ram a 0 value r
    → r.0 < limit
    → 1 ≤ value
    → IsNumeral b digit ram (lk_reversestring limit (update r.1 (a + r.0) 0) a) a r.0 value
unfolding text ended
at_start b digit limit ram a value r w fits h =
    let reversed : ℕ → Ram = λ p. lk_reversestring limit (update r.1 (a + r.0) 0) p in
    let here : a + 0 ≡ a = omega arith in
    let whole : r.0 - 0 ≡ r.0 = omega arith in
    let given : IsNumeral b digit ram (reversed (a + 0)) (a + 0) (r.0 - 0) value =
      turned-IsNumeral b digit limit ram a 0 value r w (omega arith) h in
    subst (λ n. IsNumeral b digit ram (reversed a) a n value) whole
      (subst (λ p. IsNumeral b digit ram (reversed p) p (r.0 - 0) value) here given)
