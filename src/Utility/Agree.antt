-- ===== src/Utility/Agree.antt =====
-- When the areas that `lk_memcmp` of kernel/utility.c compares agree.
use mathlib.Core.Path.{subst}
use azalea.Prelude.{
  ℕ, zero, suc, ◌+◌, ◌-◌, ◌*◌, ◌/◌, ◌%◌, ◌^◌, ◌≤◌, ◌<◌, ◌≡◌, ◌↔◌, refl, sym, ap, ◌∙◌, Option, none,
  some, Option-cases, Bool-cases, inl, inr, ltb, ◌==◌, arith,
}
use azalea.Utility.{Ram}
use azalea.Utility.Compare.{
  AllBytes, load_bytes, first_byte, compare64, compare8, lk_memcmp, load-bound, load-same,
  load-injective, first_byte-none, first_byte-some,
}

-- Areas of `n` bytes agree where there was no return, and differ where there was one, with a result
-- that is not 0.
unfoldable IsCompared : Ram → (d s n : ℕ) → Option ℕ → Type 0
IsCompared ram d s n none = (j : ℕ) → j < n → ram (d + j) ≡ ram (s + j)
IsCompared ram d s n (some c) = (1 ≤ c) × ¬ ((j : ℕ) → j < n → ram (d + j) ≡ ram (s + j))

-- Two areas, one behind the other.
joined :
    (ram : Ram) (d s m n : ℕ) (o : Option ℕ)
    → ((j : ℕ) → j < m → ram (d + j) ≡ ram (s + j))
    → IsCompared ram (d + m) (s + m) n o
    → IsCompared ram d s (m + n) o
unfolding IsCompared
joined ram d s m n none h r = λ j q. elim (Bool-cases (ltb j m)) [
  | inl e ↦ h j (ground arith)
  | inr e ↦
      let at : d + j ≡ d + m + (j - m) = ground arith in
      let at' : s + m + (j - m) ≡ s + j = ground arith in
      ap ram at ∙ r (j - m) (ground arith) ∙ ap ram at'
]
joined ram d s m n (some c) h (pos, differs) = (
  pos,
  λ all. differs (λ j q.
      let at : d + m + j ≡ d + (m + j) = omega arith in
      let at' : s + (m + j) ≡ s + m + j = omega arith in
      ap ram at ∙ all (m + j) (omega arith) ∙ ap ram at'),
)

-- `m` bytes more in front, for the addresses and the sum as they stand.
in_front :
    (ram : Ram) (d s d' s' m n k : ℕ) (o : Option ℕ)
    → d' ≡ d + m
    → s' ≡ s + m
    → k ≡ m + n
    → ((j : ℕ) → j < m → ram (d + j) ≡ ram (s + j))
    → IsCompared ram d' s' n o
    → IsCompared ram d s k o
in_front ram d s d' s' m n k o ed es ek h r =
    let there =
      subst (λ s'. IsCompared ram (d + m) s' n o) es
        (subst (λ d'. IsCompared ram d' s' n o) ed r) in
    subst (λ k. IsCompared ram d s k o) (sym ek) (joined ram d s m n o h there)

compare8-IsCompared :
    (ram : Ram) (d s : ℕ) (n offset : ℕ)
    → AllBytes ram
    → IsCompared ram (d + offset) (s + offset) n (compare8 n ram d s offset)
unfolding compare8 IsCompared AllBytes
compare8-IsCompared ram d s zero o bytes = λ j q. absurd (omega arith)
compare8-IsCompared ram d s (suc n) o bytes =
    let value = (ram (d + o) + 256 - ram (s + o)) % 256 in
    let left = bytes (d + o) in
    let right = bytes (s + o) in
    elim (Bool-cases (value == 0)) [
      | inl e ↦
          let same : ram (d + o) ≡ ram (s + o) = ground arith in
          rw e (
            in_front ram (d + o) (s + o) (d + (o + 1)) (s + (o + 1)) 1 n (suc n)
              (compare8 n ram d s (o + 1)) (omega arith) (omega arith) (omega arith)
              (λ j q.
                let at : d + o + j ≡ d + o = omega arith in
                let at' : s + o ≡ s + o + j = omega arith in ap ram at ∙ same ∙ ap ram at')
              (compare8-IsCompared ram d s n (o + 1) bytes))
      | inr e ↦
          let at : d + o + 0 ≡ d + o = omega arith in
          let at' : s + o + 0 ≡ s + o = omega arith in
          rw e (
            ground arith,
            λ all.
                let same : ram (d + o) ≡ ram (s + o) =
                  ap ram (sym at) ∙ all 0 (omega arith) ∙ ap ram at' in
                absurd (ground arith),
          )
    ]

compare64-IsCompared :
    (ram : Ram) (d s : ℕ) (n i : ℕ)
    → AllBytes ram
    → IsCompared ram (d + i * 8) (s + i * 8) (n * 8) (compare64 n ram d s i)
unfolding compare64 IsCompared
compare64-IsCompared ram d s zero i bytes = λ j q. absurd (omega arith)
compare64-IsCompared ram d s (suc n) i bytes =
    let value = (load_bytes 8 ram (d + i * 8) + 2 ^ 64 - load_bytes 8 ram (s + i * 8)) % 2 ^ 64 in
    let left = load-bound ram bytes (d + i * 8) in
    let right = load-bound ram bytes (s + i * 8) in
    elim (Bool-cases (value == 0)) [
      | inl e ↦
          let same : load_bytes 8 ram (d + i * 8) ≡ load_bytes 8 ram (s + i * 8) = ground arith in
          rw e (
            in_front ram (d + i * 8) (s + i * 8) (d + (i + 1) * 8) (s + (i + 1) * 8) 8 (n * 8)
              (suc n * 8) (compare64 n ram d s (i + 1)) (omega arith) (omega arith) (omega arith)
              (load-injective ram bytes 8 (d + i * 8) (s + i * 8) same)
              (compare64-IsCompared ram d s n (i + 1) bytes))
      | inr e ↦ elim (Option-cases (first_byte 8 0 value)) [
        | inl lost ↦ let null = first_byte-none value (omega arith) lost in absurd (ground arith)
        | inr (c, found) ↦
            rw (e, found)
              (
                first_byte-some 8 0 value c found,
                λ all.
                    let same =
                      load-same ram bytes 8 (d + i * 8) (s + i * 8) (λ j q. all j (omega arith)) in
                    absurd (ground arith),
              )
      ]
    ]

-- In a memory of bytes, `lk_memcmp` gives 0 exactly when the two areas of `size` bytes agree,
-- whatever the size's rest modulo 8.
pub lk_memcmp_iff :
    (ram : Ram) (d s size : ℕ)
    → AllBytes ram
    → (lk_memcmp ram d s size ≡ 0) ↔ ((j : ℕ) → j < size → ram (d + j) ≡ ram (s + j))
unfolding lk_memcmp IsCompared
lk_memcmp_iff ram d s size bytes =
    let at : d + 0 * 8 ≡ d = omega arith in
    let at' : s + 0 * 8 ≡ s = omega arith in
    let c64 = compare64 (size / 8) ram d s 0 in
    let c8 = compare8 (size % 8) ram d s (size / 8 * 8) in
    let words =
      subst (λ q. IsCompared ram d q (size / 8 * 8) c64) at'
        (subst (λ p. IsCompared ram p (s + 0 * 8) (size / 8 * 8) c64) at
          (compare64-IsCompared ram d s (size / 8) 0 bytes)) in
    let tail = compare8-IsCompared ram d s (size % 8) (size / 8 * 8) bytes in
    elim (Option-cases c64) [
      | inr (c, e) ↦
          let words = subst (IsCompared ram d s (size / 8 * 8)) e words in
          rw (e, lk_memcmp)
            (
              (λ z. absurd (omega (arith, words.0, z))),
              (λ all. absurd (words.1 (λ j q. all j (omega arith)))),
            )
      | inl e ↦
          let words = subst (IsCompared ram d s (size / 8 * 8)) e words in
          elim (Option-cases c8) [
            | inr (c, e') ↦
                let tail =
                  subst (IsCompared ram (d + size / 8 * 8) (s + size / 8 * 8) (size % 8)) e' tail in
                let both = joined ram d s (size / 8 * 8) (size % 8) (some c) words tail in
                rw (e, e', lk_memcmp)
                  (
                    (λ z. absurd (omega (arith, tail.0, z))),
                    (λ all. absurd (both.1 (λ j q. all j (omega arith)))),
                  )
            | inl e' ↦
                let tail =
                  subst (IsCompared ram (d + size / 8 * 8) (s + size / 8 * 8) (size % 8)) e' tail in
                let both = joined ram d s (size / 8 * 8) (size % 8) none words tail in
                rw (e, e', lk_memcmp) ((λ z j q. both j (omega arith)), (λ all. refl))
          ]
    ]
