-- ===== src/Utility/Compare.antt =====
-- `lk_memcmp` of kernel/utility.c.
use azalea.Prelude.{
  ℕ, zero, suc, ◌+◌, ◌-◌, ◌*◌, ◌/◌, ◌%◌, ◌^◌, ◌≤◌, ◌<◌, ◌≡◌, refl, sym, ap, ◌∙◌, Option, none, some,
  Bool-cases, inl, inr, ltb, ◌==◌, ==_iff, if◌then◌else◌, arith,
}
use azalea.Utility.{Ram}

-- The little-endian number of `n` bytes; a QWORD has eight.
unfoldable pub load_bytes : ℕ → Ram → ℕ → ℕ
load_bytes zero ram a = 0
load_bytes (suc n) ram a = ram a + 256 * load_bytes n ram (a + 1)

-- The loop over the bytes of a difference; none is no return.
unfoldable pub first_byte : ℕ → ℕ → ℕ → Option ℕ
first_byte zero j value = none
first_byte (suc n) j value =
    let rest = first_byte n (j + 1) value in
    let byte = value / 2 ^ (j * 8) % 256 in if byte == 0 then rest else some byte

-- The loop over the QWORDs, from number `i` on.
unfoldable pub compare64 : ℕ → Ram → ℕ → ℕ → ℕ → Option ℕ
compare64 zero ram d s i = none
compare64 (suc n) ram d s i =
    let rest = compare64 n ram d s (i + 1) in
    let value = (load_bytes 8 ram (d + i * 8) + 2 ^ 64 - load_bytes 8 ram (s + i * 8)) % 2 ^ 64 in
    if value == 0 then rest else elim (first_byte 8 0 value) [ none ↦ rest | some c ↦ some c ]

-- The loop over the bytes that are left: the difference is a `char` that is made an `int`.
unfoldable pub compare8 : ℕ → Ram → ℕ → ℕ → ℕ → Option ℕ
compare8 zero ram d s offset = none
compare8 (suc n) ram d s offset =
    let rest = compare8 n ram d s (offset + 1) in
    let value = (ram (d + offset) + 256 - ram (s + offset)) % 256 in
    if value == 0 then rest else some (if ltb value 128 then value else value + (2 ^ 32 - 256))

-- `lk_memcmp`, for a size that is not negative.
unfoldable pub lk_memcmp : Ram → ℕ → ℕ → ℕ → ℕ
lk_memcmp ram d s size = elim (compare64 (size / 8) ram d s 0) [
  | some c ↦ c
  | none ↦ elim (compare8 (size % 8) ram d s (size / 8 * 8)) [ some c ↦ c | none ↦ 0 ]
]

unfoldable pub AllBytes : Ram → Type 0
AllBytes ram = (a : ℕ) → ram a < 256

module _ (ram : Ram) (bytes : AllBytes ram) where
  pub load-bound : (a : ℕ) → load_bytes 8 ram a < 2 ^ 64
  unfolding load_bytes AllBytes
  load-bound a = omega (
    arith,
    bytes a,
    bytes (a + 1),
    bytes (a + 1 + 1),
    bytes (a + 1 + 1 + 1),
    bytes (a + 1 + 1 + 1 + 1),
    bytes (a + 1 + 1 + 1 + 1 + 1),
    bytes (a + 1 + 1 + 1 + 1 + 1 + 1),
    bytes (a + 1 + 1 + 1 + 1 + 1 + 1 + 1),
  )

  pub load-same :
      (n a b : ℕ)
      → ((j : ℕ) → j < n → ram (a + j) ≡ ram (b + j))
      → load_bytes n ram a ≡ load_bytes n ram b
  unfolding load_bytes
  load-same zero a b h = refl
  load-same (suc n) a b h =
      let at : a + 0 ≡ a = omega arith in
      let at' : b + 0 ≡ b = omega arith in
      let here = h 0 (omega arith) in
      let here : ram a ≡ ram b = ap ram (sym at) ∙ here ∙ ap ram at' in
      let rest = load-same n (a + 1) (b + 1) (λ j q.
        let up : a + 1 + j ≡ a + (j + 1) = omega arith in
        let up' : b + (j + 1) ≡ b + 1 + j = omega arith in
        ap ram up ∙ h (j + 1) (omega arith) ∙ ap ram up') in
      omega (arith, here, rest)

  pub load-injective :
      (n a b : ℕ)
      → load_bytes n ram a ≡ load_bytes n ram b
      → (j : ℕ) → j < n
      → ram (a + j) ≡ ram (b + j)
  unfolding load_bytes AllBytes
  load-injective zero a b e j h = absurd (omega arith)
  load-injective (suc n) a b e zero h =
      let at : a + 0 ≡ a = omega arith in
      let at' : b ≡ b + 0 = omega arith in
      let here : ram a ≡ ram b = omega (arith, bytes a, bytes b) in ap ram at ∙ here ∙ ap ram at'
  load-injective (suc n) a b e (suc j) h =
      let at : a + suc j ≡ a + 1 + j = omega arith in
      let at' : b + 1 + j ≡ b + suc j = omega arith in
      let rest : load_bytes n ram (a + 1) ≡ load_bytes n ram (b + 1) =
        omega (arith, bytes a, bytes b) in
      ap ram at ∙ load-injective n (a + 1) (b + 1) rest j (omega arith) ∙ ap ram at'

zero_bytes :
    (n j value i : ℕ)
    → first_byte n j value ≡ none
    → j ≤ i
    → i < j + n
    → value / 2 ^ (i * 8) % 256 ≡ 0
unfolding first_byte
zero_bytes zero j value i e lo hi = absurd (omega arith)
zero_bytes (suc n) j value i e lo hi = elim (Bool-cases (value / 2 ^ (j * 8) % 256 == 0)) [
  | inl z ↦ elim (Bool-cases (i == j)) [
    | inl same ↦
        ap (λ k. value / 2 ^ (k * 8) % 256) ((==_iff i j).0 same)
        ∙ (==_iff (value / 2 ^ (j * 8) % 256) 0).0 z
    | inr other ↦ zero_bytes n (j + 1) value i (grind arith) (ground arith) (omega arith)
  ]
  | inr z ↦ absurd (grind arith)
]

-- A byte that is not 0 is found in every number that is not 0.
pub first_byte-none : (value : ℕ) → value < 2 ^ 64 → first_byte 8 0 value ≡ none → value ≡ 0
first_byte-none value h e =
    let byte = λ (i : ℕ) (q : i < 8). zero_bytes 8 0 value i e (omega arith) q in
    omega (
      arith,
      byte 0 (omega arith),
      byte 1 (omega arith),
      byte 2 (omega arith),
      byte 3 (omega arith),
      byte 4 (omega arith),
      byte 5 (omega arith),
      byte 6 (omega arith),
      byte 7 (omega arith),
    )

pub first_byte-some : (n j value c : ℕ) → first_byte n j value ≡ some c → 1 ≤ c
unfolding first_byte
first_byte-some zero j value c e = absurd (grind arith)
first_byte-some (suc n) j value c e = elim (Bool-cases (value / 2 ^ (j * 8) % 256 == 0)) [
  | inl z ↦ first_byte-some n (j + 1) value c (grind arith)
  | inr z ↦ let same : value / 2 ^ (j * 8) % 256 ≡ c = grind arith in ground (arith, same)
]
