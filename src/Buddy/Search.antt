-- ===== src/Buddy/Search.antt =====
-- `find_free_block` of kernel/memory.c: a search that passes over 64 clear bits at once.
use azalea.Prelude.{
  ℕ, zero, suc, ◌+◌, ◌-◌, ◌*◌, ◌/◌, ◌%◌, ◌≤◌, ◌<◌, ◌≡◌, refl, ◌⊎◌, inl, inr, Bool, true, false,
  ◌||◌, Option, none, some, ◌==◌, ==_iff, Bool-cases, ltb, ltb→lt, ◌&&◌, ◌≢◌, every, every_lem,
  arith,
}
use azalea.Buddy.{Mm, load64, scan, find_free_block}
use azalea.Buddy.Bits.{AllBytes, bit, test_bit, bit_of_zero}
use azalea.Buddy.Counts.{bits_below_pos}
use azalea.Buddy.Lists.{IsWellFormed, room}

any_bit : ℕ → Bool
any_bit b =
    test_bit b 0
    || test_bit b 1
    || test_bit b 2
    || test_bit b 3
    || test_bit b 4
    || test_bit b 5
    || test_bit b 6
    || test_bit b 7

clear_table : every 0 256 (λ b. b == 0 || any_bit b) ≡ true
unfolding every any_bit test_bit
clear_table = refl

-- A byte with no bit set is zero.
zero_of_clear : (b : ℕ) → b < 256 → ((k : ℕ) → k < 8 → test_bit b k ≡ false) → b ≡ 0
unfolding any_bit
zero_of_clear b hb h = ground (
  arith,
  every_lem 256 _ b clear_table hb,
  h 0 (omega arith),
  h 1 (omega arith),
  h 2 (omega arith),
  h 3 (omega arith),
  h 4 (omega arith),
  h 5 (omega arith),
  h 6 (omega arith),
  h 7 (omega arith),
)

-- The bits from `a` on, up to `b`, are clear.
abbrev pub IsClear : (ℕ → ℕ) → ℕ → ℕ → Type 0
IsClear bm a b = (j : ℕ) → a ≤ j → j < b → bit bm j ≡ false

byte_zero : (bm : ℕ → ℕ) (j k : ℕ) → load64 bm j ≡ 0 → k < 8 → bm (j + k) ≡ 0
unfolding load64
byte_zero bm j zero e h = ground arith
byte_zero bm j (suc zero) e h = ground arith
byte_zero bm j (suc (suc zero)) e h = ground arith
byte_zero bm j (suc (suc (suc zero))) e h = ground arith
byte_zero bm j (suc (suc (suc (suc zero)))) e h = ground arith
byte_zero bm j (suc (suc (suc (suc (suc zero))))) e h = ground arith
byte_zero bm j (suc (suc (suc (suc (suc (suc zero)))))) e h = ground arith
byte_zero bm j (suc (suc (suc (suc (suc (suc (suc zero))))))) e h = ground arith
byte_zero bm j (suc (suc (suc (suc (suc (suc (suc (suc k)))))))) e h = absurd (omega arith)

load64-IsClear : (bm : ℕ → ℕ) (i : ℕ) → load64 bm (i / 8) ≡ 0 → IsClear bm i (i / 8 * 8 + 64)
load64-IsClear bm i e j lo hi =
    bit_of_zero bm j (ground (arith, byte_zero bm (i / 8) (j / 8 - i / 8) e (omega arith)))

byte_of_clear :
    (bm : ℕ → ℕ) (i k : ℕ) → AllBytes bm → IsClear bm (i * 8) (i * 8 + 64) → k < 8 → bm (i + k) ≡ 0
unfolding bit
byte_of_clear bm i k b h hk =
    zero_of_clear (bm (i + k)) (b _)
      λ t ht. ground (arith, h ((i + k) * 8 + t) (omega arith) (omega arith))

clear-load64 :
    (bm : ℕ → ℕ) (i : ℕ) → AllBytes bm → IsClear bm (i * 8) (i * 8 + 64) → load64 bm i ≡ 0
unfolding load64
clear-load64 bm i b h = ground (
  arith,
  byte_of_clear bm i 0 b h (omega arith),
  byte_of_clear bm i 1 b h (omega arith),
  byte_of_clear bm i 2 b h (omega arith),
  byte_of_clear bm i 3 b h (omega arith),
  byte_of_clear bm i 4 b h (omega arith),
  byte_of_clear bm i 5 b h (omega arith),
  byte_of_clear bm i 6 b h (omega arith),
  byte_of_clear bm i 7 b h (omega arith),
)

-- What a search of the first `n` bits should find.
abbrev pub IsLeast : (ℕ → ℕ) → ℕ → Option ℕ → Type 0
IsLeast bm n none = IsClear bm 0 n
IsLeast bm n (some o) = (o < n) × (bit bm o ≡ true) × IsClear bm 0 o

-- The search stands at a multiple of 64, or has a set bit before the next one, or is past the
-- last skip.
abbrev OnTrack : (ℕ → ℕ) → ℕ → ℕ → Type 0
OnTrack bm n i = (i % 64 ≡ 0) ⊎ ¬ IsClear bm i (i / 64 * 64 + 64) ⊎ (n < i + 64)

module _ (bm : ℕ → ℕ) (n : ℕ) (b : AllBytes bm) where
  IsClear-one : (i : ℕ) → bit bm i ≡ false → (e : ℕ) → IsClear bm (i + 1) e → IsClear bm i e
  IsClear-one i h e c j lo hi = elim (Bool-cases (j == i)) [
    | inl p ↦ rw ((==_iff j i).0 p) h
    | inr p ↦ c j (ground arith) hi
  ]

  IsClear-step : (i : ℕ) → IsClear bm 0 i → bit bm i ≡ false → IsClear bm 0 (i + 1)
  IsClear-step i c h j lo hi = elim (Bool-cases (j == i)) [
    | inl p ↦ rw ((==_iff j i).0 p) h
    | inr p ↦ c j lo (ground arith)
  ]

  -- A skip passes over clear bits only.
  skip-IsClear :
      (i : ℕ)
      → IsClear bm 0 i
      → OnTrack bm n i
      → i + 64 ≤ n
      → load64 bm (i / 8) ≡ 0
      → (i % 64 ≡ 0) × IsClear bm 0 (i + 64)
  skip-IsClear i c (inl e) h z = (
    e,
    λ j lo hi. elim (Bool-cases (ltb j i)) [
      | inl p ↦ c j lo (ltb→lt j i p)
      | inr p ↦ load64-IsClear bm i z j (ground arith) (omega arith)
    ],
  )
  skip-IsClear i c (inr (inl no_clear)) h z =
      absurd (no_clear (λ j lo hi. load64-IsClear bm i z j lo (omega arith)))
  skip-IsClear i c (inr (inr q)) h z = absurd (omega arith)

  inside :
      (i : ℕ)
      → OnTrack bm n i
      → bit bm i ≡ false
      → (n < i + 64) ⊎ (load64 bm (i / 8) ≢ 0)
      → (i + 1) / 64 ≡ i / 64
      → OnTrack bm n (i + 1)
  inside i (inl e) h (inl q) s = inr (inr (omega arith))
  inside i (inl e) h (inr nz) s = inr (
      inl λ cl.
        nz
          (clear-load64 bm (i / 8) b λ j lo hi. IsClear-one i h _ cl j (omega arith) (omega arith)))
  inside i (inr (inl no_clear)) h z s =
      inr (inl λ cl. no_clear (IsClear-one i h _ (λ j lo hi. cl j lo (omega arith))))
  inside i (inr (inr q)) h z s = inr (inr (omega arith))

  -- A step past a clear bit stays on track.
  next_track :
      (i : ℕ)
      → OnTrack bm n i
      → bit bm i ≡ false
      → (n < i + 64) ⊎ (load64 bm (i / 8) ≢ 0)
      → OnTrack bm n (i + 1)
  next_track i t h z = elim (Bool-cases ((i + 1) % 64 == 0)) [
    | inl e ↦ inl ((==_iff _ 0).0 e)
    | inr e ↦ inside i t h z (ground arith)
  ]

  may_not_skip :
      (i : ℕ)
      → i < n
      → (ltb 0 ((n - i) / 64) && load64 bm (i / 8) == 0) ≡ false
      → (n < i + 64) ⊎ (load64 bm (i / 8) ≢ 0)
  may_not_skip i h e = elim (Bool-cases (load64 bm (i / 8) == 0)) [
    | inl z ↦ inl (ground arith)
    | inr nz ↦ inr (ground arith)
  ]

  scan-IsLeast :
      (fuel i : ℕ)
      → n ≤ i + fuel
      → IsClear bm 0 i
      → OnTrack bm n i
      → IsLeast bm n (scan bm n fuel i)
  unfolding scan bit
  scan-IsLeast zero i h c t = λ j lo hi. c j lo (omega arith)
  scan-IsLeast (suc fuel) i h c t = elim (Bool-cases (ltb i n)) [
    | inr past ↦ rw past (λ j lo hi. c j lo (ground arith))
    | inl more ↦ rw more (elim (Bool-cases (ltb 0 ((n - i) / 64) && load64 bm (i / 8) == 0)) [
      | inl skip ↦ rw skip (
          let (e, c') = skip-IsClear i c t (ground arith) (ground arith) in
          scan-IsLeast fuel (i + 64) (omega arith) c' (inl (omega arith)))
      | inr stay ↦ rw stay (elim (Bool-cases (bit bm i)) [
        | inl found ↦ rw found (ltb→lt i n more, found, c)
        | inr clear ↦ rw clear (
            scan-IsLeast fuel (i + 1) (omega arith) (IsClear-step i c clear)
              (next_track i t clear (may_not_skip i (ltb→lt i n more) stay)))
      ])
    ])
  ]

-- `find_free_block` returns the first free block of a list, and fails exactly when the list has
-- none: the 64-bit skips and the stored count change nothing.
pub find_free_block-IsLeast :
    (mm : Mm) (l : ℕ)
    → IsWellFormed mm
    → l < mm.max_level
    → IsLeast (mm.bitmap l).bitmap (room mm l) (find_free_block mm l)
unfolding find_free_block
find_free_block-IsLeast mm l w h = elim (Bool-cases ((mm.bitmap l).bitmap_count == 0)) [
  | inl e ↦
      rw e λ j lo hi.
        ground (arith, w.counts l h, bits_below_pos (mm.bitmap l).bitmap j (room mm l) hi)
  | inr e ↦ rw e (
      scan-IsLeast (mm.bitmap l).bitmap (room mm l) (w.bytes l) (room mm l) 0 (omega arith)
        (λ j lo hi. absurd (omega arith)) (inl (omega arith)))
]
