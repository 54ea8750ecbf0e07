-- ===== src/Buddy/Fresh.antt =====
-- A fresh pool satisfies the invariant: all its pages are free.
use azalea.Prelude.{
  ℕ, zero, suc, ◌+◌, ◌-◌, ◌*◌, ◌/◌, ◌%◌, ◌≤◌, ◌<◌, ◌≡◌, refl, sym, ◌∙◌, inl, inr, Bool, true, false,
  Bool-cases, ◌&&◌, ltb, leb, ◌==◌, ==_iff, if◌then◌else◌, update, add-one, arith,
}
use azalea.Buddy.{Bitmap, shr, shl}
use azalea.Buddy.Bits.{AllBytes, bit, put, set_bit, bit-put, put-AllBytes, bit_of_zero}
use azalea.Buddy.Cover.{cover, shr-half}
use azalea.Buddy.Held.{held, cover-outside, unassigned}
use azalea.Buddy.Init.{zero_bytes, init_bitmap}

-- The only bit of a fresh list is the last one, when the list is of odd length.
abbrev pub is_last : ℕ → ℕ → Bool
is_last m q = m % 2 == 1 && suc q == m

pub cover_fresh :
    (bm : ℕ → Bitmap) (n i m q : ℕ)
    → ((k o : ℕ) → k < n → o < shr m k → bit (bm (i + k)).bitmap o ≡ is_last (shr m k) o)
    → shr m n ≡ 0
    → q < m
    → cover bm n i m q ≡ 1
cover_fresh bm zero i m q h z lt = absurd (omega arith)
cover_fresh bm (suc n) i m q h z lt = elim (Bool-cases (is_last m q)) [
  | inl last ↦
      ground (arith, first q lt, cover-outside bm n (i + 1) (m / 2) (q / 2) (ground arith), last)
  | inr more ↦ ground (
    arith,
    first q lt,
    cover_fresh bm n (i + 1) (m / 2) (q / 2) above (shr-half m n ∙ z) (ground arith),
    more,
  )
]
  where
    first : (o : ℕ) → o < m → bit (bm i).bitmap o ≡ is_last m o
    first o k = let e : i + 0 ≡ i = omega arith in rw e at (h 0 o (omega arith) k)

    above :
        (k o : ℕ)
        → k < n
        → o < shr (m / 2) k
        → bit (bm (i + 1 + k)).bitmap o ≡ is_last (shr (m / 2) k) o
    above k o hk ho =
        let e : i + 1 + k ≡ i + suc k = omega arith in
        rw (e, shr-half m k) (h (suc k) o (omega arith) (rw (shr-half m k) at ho))

shl-twice : (a q i : ℕ) → a * 2 ≤ q → shl a i * 2 ≤ shl q i
shl-twice a q zero h = h
shl-twice a q (suc i) h = omega (arith, shl-twice a q i h)

shl-half-lt : (q i b : ℕ) → shl q i < b → shl (q / 2) (i + 1) < b
shl-half-lt q i b h = rw add-one (omega (arith, shl-twice (q / 2) q i (omega arith)))

-- No block is held before one is handed out.
pub held_fresh :
    (index : ℕ → ℕ) (b n i q : ℕ)
    → ((a : ℕ) → a < b → index a ≡ unassigned)
    → shl q i < b
    → i + n ≤ unassigned
    → held index n i q ≡ 0
held_fresh index b zero i q h lt r = refl
held_fresh index b (suc n) i q h lt r = ground (
  arith,
  h (shl q i) lt,
  held_fresh index b n (i + 1) (q / 2) h (shl-half-lt q i b lt) (omega arith),
)

zero_bytes_lem :
    (n : ℕ) (bm : ℕ → ℕ) (i j : ℕ)
    → zero_bytes n bm i j ≡ (if leb i j && ltb j (i + n) then 0 else bm j)
unfolding zero_bytes
zero_bytes_lem zero bm i j = ground arith
zero_bytes_lem (suc n) bm i j = ground (arith, zero_bytes_lem n (update bm i 0) (i + 1) j)

-- One list of a fresh pool.
pub record IsFresh (m : ℕ) (e : Bitmap) : Type 0 where
  pub bytes : AllBytes e.bitmap
  pub bits : (o : ℕ) → o < m → bit e.bitmap o ≡ is_last m o
  pub pad : m % 2 ≡ 1 → bit e.bitmap m ≡ false
  pub count : e.bitmap_count ≡ m % 2

module _ (raw : ℕ → ℕ) (m : ℕ) (b : AllBytes raw) where
  cleared : ℕ → ℕ
  cleared = update (zero_bytes (m / 8) raw 0) (m / 8) 0

  cleared-bit : (o : ℕ) → o / 8 ≤ m / 8 → bit cleared o ≡ false
  unfolding cleared
  cleared-bit o h = bit_of_zero cleared o (ground (arith, zero_bytes_lem (m / 8) raw 0 (o / 8)))

  cleared_bytes : AllBytes cleared
  unfolding cleared
  cleared_bytes j = ground (arith, zero_bytes_lem (m / 8) raw 0 j, b j)

  not_last : m % 2 ≡ 0 → (o : ℕ) → is_last m o ≡ false
  not_last even o = ground arith

  -- The path from the code's last byte to `put`.
  last_put :
      m % 2 ≡ 1
      → update cleared (m / 8) (set_bit (cleared (m / 8)) (m % 8 - 1)) ≡ put cleared (m - 1) true
  unfolding put
  last_put odd =
      let e : m / 8 ≡ (m - 1) / 8 = omega arith in
      let e' : m % 8 - 1 ≡ (m - 1) % 8 = omega arith in
      λ i. update cleared (e i) (set_bit (cleared (e i)) (e' i))

  whole-IsFresh :
      m % 8 ≡ 0 → IsFresh m (record { bitmap = zero_bytes (m / 8) raw 0; bitmap_count = 0 })
  whole-IsFresh whole = record {
    bytes = λ j. ground (arith, zero_bytes_lem (m / 8) raw 0 j, b j);
    bits = λ o h.
        bit_of_zero (zero_bytes (m / 8) raw 0) o
          (ground (arith, zero_bytes_lem (m / 8) raw 0 (o / 8)))
        ∙ sym (not_last (omega arith) o);
    pad = λ odd. absurd (omega arith);
    count = omega arith;
  }

  even-IsFresh : m % 2 ≡ 0 → IsFresh m (record { bitmap = cleared; bitmap_count = 0 })
  even-IsFresh even = record {
    bytes = cleared_bytes;
    bits = λ o h. cleared-bit o (omega arith) ∙ sym (not_last even o);
    pad = λ odd. absurd (omega arith);
    count = omega arith;
  }

  odd-IsFresh :
      m % 2 ≡ 1 → IsFresh m (record { bitmap = put cleared (m - 1) true; bitmap_count = 1 })
  odd-IsFresh odd = record {
    bytes = put-AllBytes cleared (m - 1) true cleared_bytes;
    bits = λ o h.
        ground (arith, bit-put cleared (m - 1) true o cleared_bytes, cleared-bit o (omega arith));
    pad = λ _.
        ground (arith, bit-put cleared (m - 1) true m cleared_bytes, cleared-bit m (omega arith));
    count = omega arith;
  }

  pub init_bitmap-IsFresh : IsFresh m (init_bitmap raw m)
  unfolding init_bitmap cleared
  init_bitmap-IsFresh = elim (Bool-cases (m % 8 == 0)) [
    | inl whole ↦ rw whole (whole-IsFresh ((==_iff _ 0).0 whole))
    | inr part ↦ rw part (elim (Bool-cases (m % 8 % 2 == 1)) [
      | inl odd ↦ rw (odd, last_put (ground arith)) (odd-IsFresh (ground arith))
      | inr even ↦ rw even (even-IsFresh (ground arith))
    ])
  ]
