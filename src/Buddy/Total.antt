-- ===== src/Buddy/Total.antt =====
-- The free pages counted one by one are the free blocks counted by size.
use azalea.Prelude.{
  ℕ, zero, suc, ◌+◌, ◌*◌, ◌/◌, ◌%◌, ◌≤◌, ◌<◌, ◌≡◌, refl, ap, inl, inr, Bool-cases, ◌==◌, ◌&&◌, ltb,
  b2n, arith,
}
use azalea.Buddy.{Bitmap, Mm, shr}
use azalea.Buddy.Bits.{bit}
use azalea.Buddy.Cover.{cover, shr-half}
use azalea.Buddy.Counts.{bits_below, units}
use azalea.Buddy.Lists.{IsWellFormed, free_at, free_units, room}
use azalea.Buddy.Held.{cover-outside}

-- `f 0 + … + f (n - 1)`
abbrev pub sum : (ℕ → ℕ) → ℕ → ℕ
sum f zero = 0
sum f (suc n) = f n + sum f n

pub sum-add :
    (f g h : ℕ → ℕ) (n : ℕ) → ((q : ℕ) → q < n → h q ≡ f q + g q) → sum h n ≡ sum f n + sum g n
sum-add f g h zero e = refl
sum-add f g h (suc n) e = omega (arith, e n (omega arith), sum-add f g h n λ q k. e q (omega arith))

pub sum-le : (f : ℕ → ℕ) (n : ℕ) → ((q : ℕ) → f q ≤ 1) → sum f n ≤ n
sum-le f zero h = omega arith
sum-le f (suc n) h = omega (arith, h n, sum-le f n h)

sum-zero : (n : ℕ) → sum (λ q. 0) n ≡ 0
sum-zero zero = refl
sum-zero (suc n) = omega (arith, sum-zero n)

-- A sum over both halves of each.
sum-twice : (f : ℕ → ℕ) (k : ℕ) → sum (λ q. f (q / 2)) (k * 2) ≡ 2 * sum f k
sum-twice f zero = refl
sum-twice f (suc k) =
    let e : suc k * 2 ≡ suc (suc (k * 2)) = omega arith in
    let a : k * 2 / 2 ≡ k = omega arith in
    let b : suc (k * 2) / 2 ≡ k = omega arith in rw e (omega (arith, sum-twice f k, ap f a, ap f b))

sum-half : (f : ℕ → ℕ) (m : ℕ) → f (m / 2) ≡ 0 → sum (λ q. f (q / 2)) m ≡ 2 * sum f (m / 2)
sum-half f m z = elim (Bool-cases (m % 2 == 0)) [
  | inl even ↦
      let e : m ≡ m / 2 * 2 = ground arith in
      omega (arith, ap (λ x. sum (λ q. f (q / 2)) x) e, sum-twice f (m / 2))
  | inr odd ↦
      let e : m ≡ suc (m / 2 * 2) = ground arith in
      let a : m / 2 * 2 / 2 ≡ m / 2 = omega arith in
      omega (arith, ap (λ x. sum (λ q. f (q / 2)) x) e, sum-twice f (m / 2), ap f a, z)
]

bits_below-eq-sum :
    (bm : ℕ → ℕ) (m n : ℕ) → n ≤ m → sum (λ q. b2n (ltb q m && bit bm q)) n ≡ bits_below bm n
bits_below-eq-sum bm m zero h = refl
bits_below-eq-sum bm m (suc n) h = ground (arith, bits_below-eq-sum bm m n)

pub units-eq-sum :
    (bm : ℕ → Bitmap) (n i m : ℕ)
    → ((k : ℕ) → k < n → (bm (i + k)).bitmap_count ≡ bits_below (bm (i + k)).bitmap (shr m k))
    → units bm n i ≡ sum (cover bm n i m) m
units-eq-sum bm zero i m h = omega (arith, sum-zero m)
units-eq-sum bm (suc n) i m h =
    let e : i + 0 ≡ i = omega arith in
    omega (
      arith,
      sum-add (λ q. b2n (ltb q m && bit (bm i).bitmap q)) (λ q. cover bm n (i + 1) (m / 2) (q / 2))
          (cover bm (suc n) i m) m (λ q k. refl),
      sum-half (cover bm n (i + 1) (m / 2)) m
          (cover-outside bm n (i + 1) (m / 2) (m / 2) (omega arith)),
      bits_below-eq-sum (bm i).bitmap m m (omega arith),
      rw e at (h 0 (omega arith)),
      units-eq-sum bm n (i + 1) (m / 2) (λ k hk. above k (h (suc k) (omega arith))),
    )
  where
    above :
        (k : ℕ)
        → (bm (i + suc k)).bitmap_count ≡ bits_below (bm (i + suc k)).bitmap (shr m (suc k))
        → (bm (i + 1 + k)).bitmap_count ≡ bits_below (bm (i + 1 + k)).bitmap (shr (m / 2) k)
    above k c = let e : i + 1 + k ≡ i + suc k = omega arith in rw (e, shr-half m k) c

-- In a well-formed state the free blocks make up as many pages as are free.
pub free_units-eq-sum :
    (mm : Mm) → IsWellFormed mm → free_units mm ≡ sum (free_at mm) mm.smallest_block
free_units-eq-sum mm w =
    units-eq-sum mm.bitmap mm.max_level 0 mm.smallest_block (λ k h. at k (w.counts k h))
  where
    at :
        (k : ℕ)
        → (mm.bitmap k).bitmap_count ≡ bits_below (mm.bitmap k).bitmap (room mm k)
        → (mm.bitmap (0 + k)).bitmap_count ≡ bits_below (mm.bitmap (0 + k)).bitmap (room mm k)
    at k c = let e : 0 + k ≡ k = omega arith in rw e c
