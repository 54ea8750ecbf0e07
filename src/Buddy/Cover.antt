-- ===== src/Buddy/Cover.antt =====
-- Which pages the free blocks of the bitmaps cover.
use azalea.Prelude.{
  ℕ, zero, suc, ◌+◌, ◌*◌, ◌/◌, ◌≤◌, ◌<◌, ◌≡◌, refl, ◌∙◌, ap, Bool, true, ◌&&◌, ltb, ◌==◌,
  if◌then◌else◌, b2n, update, arith,
}
use azalea.Buddy.{Bitmap, shr, shl}
use azalea.Buddy.Bits.{AllBytes, bit, put, bit-put}

-- Whether the block with number `offset` of the list `k` levels up holds the page `q`, as 0 or 1.
abbrev pub hit : ℕ → ℕ → ℕ → ℕ
hit zero q offset = b2n (q == offset)
hit (suc k) q offset = hit k (q / 2) offset

-- How many free blocks of the `n` lists from list `i` on hold the block `q` of list `i`, when
-- list `i` has `m` blocks.
abbrev pub cover : (ℕ → Bitmap) → ℕ → ℕ → ℕ → ℕ → ℕ
cover bm zero i m q = 0
cover bm (suc n) i m q = b2n (ltb q m && bit (bm i).bitmap q) + cover bm n (i + 1) (m / 2) (q / 2)

pub hit-le-one : (k q o : ℕ) → hit k q o ≤ 1
hit-le-one zero q o = ground arith
hit-le-one (suc k) q o = hit-le-one k (q / 2) o

-- A block is its two halves.
pub hit-split : (k q o : ℕ) → hit (suc k) q o ≡ hit k q (o * 2) + hit k q (o * 2 + 1)
hit-split zero q o = ground arith
hit-split (suc k) q o = hit-split k (q / 2) o

pub shl-half : (x k : ℕ) → shl x (suc k) / 2 ≡ shl x k
shl-half x k = omega arith

-- The first page of a block lies in it.
pub hit-shl : (k o : ℕ) → hit k (shl o k) o ≡ 1
hit-shl zero o = ground arith
hit-shl (suc k) o = rw (shl-half o k) (hit-shl k o)

pub shr-half : (x k : ℕ) → shr (x / 2) k ≡ shr x k / 2
shr-half x zero = refl
shr-half x (suc k) = ap (λ y. y / 2) (shr-half x k)

pub hit_iff : (k q o : ℕ) → hit k q o ≡ b2n (shr q k == o)
hit_iff zero q o = refl
hit_iff (suc k) q o = hit_iff k (q / 2) o ∙ ap (λ y. b2n (y == o)) (shr-half q k)

-- The lists above the one that is written are as before.
cover-above :
    (bm : ℕ → Bitmap) (l : ℕ) (e : Bitmap) (n i m q : ℕ)
    → l < i
    → cover (update bm l e) n i m q ≡ cover bm n i m q
cover-above bm l e zero i m q h = refl
cover-above bm l e (suc n) i m q h = ground (arith, cover-above bm l e n (i + 1) (m / 2) (q / 2))

-- Writing one bit of one list changes the cover by the pages of that block.
pub cover-put :
    (bm : ℕ → Bitmap) (l o c : ℕ) (f : Bool) (n i k m q : ℕ)
    → l ≡ i + k
    → k < n
    → o < shr m k
    → AllBytes (bm l).bitmap
    → cover (update bm l (record { bitmap = put (bm l).bitmap o f; bitmap_count = c })) n i m q
        + (if bit (bm l).bitmap o then hit k q o else 0)
      ≡ cover bm n i m q + (if f then hit k q o else 0)
cover-put bm l o c f zero i k m q e h r b = absurd (omega arith)
cover-put bm l o c f (suc n) i zero m q e h r b = ground (
  arith,
  bit-put (bm l).bitmap o f q b,
  cover-above bm l (record { bitmap = put (bm l).bitmap o f; bitmap_count = c }) n (i + 1) (m / 2)
      (q / 2),
)
cover-put bm l o c f (suc n) i (suc k) m q e h r b = ground (
  arith,
  cover-put bm l o c f n (i + 1) k (m / 2) (q / 2) (omega arith) (omega arith) (rw (shr-half m k) r)
      b,
)

-- A free block covers its pages.
pub hit-le-cover :
    (bm : ℕ → Bitmap) (l o n i k m q : ℕ)
    → l ≡ i + k
    → k < n
    → o < shr m k
    → bit (bm l).bitmap o ≡ true
    → hit k q o ≤ cover bm n i m q
hit-le-cover bm l o zero i k m q e h r b = absurd (omega arith)
hit-le-cover bm l o (suc n) i zero m q e h r b = ground (arith, ap (λ x. bit (bm x).bitmap q) e)
hit-le-cover bm l o (suc n) i (suc k) m q e h r b = ground (
  arith,
  hit-le-cover bm l o n (i + 1) k (m / 2) (q / 2) (omega arith) (omega arith) (rw (shr-half m k) r)
      b,
)
