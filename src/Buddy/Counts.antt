-- ===== src/Buddy/Counts.antt =====
-- How many free blocks there are: of a list, and of all lists in pages.
use azalea.Prelude.{
  ℕ, zero, suc, ◌+◌, ◌*◌, ◌≤◌, ◌<◌, ◌≡◌, refl, ap, Bool, if◌then◌else◌, b2n, update, arith,
}
use azalea.Buddy.{Bitmap, shl}
use azalea.Buddy.Bits.{AllBytes, bit, put, bit-put}

-- The number of bits set among the first `n`.
abbrev pub bits_below : (ℕ → ℕ) → ℕ → ℕ
bits_below bm zero = 0
bits_below bm (suc n) = b2n (bit bm n) + bits_below bm n

pub bits_below-le : (bm : ℕ → ℕ) (n : ℕ) → bits_below bm n ≤ n
bits_below-le bm zero = omega arith
bits_below-le bm (suc n) = ground (arith, bits_below-le bm n)

bits_below-put_above :
    (bm : ℕ → ℕ) (o : ℕ) (f : Bool) (n : ℕ)
    → AllBytes bm
    → n ≤ o
    → bits_below (put bm o f) n ≡ bits_below bm n
bits_below-put_above bm o f zero b h = refl
bits_below-put_above bm o f (suc n) b h =
    ground (arith, bits_below-put_above bm o f n b, bit-put bm o f n b)

pub bits_below-put :
    (bm : ℕ → ℕ) (o : ℕ) (f : Bool) (n : ℕ)
    → AllBytes bm
    → o < n
    → bits_below (put bm o f) n + b2n (bit bm o) ≡ bits_below bm n + b2n f
bits_below-put bm o f zero b h = absurd (omega arith)
bits_below-put bm o f (suc n) b h =
    ground (arith, bits_below-put bm o f n b, bits_below-put_above bm o f n b, bit-put bm o f n b)

-- A set bit is counted.
pub bits_below_pos : (bm : ℕ → ℕ) (o n : ℕ) → o < n → b2n (bit bm o) ≤ bits_below bm n
bits_below_pos bm o zero h = absurd (omega arith)
bits_below_pos bm o (suc n) h = ground (arith, bits_below_pos bm o n)

-- The pages of a block of list `k`.
abbrev pub pages : ℕ → ℕ
pages zero = 1
pages (suc k) = 2 * pages k

pub shl-eq-mul : (x k : ℕ) → shl x k ≡ x * pages k
shl-eq-mul x zero = omega arith
shl-eq-mul x (suc k) = omega (arith, shl-eq-mul x k)

-- The pages of the free blocks of `n` lists from list `i` on, counted in blocks of list `i`.
abbrev pub units : (ℕ → Bitmap) → ℕ → ℕ → ℕ
units bm zero i = 0
units bm (suc n) i = (bm i).bitmap_count + 2 * units bm n (i + 1)

units-above :
    (bm : ℕ → Bitmap) (l : ℕ) (e : Bitmap) (n i : ℕ)
    → l < i
    → units (update bm l e) n i ≡ units bm n i
units-above bm l e zero i h = refl
units-above bm l e (suc n) i h = ground (arith, units-above bm l e n (i + 1))

-- One block more or less in a list, in pages.
pub units-update :
    (bm : ℕ → Bitmap) (l : ℕ) (e : Bitmap) (was f : Bool) (n i k : ℕ)
    → l ≡ i + k
    → k < n
    → e.bitmap_count + b2n was ≡ (bm l).bitmap_count + b2n f
    → units (update bm l e) n i + (if was then pages k else 0)
      ≡ units bm n i + (if f then pages k else 0)
units-update bm l e was f zero i k p h c = absurd (omega arith)
units-update bm l e was f (suc n) i zero p h c =
    ground (arith, units-above bm l e n (i + 1), ap (λ x. (bm x).bitmap_count) p)
units-update bm l e was f (suc n) i (suc k) p h c =
    ground (arith, units-update bm l e was f n (i + 1) k (omega arith) (omega arith) c)

-- A free block is part of the total.
pub pages-le-units :
    (bm : ℕ → Bitmap) (n i k l : ℕ)
    → l ≡ i + k
    → k < n
    → 1 ≤ (bm l).bitmap_count
    → pages k ≤ units bm n i
pages-le-units bm zero i k l e h c = absurd (omega arith)
pages-le-units bm (suc n) i zero l e h c = let p : i ≡ l = omega arith in rw p (omega arith)
pages-le-units bm (suc n) i (suc k) l e h c =
    omega (arith, pages-le-units bm n (i + 1) k l (omega arith) (omega arith) c)
