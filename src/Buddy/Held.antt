-- ===== src/Buddy/Held.antt =====
-- Which pages the blocks that were handed out hold, as the block index tells.
use azalea.Prelude.{
  ℕ, zero, suc, ◌+◌, ◌*◌, ◌/◌, ◌≤◌, ◌<◌, ◌≡◌, refl, ◌⊎◌, ◌==◌, if◌then◌else◌, b2n, update, arith,
}
use azalea.Buddy.{Bitmap, Mm, shr, shl}
use azalea.Buddy.Cover.{hit, cover, shr-half}
use azalea.Buddy.Counts.{pages, shl-eq-mul}

-- The entry of a page that starts no block.
abbrev pub unassigned : ℕ
unassigned = 255

-- How many handed-out blocks of the `n` lists from list `i` on hold the block `q` of list `i`.
abbrev pub held : (ℕ → ℕ) → ℕ → ℕ → ℕ → ℕ
held index zero i q = 0
held index (suc n) i q = b2n (index (shl q i) == i) + held index n (i + 1) (q / 2)

abbrev pub held_at : Mm → ℕ → ℕ
held_at mm p = held mm.block_index mm.max_level 0 p

shl-injective : (x y k : ℕ) → shl x k ≡ shl y k → x ≡ y
shl-injective x y zero e = e
shl-injective x y (suc k) e = shl-injective x y k (omega arith)

-- An entry says "starts no block" or names the list `l`.
abbrev IsEntry : ℕ → ℕ → Type 0
IsEntry l v = (v ≡ unassigned) ⊎ (v ≡ l)

held-above :
    (index : ℕ → ℕ) (a l v n i q : ℕ)
    → l < i
    → i + n ≤ unassigned
    → IsEntry l (index a)
    → IsEntry l v
    → held (update index a v) n i q ≡ held index n i q
held-above index a l v zero i q h r old new = refl
held-above index a l v (suc n) i q h r old new =
    ground (arith, held-above index a l v n (i + 1) (q / 2))

-- Writing the entry of one block changes what is held by the pages of that block.
pub held-write :
    (index : ℕ → ℕ) (o l v n i k q : ℕ)
    → l ≡ i + k
    → k < n
    → i + n ≤ unassigned
    → IsEntry l (index (shl o l))
    → IsEntry l v
    → held (update index (shl o l) v) n i q + (if index (shl o l) == l then hit k q o else 0)
      ≡ held index n i q + (if v == l then hit k q o else 0)
held-write index o l v zero i k q e h r old new = absurd (omega arith)
held-write index o l v (suc n) i zero q e h r old new =
    let p : i ≡ l = omega arith in
    let t : l + 1 + n ≤ unassigned = omega arith in
    rw p (ground (arith, held-above index (shl o l) l v n (l + 1) (q / 2), shl-injective q o l))
held-write index o l v (suc n) i (suc k) q e h r old new =
    ground (arith, held-write index o l v n (i + 1) k (q / 2))

-- A handed-out block holds its pages.
pub hit-le-held :
    (index : ℕ → ℕ) (o l n i k q : ℕ)
    → l ≡ i + k
    → k < n
    → index (shl o l) ≡ l
    → hit k q o ≤ held index n i q
hit-le-held index o l zero i k q e h b = absurd (omega arith)
hit-le-held index o l (suc n) i zero q e h b = let p : i ≡ l = omega arith in rw p (ground arith)
hit-le-held index o l (suc n) i (suc k) q e h b =
    omega (arith, hit-le-held index o l n (i + 1) k (q / 2) (omega arith) (omega arith) b)

-- Beyond the pool no block reaches.
pub cover-outside : (bm : ℕ → Bitmap) (n i m q : ℕ) → m ≤ q → cover bm n i m q ≡ 0
cover-outside bm zero i m q h = refl
cover-outside bm (suc n) i m q h = ground (arith, cover-outside bm n (i + 1) (m / 2) (q / 2))

pub hit-outside : (k m q o : ℕ) → m ≤ q → o < shr m k → hit k q o ≡ 0
hit-outside zero m q o h r = ground arith
hit-outside (suc k) m q o h r = hit-outside k (m / 2) (q / 2) o (omega arith) (rw (shr-half m k) r)

pub room-pages : (m k : ℕ) → shr m k * pages k ≤ m
room-pages m zero = omega arith
room-pages m (suc k) =
    let half : shr m k / 2 * 2 ≤ shr m k = omega arith in grind (arith, room-pages m k)

-- The pages of a block lie in the pool.
pub block_inside : (m k o : ℕ) → o < shr m k → shl o k + pages k ≤ m
block_inside m k o h = grind (arith, room-pages m k, shl-eq-mul o k)
