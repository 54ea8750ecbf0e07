-- ===== src/Buddy/Start.antt =====
-- `free_mem_init` of kernel/memory.c establishes the invariant.
use azalea.Prelude.{
  ℕ, zero, suc, ◌+◌, ◌-◌, ◌*◌, ◌/◌, ◌%◌, ◌^◌, ◌≤◌, ◌<◌, ◌≡◌, refl, ◌∙◌, ap, inl, inr, true, false,
  Bool-cases, ◌&&◌, ltb, ltb→lt, ◌==◌, ==_iff, ==_refl, ne→==, b2n, update, arith,
}
use azalea.Prelude.Words.{extend_int, int_count, int_count-small}
use azalea.Utility.{lk_memset}
use azalea.Utility.Fill.{lk_memset_lem}
use azalea.Buddy.{Bitmap, Mm, shr, page_min_size}
use azalea.Buddy.Bits.{AllBytes, bit}
use azalea.Buddy.Counts.{bits_below, pages}
use azalea.Buddy.Lists.{IsWellFormed, free_at}
use azalea.Buddy.Held.{held_at, unassigned, room-pages}
use azalea.Buddy.Total.{sum, free_units-eq-sum}
use azalea.Buddy.Sound.{IsSound}
use azalea.Buddy.Init.{count_levels, init_bitmap, init_bitmaps, bitmap_size, free_mem_init}
use azalea.Buddy.Fresh.{IsFresh, is_last, init_bitmap-IsFresh, cover_fresh, held_fresh}

init_bitmaps-below :
    (n : ℕ) (bm : ℕ → Bitmap) (blocks j k : ℕ) → k < j → init_bitmaps n bm blocks j k ≡ bm k
unfolding init_bitmaps
init_bitmaps-below zero bm blocks j k h = refl
init_bitmaps-below (suc n) bm blocks j k h =
    init_bitmaps-below n (update bm j (init_bitmap (bm j).bitmap (shr blocks j))) blocks (j + 1) k
      (omega arith)
    ∙ rw (ne→== k j (λ e. omega (arith, e))) refl

update-bytes :
    (bm : ℕ → Bitmap) (j : ℕ) (e : Bitmap)
    → ((k : ℕ) → AllBytes (bm k).bitmap)
    → AllBytes e.bitmap
    → (k : ℕ) → AllBytes (update bm j e k).bitmap
update-bytes bm j e b be k x = ground (arith, b k x, be x)

init_bitmaps-bytes :
    (n : ℕ) (bm : ℕ → Bitmap) (blocks j : ℕ)
    → ((k : ℕ) → AllBytes (bm k).bitmap)
    → (k : ℕ) → AllBytes (init_bitmaps n bm blocks j k).bitmap
unfolding init_bitmaps
init_bitmaps-bytes zero bm blocks j b = b
init_bitmaps-bytes (suc n) bm blocks j b =
    init_bitmaps-bytes n (update bm j (init_bitmap (bm j).bitmap (shr blocks j))) blocks (j + 1)
      (update-bytes bm j _ b (init_bitmap-IsFresh (bm j).bitmap (shr blocks j) (b j)).bytes)

init_bitmaps-IsFresh :
    (n : ℕ) (bm : ℕ → Bitmap) (blocks j k : ℕ)
    → ((k : ℕ) → AllBytes (bm k).bitmap)
    → j ≤ k
    → k < j + n
    → IsFresh (shr blocks k) (init_bitmaps n bm blocks j k)
unfolding init_bitmaps
init_bitmaps-IsFresh zero bm blocks j k b lo hi = absurd (omega arith)
init_bitmaps-IsFresh (suc n) bm blocks j k b lo hi = elim (Bool-cases (k == j)) [
  | inl e ↦ here ((==_iff k j).0 e)
  | inr e ↦
      init_bitmaps-IsFresh n (update bm j (init_bitmap (bm j).bitmap (shr blocks j))) blocks (j + 1)
        k (update-bytes bm j _ b (init_bitmap-IsFresh (bm j).bitmap (shr blocks j) (b j)).bytes)
        (ground arith) (omega arith)
]
  where
    here : k ≡ j → IsFresh (shr blocks k) (init_bitmaps (suc n) bm blocks j k)
    here e =
        rw
          (
            e,
            init_bitmaps-below n (update bm j (init_bitmap (bm j).bitmap (shr blocks j))) blocks
                (j + 1) j (omega arith),
            ==_refl j,
          )
          (init_bitmap-IsFresh (bm j).bitmap (shr blocks j) (b j))

fresh_count :
    (bm : ℕ → ℕ) (m n : ℕ)
    → n ≤ m
    → ((o : ℕ) → o < m → bit bm o ≡ is_last m o)
    → bits_below bm n ≡ b2n (m % 2 == 1 && n == m)
fresh_count bm m zero h b = ground arith
fresh_count bm m (suc n) h b = ground (arith, fresh_count bm m n (omega arith) b, b n h)

count_levels-zero :
    (fuel blocks i : ℕ) → shr blocks (i + fuel) ≡ 0 → shr blocks (count_levels fuel blocks i) ≡ 0
unfolding count_levels
count_levels-zero zero blocks i z = let e : i + 0 ≡ i = omega arith in rw e at z
count_levels-zero (suc fuel) blocks i z = elim (Bool-cases (ltb 0 (shr blocks i))) [
  | inl more ↦
      let e : i + 1 + fuel ≡ i + suc fuel = omega arith in
      rw more (count_levels-zero fuel blocks (i + 1) (rw e z))
  | inr done ↦ rw done (ground arith)
]

count_levels-le : (fuel blocks i n : ℕ) → shr blocks n ≡ 0 → i ≤ n → count_levels fuel blocks i ≤ n
unfolding count_levels
count_levels-le zero blocks i n z h = h
count_levels-le (suc fuel) blocks i n z h = elim (Bool-cases (ltb 0 (shr blocks i))) [
  | inl more ↦ rw more (count_levels-le fuel blocks (i + 1) n z (below more))
  | inr done ↦ rw done h
]
  where
    below : ltb 0 (shr blocks i) ≡ true → i + 1 ≤ n
    below more = elim (Bool-cases (i == n)) [
      | inl e ↦ absurd (omega (arith, ltb→lt _ _ more, ap (shr blocks) ((==_iff i n).0 e), z))
      | inr e ↦ ground arith
    ]

shr-pages : (m k : ℕ) → m < pages k → shr m k ≡ 0
shr-pages m k h = elim (Bool-cases (ltb 0 (shr m k))) [
  | inl pos ↦ absurd (grind (arith, room-pages m k, ltb→lt _ _ pos))
  | inr z ↦ ground arith
]

sum-ones : (f : ℕ → ℕ) (n : ℕ) → ((q : ℕ) → q < n → f q ≡ 1) → sum f n ≡ n
sum-ones f zero h = refl
sum-ones f (suc n) h = omega (arith, h n (omega arith), sum-ones f n (λ q k. h q (omega arith)))

-- The pages that the rounded metadata takes, and those of the pool.
abbrev pub metadata_pages : ℕ → ℕ
metadata_pages size = (bitmap_size size + (512 - 1)) / 512 * 512

abbrev pub pool_pages : ℕ → ℕ
pool_pages size = size / page_min_size - metadata_pages size

-- The addresses that `free_mem_init` is given.
pub record IsArea (s e : ℕ) : Type 0 where
  pub above_null : 0 < s
  pub order : s ≤ e
  pub reach : e + 2 ^ 31 ≤ 2 ^ 64
  pub small : (e - s) / page_min_size < 2 ^ 31
  pub metadata : metadata_pages (e - s) < 2 ^ 19
  pub fits : metadata_pages (e - s) ≤ (e - s) / page_min_size

-- Every page is free and none is held.
pub record IsStarted (mm : Mm) : Type 0 where
  pub sound : IsSound mm
  pub free : (p : ℕ) → p < mm.smallest_block → free_at mm p ≡ 1
  pub unused : mm.used_size ≡ 0

module _ (raw : Mm) (s e : ℕ) (b : (k : ℕ) → AllBytes (raw.bitmap k).bitmap) (a : IsArea s e) where
  m : ℕ
  m = pool_pages (e - s)

  n : ℕ
  n = count_levels 32 m 0

  started : Mm
  started = record {
    max_level = n;
    smallest_block = m;
    used_size = 0;
    start_addr = s + metadata_pages (e - s) * page_min_size;
    end_addr = e;
    block_index = lk_memset raw.block_index 0 0xff m;
    bitmap = init_bitmaps n raw.bitmap m 0;
    mm_spl = false;
  }

  free_mem_init-eq : free_mem_init raw s e ≡ started
  unfolding free_mem_init started m n
  free_mem_init-eq = λ i. record {
    max_level = count_levels 32 (blocks i) 0;
    smallest_block = blocks i;
    used_size = 0;
    start_addr = start i;
    end_addr = e;
    block_index = lk_memset raw.block_index 0 0xff (counted i);
    bitmap = init_bitmaps (count_levels 32 (blocks i) 0) raw.bitmap (blocks i) 0;
    mm_spl = false;
  }
    where
      size : (e + 2 ^ 64 - s) % 2 ^ 64 ≡ e - s
      size = omega (arith, a.order, a.reach)

      blocks :
          ((e + 2 ^ 64 - s) % 2 ^ 64 / page_min_size
              + 2 ^ 64
              - (bitmap_size ((e + 2 ^ 64 - s) % 2 ^ 64) + (512 - 1)) / 512 * 512)
            % 2 ^ 32
          ≡ pool_pages (e - s)
      blocks = rw size (omega (arith, a.small, a.fits))

      counted :
          int_count (
            ((e + 2 ^ 64 - s) % 2 ^ 64 / page_min_size
              + 2 ^ 64
              - (bitmap_size ((e + 2 ^ 64 - s) % 2 ^ 64) + (512 - 1)) / 512 * 512)
            % 2 ^ 32)
          ≡ pool_pages (e - s)
      counted = ap int_count blocks ∙ int_count-small (pool_pages (e - s)) (omega (arith, a.small))

      start :
          (s
              + extend_int (
                  (bitmap_size ((e + 2 ^ 64 - s) % 2 ^ 64) + (512 - 1))
                  / 512
                  * 512
                  * page_min_size))
            % 2 ^ 64
          ≡ s + metadata_pages (e - s) * page_min_size
      start =
          rw size
            (unfold extend_int in ground (arith, a.small, a.fits, a.order, a.reach, a.metadata))

  small : m < 2 ^ 31
  unfolding m
  small = omega (arith, a.small)

  levels : n ≤ 31
  unfolding n
  levels = count_levels-le 32 m 0 31 (shr-pages m 31 small) (omega arith)

  height : shr m n ≡ 0
  unfolding n
  height = count_levels-zero 32 m 0 (shr-pages m 32 (omega (arith, small)))

  fresh : (k : ℕ) → k < n → IsFresh (shr m k) (started.bitmap k)
  unfolding started
  fresh k h = init_bitmaps-IsFresh n raw.bitmap m 0 k b (omega arith) (omega arith)

  counts :
      (k : ℕ)
      → k < n
      → (started.bitmap k).bitmap_count ≡ bits_below (started.bitmap k).bitmap (shr m k)
  counts k h = ground (
    arith,
    (fresh k h).count,
    fresh_count (started.bitmap k).bitmap (shr m k) (shr m k) (omega arith) (fresh k h).bits,
  )

  all_free : (p : ℕ) → p < m → free_at started p ≡ 1
  unfolding started
  all_free p h =
      cover_fresh started.bitmap n 0 m p
        (λ k o hk ho. let z : 0 + k ≡ k = omega arith in rw z ((fresh k hk).bits o ho)) height h

  entries : (p : ℕ) → p < m → started.block_index p ≡ unassigned
  unfolding started
  entries p h = ground (arith, lk_memset_lem raw.block_index 0 0xff m p (omega arith))

  none_held : (p : ℕ) → p < m → held_at started p ≡ 0
  unfolding started
  none_held p h = held_fresh started.block_index m n 0 p entries h (omega (arith, levels))

  wf : IsWellFormed started
  unfolding started
  wf = record {
    bytes = init_bitmaps-bytes n raw.bitmap m 0 b;
    counts = counts;
    pad = λ l h. (fresh l h).pad;
    height = height;
    small = small;
  }

  started-IsStarted : IsStarted started
  unfolding started
  started-IsStarted = record {
    sound = record {
      lists = wf;
      once = λ p h. omega (arith, all_free p h, none_held p h);
      blocks = λ p h ne. absurd (ne (entries p h));
      levels = levels;
      used = omega (arith, free_units-eq-sum started wf, sum-ones (free_at started) m all_free);
      above_null = omega (arith, a.above_null);
      placed = unfold m in omega (arith, a.fits, a.order);
      reach = a.reach;
      unlocked = refl;
    };
    free = all_free;
    unused = refl;
  }

-- From an area that has room for the metadata, `free_mem_init` makes a sound pool in which every
-- page is free.
pub free_mem_init-IsStarted :
    (raw : Mm) (s e : ℕ)
    → ((k : ℕ) → AllBytes (raw.bitmap k).bitmap)
    → IsArea s e
    → IsStarted (free_mem_init raw s e)
free_mem_init-IsStarted raw s e b a =
    rw (free_mem_init-eq raw s e b a) (started-IsStarted raw s e b a)
