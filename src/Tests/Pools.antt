-- ===== src/Tests/Pools.antt =====
-- Two pools of one page for the allocator of kernel/memory.c, and one of 488 pages.
use azalea.Prelude.{
  true, ℕ, ◌+◌, ◌-◌, ◌*◌, ◌%◌, ◌^◌, ◌<◌, ◌≡◌, refl, false, ◌⊎◌, inl, inr, ◌==◌, if◌then◌else◌,
  arith,
}
use azalea.Utility.{lk_memset}
use azalea.Utility.Copy.{lk_memcpy, lk_memcpy_lem}
use azalea.Utility.Fill.{within, lk_memset_lem}
use azalea.Buddy.{
  Mm, find_free_block, scan, load64, find_level, take_block, split, set_bitmap_flag, align_from,
  alloc_buddy_block, align_buddy_block, block_list_index, index_from, page_shl, free_buddy_block,
}
use azalea.Buddy.Api.{Memory, serve, finish, hand_out, az_alloc, az_free}
use azalea.Prelude.Words.{extend_int, int_count}
use azalea.Buddy.Init.{
  count_levels, init_bitmaps, init_bitmap, zero_bytes, bitmap_size, metadata_bytes, free_mem_init,
}
use azalea.Buddy.Bits.{AllBytes, bit, test_bit, set_bit, put}
use azalea.Buddy.Counts.{pages}
use azalea.Buddy.Split.{IsApart}
use azalea.Buddy.Lists.{IsWellFormed}
use azalea.Buddy.Search.{IsLeast, find_free_block-IsLeast}
use azalea.Buddy.Size.{IsFit, align_buddy_block-IsFit}
use azalea.Buddy.Take.{IsTakenOrNone, alloc_buddy_block-IsTakenOrNone}
use azalea.Buddy.Merge.{IsFreed, free_buddy_block-IsFreed}
use azalea.Buddy.Sound.{IsSound, sound-IsDisjoint}
use azalea.Buddy.Alloc.{IsServed, az_alloc-IsServed}
use azalea.Buddy.Free.{IsOwned, IsReleased, IsNotHeld, az_free-IsReleased, az_free-refuses}
use azalea.Buddy.Restore.{IsRestored, az_free-az_alloc}
use azalea.Buddy.Start.{IsArea, IsStarted, free_mem_init-IsStarted}

-- One page, with the byte of its bitmap and its entry in the block index.
abbrev one_page : ℕ → ℕ → Mm
one_page byte entry = record {
  max_level = 1;
  smallest_block = 1;
  used_size = (1 - byte) * 4096;
  start_addr = 4096;
  end_addr = 8192;
  block_index = λ a. if a == 0 then entry else 255;
  bitmap = λ l. record { bitmap = λ j. if j == 0 then byte else 0; bitmap_count = byte };
  mm_spl = false;
}

abbrev pub memory : Mm → Memory
memory mm = record { free_memory = mm; alloc_count = 0; free_count = 0; ram = λ a. a % 256 }

one_page-IsWellFormed :
    (byte entry : ℕ) → (byte ≡ 0) ⊎ (byte ≡ 1) → IsWellFormed (one_page byte entry)
unfolding bit test_bit
one_page-IsWellFormed byte entry (inl z) = rw z (record {
  bytes = λ l j. ground arith;
  counts = λ l k. let e : l ≡ 0 = omega arith in rw e refl;
  pad = λ l k o. let e : l ≡ 0 = omega arith in rw e refl;
  height = refl;
  small = omega arith;
})
one_page-IsWellFormed byte entry (inr z) = rw z (record {
  bytes = λ l j. ground arith;
  counts = λ l k. let e : l ≡ 0 = omega arith in rw e refl;
  pad = λ l k o. let e : l ≡ 0 = omega arith in rw e refl;
  height = refl;
  small = omega arith;
})

free_page-IsSound : IsSound (one_page 1 255)
unfolding bit test_bit
free_page-IsSound = record {
  lists = one_page-IsWellFormed 1 255 (inr refl);
  once = λ p h. let e : p ≡ 0 = omega arith in rw e refl;
  blocks = λ a h ne. absurd (ne (ground arith));
  levels = omega arith;
  used = refl;
  above_null = omega arith;
  placed = omega arith;
  reach = omega arith;
  unlocked = refl;
}

held_page-IsSound : IsSound (one_page 0 0)
unfolding bit test_bit
held_page-IsSound = record {
  lists = one_page-IsWellFormed 0 0 (inl refl);
  once = λ p h. let e : p ≡ 0 = omega arith in rw e refl;
  blocks = λ a h ne.
      let e : a ≡ 0 = omega arith in rw e (omega arith, omega arith, 0, omega arith, refl);
  levels = omega arith;
  used = refl;
  above_null = omega arith;
  placed = omega arith;
  reach = omega arith;
  unlocked = refl;
}

-- The address range of 1000 pages: 512 hold the metadata.
range-IsArea : IsArea 4096 (4096 + 4096 * 1000)
unfolding bitmap_size metadata_bytes
range-IsArea = record {
  above_null = omega arith;
  order = omega arith;
  reach = omega arith;
  small = omega arith;
  metadata = omega arith;
  fits = omega arith;
}

-- Memory that was never written.
abbrev blank : Mm
blank = one_page 0 0

abbrev pub pool : Mm
pool = free_mem_init blank 4096 (4096 + 4096 * 1000)

blank-AllBytes : (k : ℕ) → AllBytes (blank.bitmap k).bitmap
blank-AllBytes k j = ground arith

pool_pages_run : pool.smallest_block ≡ 488
unfolding free_mem_init bitmap_size metadata_bytes
pool_pages_run = refl

free_mem_init-IsStarted_example : IsStarted pool
free_mem_init-IsStarted_example =
    free_mem_init-IsStarted blank 4096 (4096 + 4096 * 1000) blank-AllBytes range-IsArea

pub pool-IsSound : IsSound pool
pool-IsSound =
    (free_mem_init-IsStarted blank 4096 (4096 + 4096 * 1000) blank-AllBytes range-IsArea).sound

az_alloc-IsServed_example : IsServed (memory pool) 5000 (az_alloc (memory pool) 5000)
az_alloc-IsServed_example = az_alloc-IsServed (memory pool) 5000 pool-IsSound (omega arith)

held_page-IsOwned : IsOwned (one_page 0 0) 0 0 4096
held_page-IsOwned = record {
  level = omega arith;
  low = omega arith;
  inside = omega arith;
  entry = refl;
  at_least = omega arith;
  first_page = omega arith;
}

az_free-IsReleased_example :
    IsReleased (memory (one_page 0 0)) 0 0 (az_free (memory (one_page 0 0)) 4096)
az_free-IsReleased_example =
    az_free-IsReleased (memory (one_page 0 0)) 0 0 4096 held_page-IsSound held_page-IsOwned

free_page-IsNotHeld : IsNotHeld (one_page 1 255) 5000
unfolding IsNotHeld bit test_bit
free_page-IsNotHeld = inr (omega arith, omega arith, omega arith)

az_free-refuses_example : az_free (memory (one_page 1 255)) 5000 ≡ (false, memory (one_page 1 255))
az_free-refuses_example =
    az_free-refuses (memory (one_page 1 255)) 5000 free_page-IsSound free_page-IsNotHeld

lists : IsWellFormed (one_page 1 255)
lists = one_page-IsWellFormed 1 255 (inr refl)

find_free_block-IsLeast_example :
    IsLeast ((one_page 1 255).bitmap 0).bitmap 1 (find_free_block (one_page 1 255) 0)
find_free_block-IsLeast_example = find_free_block-IsLeast (one_page 1 255) 0 lists (omega arith)

align_buddy_block-IsFit_example :
    ((l : ℕ) × IsFit (one_page 1 255) 100 l)
    ⊎ ((align_buddy_block (one_page 1 255) 100 ≡ 0) × ((j : ℕ) → j < 1 → 4096 * pages j < 100))
align_buddy_block-IsFit_example = align_buddy_block-IsFit (one_page 1 255) 100 (omega arith)

-- A pool of 4 GB.
abbrev large : Mm
large = record (one_page 1 255) { max_level = 21; smallest_block = 2 ^ 20 }

-- The shift of an `int` overflows.
large_request : align_buddy_block large (2 ^ 30 + 1) ≡ 2 ^ 64 - 2 ^ 31
unfolding align_buddy_block align_from page_shl
large_request = refl

alloc_buddy_block-IsTakenOrNone_example :
    IsTakenOrNone (one_page 1 255) 0 (alloc_buddy_block (one_page 1 255) 4096)
unfolding block_list_index index_from page_shl
alloc_buddy_block-IsTakenOrNone_example =
    alloc_buddy_block-IsTakenOrNone (one_page 1 255) 4096 0 lists
      (sound-IsDisjoint free_page-IsSound) (omega arith) refl

free_buddy_block-IsFreed_example : IsFreed (one_page 0 0) 0 0 (free_buddy_block (one_page 0 0) 0 0)
unfolding bit test_bit
free_buddy_block-IsFreed_example =
    free_buddy_block-IsFreed (one_page 0 0) 0 0 (one_page-IsWellFormed 0 0 (inl refl)) (omega arith)
      (omega arith) apart
  where
    apart : IsApart (one_page 0 0) 0 0
    apart p = ground arith

lk_memset_lem_example : lk_memset (λ a. 7) 16 5 11 26 ≡ (if within 16 11 26 then 5 else 7)
lk_memset_lem_example = lk_memset_lem (λ a. 7) 16 5 11 26 (omega arith)

-- The last page of the pool that is asked for first.
az_alloc_run : (az_alloc (memory pool) 5000).0 ≡ 4096 * (1 + 512 + 480)
unfolding az_alloc serve finish hand_out align_buddy_block align_from page_shl block_list_index
    index_from alloc_buddy_block find_level find_free_block scan load64 take_block split
    set_bitmap_flag free_mem_init extend_int bitmap_size metadata_bytes count_levels init_bitmaps
    int_count init_bitmap zero_bytes set_bit test_bit put
az_alloc_run = refl

lk_memcpy_lem_example :
    ((lk_memcpy (λ a. a) 32 5 11).0 ≡ 11)
    × ((lk_memcpy (λ a. a) 32 5 11).1 42 ≡ (if within 32 11 42 then 5 + (42 - 32) else 42))
lk_memcpy_lem_example = lk_memcpy_lem (λ a. a) 32 5 11 42 (inr (omega arith))

az_free-az_alloc_example :
    ((az_free (az_alloc (memory pool) 5000).1 (az_alloc (memory pool) 5000).0).0 ≡ true)
    × IsRestored
        (memory pool)
        (az_free (az_alloc (memory pool) 5000).1 (az_alloc (memory pool) 5000).0).1
az_free-az_alloc_example =
    az_free-az_alloc (memory pool) 5000 pool-IsSound (omega arith) (omega (arith, az_alloc_run))
