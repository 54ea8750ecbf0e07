-- ===== src/Buddy/Init.antt =====
-- `free_mem_init` and `bitmap_size` of kernel/memory.c: the lists of a fresh pool.
use azalea.Prelude.{
  ℕ, zero, suc, ◌+◌, ◌-◌, ◌*◌, ◌/◌, ◌%◌, ◌^◌, false, ltb, ◌==◌, if◌then◌else◌, update,
}
use azalea.Prelude.Words.{extend_int, int_count}
use azalea.Utility.{lk_memset}
use azalea.Buddy.{Bitmap, Mm, shr, page_min_size}
use azalea.Buddy.Bits.{set_bit}

-- The loop of `bitmap_size`: 16 bytes for each `BITMAP`, and the bytes of its bits. An `int` has
-- at most 31 levels.
unfoldable pub metadata_bytes : ℕ → ℕ → ℕ → ℕ → ℕ
metadata_bytes zero blocks i bytes = bytes
metadata_bytes (suc fuel) blocks i bytes =
    let rest =
      metadata_bytes fuel blocks (i + 1) ((bytes + 16 + (shr blocks i + 7) / 8) % 2 ^ 32) in
    if ltb 0 (shr blocks i) then rest else bytes

-- `bitmap_size`: the pages that the metadata takes.
unfoldable pub bitmap_size : ℕ → ℕ
bitmap_size free_mem_size =
    let blocks = free_mem_size / page_min_size in
    (blocks % 2 ^ 32 + metadata_bytes 64 blocks 0 0 + page_min_size - 1) % 2 ^ 32 / page_min_size

-- `for (i=0; (smallest_block >> i) > 0; i++) ;`
unfoldable pub count_levels : ℕ → ℕ → ℕ → ℕ
count_levels zero blocks i = i
count_levels (suc fuel) blocks i =
    let rest = count_levels fuel blocks (i + 1) in if ltb 0 (shr blocks i) then rest else i

-- The loop that writes `n` zero bytes from byte `i` on.
unfoldable pub zero_bytes : ℕ → (ℕ → ℕ) → ℕ → ℕ → ℕ
zero_bytes zero bm i = bm
zero_bytes (suc n) bm i = zero_bytes n (update bm i 0) (i + 1)

-- One round of the bitmap loop: the lists are empty but for the last block of one of odd length.
unfoldable pub init_bitmap : (ℕ → ℕ) → ℕ → Bitmap
init_bitmap raw block_count =
    let cur = zero_bytes (block_count / 8) raw 0 in
    let left = block_count % 8 in
    let cleared = update cur (block_count / 8) 0 in
    if left == 0
    then (record { bitmap = cur; bitmap_count = 0 })
    else if left % 2 == 1
    then (record {
      bitmap = update cleared (block_count / 8) (set_bit (cleared (block_count / 8)) (left - 1));
      bitmap_count = 1;
    })
    else (record { bitmap = cleared; bitmap_count = 0 })

-- The bitmap loop, with `n` rounds left from list `j` on.
unfoldable pub init_bitmaps : ℕ → (ℕ → Bitmap) → ℕ → ℕ → ℕ → Bitmap
init_bitmaps zero bm blocks j = bm
init_bitmaps (suc n) bm blocks j =
    init_bitmaps n (update bm j (init_bitmap (bm j).bitmap (shr blocks j))) blocks (j + 1)

-- `free_mem_init` for the pool between two addresses. The `Mm` given tells what the memory of the
-- block index and of the bitmaps holds before.
unfoldable pub free_mem_init : Mm → ℕ → ℕ → Mm
free_mem_init raw free_mem_start free_mem_end =
    let free_mem_size = (free_mem_end + 2 ^ 64 - free_mem_start) % 2 ^ 64 in
    let bitmap = (bitmap_size free_mem_size + (512 - 1)) / 512 * 512 in
    let smallest_block = (free_mem_size / page_min_size + 2 ^ 64 - bitmap) % 2 ^ 32 in
    let max_level = count_levels 32 smallest_block 0 in
    record {
      max_level = max_level;
      smallest_block = smallest_block;
      used_size = 0;
      start_addr = (free_mem_start + extend_int (bitmap * page_min_size)) % 2 ^ 64;
      end_addr = free_mem_end;
      block_index = lk_memset raw.block_index 0 0xff (int_count smallest_block);
      bitmap = init_bitmaps max_level raw.bitmap smallest_block 0;
      mm_spl = false;
    }
