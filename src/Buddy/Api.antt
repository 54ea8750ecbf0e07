-- ===== src/Buddy/Api.antt =====
-- `az_alloc` and `az_free` of kernel/memory.c over the globals of that file and the memory. What
-- they print and the copy of the used size for the statistics page are left out.
use azalea.Prelude.{
  ℕ, ◌+◌, ◌-◌, ◌*◌, ◌/◌, ◌%◌, ◌^◌, Bool, true, false, Option, none, some, ltb, ◌==◌, if◌then◌else◌,
  update,
}
use azalea.Prelude.Words.{extend_int, int_count}
use azalea.Utility.{Ram, lk_memset}
use azalea.Buddy.{
  Mm, page_min_size, page_shl, align_buddy_block, block_list_index, alloc_buddy_block,
  free_buddy_block,
}

-- The globals of kernel/memory.c that the allocator keeps, and the memory.
pub record Memory : Type 0 where
  pub free_memory : Mm
  pub alloc_count : ℕ
  pub free_count : ℕ
  pub ram : Ram

-- `spinlock_lock` and `spinlock_unlock` of `mm_spl`
abbrev pub lock : Mm → Mm
lock mm = record mm { mm_spl = true }

abbrev pub unlock : Mm → Mm
unlock mm = record mm { mm_spl = false }

-- The result is an address, 0 for NULL.
abbrev pub fail : Memory → ℕ × Memory
fail m = (0, record m { free_memory = unlock m.free_memory })

-- The bookkeeping of `az_alloc` for the block at `offset`, found in the list `level`.
unfoldable pub hand_out : Memory → ℕ → ℕ → ℕ → Mm → ℕ × Memory
hand_out m aligned_size level offset mm =
    let rel_address = aligned_size * offset % 2 ^ 64 in
    let address = (rel_address + mm.start_addr) % 2 ^ 64 in
    let taken = record mm {
      block_index = update mm.block_index (rel_address / page_min_size) (level % 256);
      used_size = (mm.used_size + aligned_size) % 2 ^ 64;
    } in
    (
      address,
      record m {
        free_memory = unlock taken;
        ram = lk_memset m.ram address 0 (int_count aligned_size);
        alloc_count = (m.alloc_count + 1) % 2 ^ 64;
      },
    )

-- The end of `az_alloc`: what `alloc_buddy_block` returned is handed out in the list of its size;
-- the `BYTE` that holds a list of -1 is 255.
unfoldable pub finish : Memory → ℕ → Option (ℕ × Mm) → ℕ × Memory
finish m aligned_size none = fail m
finish m aligned_size (some (offset, mm)) = elim (block_list_index mm aligned_size) [
  | none ↦ hand_out m aligned_size 255 offset mm
  | some level ↦ hand_out m aligned_size level offset mm
]

-- `az_alloc` from the aligned size on.
unfoldable pub serve : Memory → ℕ → ℕ × Memory
serve m aligned_size =
    let mm = m.free_memory in
    if aligned_size == 0
    then fail m
    else if ltb mm.end_addr ((mm.start_addr + mm.used_size + aligned_size) % 2 ^ 64)
    then fail m
    else finish m aligned_size (alloc_buddy_block mm aligned_size)

-- `az_alloc`
unfoldable pub az_alloc : Memory → ℕ → ℕ × Memory
az_alloc m size =
    let locked = record m { free_memory = lock m.free_memory } in
    serve locked (align_buddy_block locked.free_memory size)

-- The part of `az_free` after the block index has been read and reset: `level` is what it held.
-- One early return does not release the lock.
unfoldable pub give_back : Memory → ℕ → ℕ → Bool × Memory
give_back m rel_address level =
    let block_size = page_shl level in
    let freed = free_buddy_block m.free_memory level (extend_int (rel_address / block_size)) in
    if block_size == 0 then (false, m) else (
      true,
      record m {
        free_memory =
            unlock (record freed { used_size = (freed.used_size + 2 ^ 64 - block_size) % 2 ^ 64 });
        free_count = (m.free_count + 1) % 2 ^ 64;
      },
    )

-- The part of `az_free` from the relative address on.
unfoldable pub reclaim : Memory → ℕ → Bool × Memory
reclaim m rel_address =
    let mm = m.free_memory in
    let array_offset = extend_int (rel_address / page_min_size) in
    if mm.block_index array_offset == 255
    then (false, record m { free_memory = unlock mm })
    else give_back
        (record m {
          free_memory = record mm { block_index = update mm.block_index array_offset 255 };
        })
        rel_address (mm.block_index array_offset)

-- `az_free`
unfoldable pub az_free : Memory → ℕ → Bool × Memory
az_free m address =
    let mm = lock m.free_memory in
    if address == 0
    then (false, record m { free_memory = unlock mm })
    else reclaim (record m { free_memory = mm }) ((address + 2 ^ 64 - mm.start_addr) % 2 ^ 64)
