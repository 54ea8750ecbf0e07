-- ===== src/Shm.antt =====
-- The shared memory regions of kernel/shm: the state of shm.h and sys/shm.h, and the buddy pool
-- of shm_mm.c.
pub mod Table
pub mod Calls
pub mod Invariant
pub mod Get
pub mod Lifetime
use azalea.Prelude.{
  ℕ, zero, suc, ◌+◌, ◌-◌, ◌*◌, ◌/◌, ◌%◌, ◌^◌, Bool, true, false, Option, ltb, ◌==◌, if◌then◌else◌,
}
use azalea.Utility.{Ram}
use azalea.Buddy.{
  Mm, page_min_size, page_shl, set_bitmap_flag, get_bitmap_flag, find_free_block, align_buddy_block,
  block_list_index, alloc_buddy_block, free_buddy_block,
}
use azalea.Buddy.Api.{Memory, az_alloc, az_free}
use azalea.Buddy.Init.{bitmap_size, free_mem_init}

abbrev pub max_regions : ℕ
max_regions = 1024

abbrev pub srflag_available : ℕ
srflag_available = 0

abbrev pub srflag_inuse : ℕ
srflag_inuse = 1

abbrev pub srflag_unlinked : ℕ
srflag_unlinked = 2

-- `struct shmid_ds`, with the mode of its `shm_perm`. The three times are never set but to zero.
pub record ShmidDs : Type 0 where
  pub mode : ℕ
  pub shm_segsz : ℕ
  pub shm_lpid : ℕ
  pub shm_cpid : ℕ
  pub shm_nattch : ℕ  -- unsigned short

-- `struct shm_region_s`
pub record Region : Type 0 where
  pub sr_ds : ShmidDs
  pub sr_flags : ℕ
  pub sr_key : ℕ
  pub sr_lock : Bool
  pub sr_data : ℕ  -- an address, 0 for NULL

-- `struct shm_info_s`, and the memory.
pub record ShmInfo : Type 0 where
  pub si_lock : Bool
  pub shm_init_flag : ℕ
  pub shm_free_mem_mgt : Mm
  pub si_region : ℕ → Region
  pub ram : Ram

-- A region of zero bytes.
abbrev pub zero_region : Region
zero_region = record {
  sr_ds = record { mode = 0; shm_segsz = 0; shm_lpid = 0; shm_cpid = 0; shm_nattch = 0 };
  sr_flags = 0;
  sr_key = 0;
  sr_lock = false;
  sr_data = 0;
}

-- shm_mm.c holds, for the pool of the shared memory, copies of the functions of memory.c that
-- differ from them in the name of the `MM` alone.
abbrev pub shm_set_bitmap_flag : Mm → ℕ → ℕ → ℕ → Mm
shm_set_bitmap_flag = set_bitmap_flag

abbrev pub shm_get_bitmap_flag : Mm → ℕ → ℕ → ℕ
shm_get_bitmap_flag = get_bitmap_flag

abbrev pub shm_find_free_block : Mm → ℕ → Option ℕ
shm_find_free_block = find_free_block

abbrev pub shm_align_buddy_block : Mm → ℕ → ℕ
shm_align_buddy_block = align_buddy_block

abbrev pub shm_block_list_index : Mm → ℕ → Option ℕ
shm_block_list_index = block_list_index

abbrev pub shm_alloc_buddy_block : Mm → ℕ → Option (ℕ × Mm)
shm_alloc_buddy_block = alloc_buddy_block

abbrev pub shm_free_buddy_block : Mm → ℕ → ℕ → Mm
shm_free_buddy_block = free_buddy_block

abbrev pub shm_bitmap_size : ℕ → ℕ
shm_bitmap_size = bitmap_size

-- `shm_free_mem_init`: the pool lies behind the `info_size` bytes of `struct shm_info_s` in the
-- area of `size` bytes.
unfoldable pub shm_free_mem_init : Mm → ℕ → ℕ → ℕ → Mm
shm_free_mem_init raw info_size shared_memory size =
    let rest = if ltb 0 (info_size % page_min_size) then 1 else 0 in
    free_mem_init raw (shared_memory + (info_size / page_min_size + rest) * page_min_size)
      (shared_memory + size)

-- The globals of memory.c with the shared pool in place of that of the kernel. What memory.c
-- counts besides is not part of shm_mm.c.
abbrev pub as_memory : ShmInfo → Memory
as_memory info = record {
  free_memory = info.shm_free_mem_mgt;
  alloc_count = 0;
  free_count = 0;
  ram = info.ram;
}

abbrev pub with_memory : ShmInfo → Memory → ShmInfo
with_memory info m = record info { shm_free_mem_mgt = m.free_memory; ram = m.ram }

-- `shm_alloc` and `shm_free` are `az_alloc` and `az_free` of the shared pool, without the
-- counts of the calls.
unfoldable pub shm_alloc : ShmInfo → ℕ → ℕ × ShmInfo
shm_alloc info size = let r = az_alloc (as_memory info) size in (r.0, with_memory info r.1)

unfoldable pub shm_free : ShmInfo → ℕ → Bool × ShmInfo
shm_free info address = let r = az_free (as_memory info) address in (r.0, with_memory info r.1)

-- The loop of `shm_get_buddy_block_size`, with `n` rounds left.
unfoldable pub buddy_size_from : ℕ → ℕ → ℕ → ℕ
buddy_size_from size zero i = 0
buddy_size_from size (suc n) i =
    if ltb size (page_shl i) then page_shl i else buddy_size_from size n (i + 1)

unfoldable pub shm_get_buddy_block_size : ℕ → ℕ
shm_get_buddy_block_size size = buddy_size_from size 32 0
