-- ===== src/Shm/Table.antt =====
-- The region table: shm_initialize.c, `shm_find`, `shm_reserve`, `shm_extend` and `shm_create` of
-- shmget.c, and `shm_destroy` of shmctl.c.
use azalea.Prelude.{
  ℕ, zero, suc, ◌+◌, ◌-◌, false, Option, none, some, ltb, ◌==◌, if◌then◌else◌, update, bit_and,
}
use azalea.Prelude.Words.{int_count}
use azalea.Utility.{lk_memset}
use azalea.Buddy.{Mm}
use azalea.Shm.{
  Region, ShmInfo, max_regions, srflag_available, srflag_inuse, zero_region, shm_alloc, shm_free,
  shm_get_buddy_block_size,
}

abbrev pub einval : ℕ
einval = 22

abbrev pub enomem : ℕ
enomem = 12

abbrev pub enospc : ℕ
enospc = 28

-- A result: not negative, or a negated `errno`.
pub data Result : Type 0 where
  ok : ℕ → Result
  error : ℕ → Result

-- Writes one entry of the table.
abbrev pub set_region : ShmInfo → ℕ → Region → ShmInfo
set_region info shmid region = record info { si_region = update info.si_region shmid region }

-- The loop of `shm_initialize`, with `n` regions left from region `i` on.
unfoldable pub clear_regions : ℕ → (ℕ → Region) → ℕ → ℕ → Region
clear_regions zero regions i = regions
clear_regions (suc n) regions i = clear_regions n (update regions i zero_region) (i + 1)

-- An `MM` of zero bytes. Its pointers are NULL: what their targets hold is `raw`.
abbrev pub zero_mm : Mm → Mm
zero_mm raw = record raw {
  max_level = 0;
  smallest_block = 0;
  used_size = 0;
  start_addr = 0;
  end_addr = 0;
  mm_spl = false;
}

unfoldable pub shm_initialize : ShmInfo → ShmInfo
shm_initialize info = record info {
  si_region = clear_regions max_regions info.si_region 0;
  shm_free_mem_mgt = zero_mm info.shm_free_mem_mgt;
}

-- The loop of `shm_find`, with `n` regions left from region `i` on.
unfoldable pub find_from : (ℕ → Region) → ℕ → ℕ → ℕ → Option ℕ
find_from regions key zero i = none
find_from regions key (suc n) i =
    if (regions i).sr_key == key then some i else find_from regions key n (i + 1)

unfoldable pub shm_find : ShmInfo → ℕ → Option ℕ
shm_find info key = find_from info.si_region key max_regions 0

-- What `shm_reserve` writes to the region that it takes.
unfoldable pub reserved : Region → ℕ → ℕ → Region
reserved region key shmflg = record region {
  sr_key = key;
  sr_flags = srflag_inuse;
  sr_lock = false;
  sr_ds = record (region.sr_ds) { mode = bit_and shmflg 0x1ff };
}

-- The loop of `shm_reserve`, with `n` regions left from region `i` on: the first available one.
unfoldable pub available_from : (ℕ → Region) → ℕ → ℕ → Option ℕ
available_from regions zero i = none
available_from regions (suc n) i =
    if (regions i).sr_flags == srflag_available then some i else available_from regions n (i + 1)

-- The end of `shm_reserve`, for the region found.
unfoldable pub reserve_at : ShmInfo → ℕ → ℕ → Option ℕ → Result × ShmInfo
reserve_at info key shmflg none = (error enospc, info)
reserve_at info key shmflg (some i) =
    (ok i, set_region info i (reserved (info.si_region i) key shmflg))

unfoldable pub shm_reserve : ShmInfo → ℕ → ℕ → Result × ShmInfo
shm_reserve info key shmflg =
    reserve_at info key shmflg (available_from info.si_region max_regions 0)

-- `shm_extend`; the result on success is 1.
unfoldable pub shm_extend : ShmInfo → ℕ → ℕ → Result × ShmInfo
shm_extend info shmid size =
    if ltb segsz size
    then (if ltb (shm_get_buddy_block_size segsz) size then (error enomem, info) else (
      ok 1,
      record info {
        ram = lk_memset info.ram (region.sr_data + segsz) 0 (int_count (size - segsz));
        si_region =
            update info.si_region shmid
              (record region { sr_ds = record (region.sr_ds) { shm_segsz = size } });
      },
    ))
    else (ok 1, info)
  where
    region : Region
    region = info.si_region shmid

    segsz : ℕ
    segsz = region.sr_ds.shm_segsz

-- `shm_destroy`
unfoldable pub shm_destroy : ShmInfo → ℕ → ShmInfo
shm_destroy info shmid =
    let data_address = (info.si_region shmid).sr_data in
    let info' = if data_address == 0 then info else (shm_free info data_address).1 in
    set_region info' shmid zero_region

-- `shm_create` from the reserved region on, given what `shm_alloc` returns.
unfoldable pub create_at : ℕ → ℕ → ℕ → ℕ × ShmInfo → Result × ShmInfo
create_at pid shmid size (address, info) =
    let region = record (info.si_region shmid) { sr_data = address } in
    if address == 0 then (error enomem, shm_destroy (set_region info shmid region) shmid) else (
      ok shmid,
      set_region info shmid
          (record region { sr_ds = record (region.sr_ds) { shm_segsz = size; shm_cpid = pid } }),
    )

-- `shm_create` after `shm_reserve`.
unfoldable pub create_from : ℕ → ℕ → Result × ShmInfo → Result × ShmInfo
create_from pid size (error e, info) = (error e, info)
create_from pid size (ok shmid, info) = create_at pid shmid size (shm_alloc info size)

-- `shm_create`; `pid` is what `sys_getpid` returns.
unfoldable pub shm_create : ℕ → ShmInfo → ℕ → ℕ → ℕ → Result × ShmInfo
shm_create pid info key size shmflg = create_from pid size (shm_reserve info key shmflg)
