-- ===== src/Shm/Calls.antt =====
-- The calls `shmget`, `shmat`, `shmdt` and `shmctl` of kernel/shm. A call that returns -1 returns
-- none here. What is printed is left out.
use azalea.Prelude.{
  ℕ, zero, suc, ◌+◌, ◌-◌, ◌%◌, ◌^◌, Bool, true, false, Option, none, some, ltb, leb, ◌==◌,
  if◌then◌else◌, bit_and, bit_or,
}
use azalea.Shm.{
  ShmidDs, Region, ShmInfo, max_regions, srflag_inuse, srflag_unlinked, shm_free_mem_init,
}
use azalea.Shm.Table.{
  Result, ok, error, set_region, shm_initialize, shm_find, shm_extend, shm_destroy, shm_create,
}

abbrev pub ipc_private : ℕ
ipc_private = 0

abbrev pub ipc_creat : ℕ
ipc_creat = 1024

abbrev pub si_lock : ShmInfo → ShmInfo
si_lock info = record info { si_lock = true }

abbrev pub si_unlock : ShmInfo → ShmInfo
si_unlock info = record info { si_lock = false }

-- Where the shared memory lies: constants of the build.
pub record Area : Type 0 where
  pub info_size : ℕ  -- sizeof(struct shm_info_s)
  pub shared_memory : ℕ
  pub shared_memory_size : ℕ

-- The first call sets up the table and the pool.
unfoldable pub set_up : Area → ShmInfo → ShmInfo
set_up area info =
    let cleared = shm_initialize info in
    if info.shm_init_flag == 0
    then (record cleared {
      shm_free_mem_mgt =
          shm_free_mem_init cleared.shm_free_mem_mgt area.info_size area.shared_memory
            area.shared_memory_size;
      shm_init_flag = 1;
    })
    else info

-- The end of `shmget`: the region is in use again, and the lock is released.
unfoldable pub use_region : ShmInfo → ℕ → Option ℕ × ShmInfo
use_region info shmid = (
  some shmid,
  si_unlock (set_region info shmid (record (info.si_region shmid) { sr_flags = srflag_inuse })),
)

-- The end of `shmget` after `shm_create`, and after `shm_extend`.
unfoldable pub created : Result × ShmInfo → Option ℕ × ShmInfo
created (error e, info) = (none, si_unlock info)
created (ok shmid, info) = (some shmid, si_unlock info)

unfoldable pub extended : ℕ → Result × ShmInfo → Option ℕ × ShmInfo
extended shmid (error e, info) = (none, si_unlock info)
extended shmid (ok _, info) = use_region info shmid

-- `shmget` for the region that `shm_find` finds, if any.
unfoldable pub get : ℕ → ShmInfo → ℕ → ℕ → ℕ → Option ℕ → Option ℕ × ShmInfo
get pid info key size shmflg none =
    if bit_and shmflg ipc_creat == 0
    then (none, si_unlock info)
    else created (shm_create pid info key size shmflg)
get pid info key size shmflg (some shmid) =
    if ltb (info.si_region shmid).sr_ds.shm_segsz size
    then (if bit_and shmflg ipc_creat == 0
        then (none, si_unlock info)
        else extended shmid (shm_extend info shmid size))
    else use_region info shmid

-- `shmget`
unfoldable pub shmget : Area → ℕ → ShmInfo → ℕ → ℕ → ℕ → Option ℕ × ShmInfo
shmget area pid info key size shmflg =
    let info' = set_up area (si_lock info) in
    if key == ipc_private then (none, info) else get pid info' key size shmflg (shm_find info' key)

-- Whether the region has the flag `SRFLAG_INUSE`.
abbrev pub is_inuse : Region → Bool
is_inuse region = bit_and region.sr_flags srflag_inuse == srflag_inuse

-- `shmat`; the result 0 is NULL. A negative `shmid` is refused as one beyond the table.
unfoldable pub shmat : ℕ → ShmInfo → ℕ → ℕ × ShmInfo
shmat pid info shmid =
    if leb max_regions shmid
    then (0, info)
    else if is_inuse region
    then (if region.sr_data == 0
        then (0, set_region info shmid (record region { sr_lock = false }))
        else (region.sr_data, set_region info shmid attached))
    else (0, info)
  where
    region : Region
    region = info.si_region shmid

    attached : Region
    attached = record region {
      sr_ds = record (region.sr_ds) {
        shm_nattch = (region.sr_ds.shm_nattch + 1) % 2 ^ 16;
        shm_lpid = pid;
      };
      sr_lock = false;
    }

-- The loop of `shmdt`, with `n` regions left from region `i` on.
unfoldable pub region_at : (ℕ → Region) → ℕ → ℕ → ℕ → Option ℕ
region_at regions shmaddr zero i = none
region_at regions shmaddr (suc n) i =
    if shmaddr == (regions i).sr_data then some i else region_at regions shmaddr n (i + 1)

-- `shmdt` from the region on; whether it succeeds.
unfoldable pub detach : ℕ → ShmInfo → ℕ → Bool × ShmInfo
detach pid info shmid =
    if is_inuse region
    then (if region.sr_ds.shm_nattch == 0
        then (false, set_region info shmid (record region { sr_lock = false }))
        else if leb region.sr_ds.shm_nattch 1
        then (if bit_and region.sr_flags srflag_unlinked == 0
            then (true, set_region info shmid (left 0))
            else (true, shm_destroy (set_region info shmid last) shmid))
        else (true, set_region info shmid (left (region.sr_ds.shm_nattch - 1))))
    else (false, info)
  where
    region : Region
    region = info.si_region shmid

    last : Region
    last = record region { sr_ds = record (region.sr_ds) { shm_nattch = 0 }; sr_lock = true }

    left : ℕ → Region
    left n = record region {
      sr_ds = record (region.sr_ds) { shm_nattch = n; shm_lpid = pid };
      sr_lock = false;
    }

-- The end of `shmdt`, for the region found.
unfoldable pub detach_found : ℕ → ShmInfo → Option ℕ → Bool × ShmInfo
detach_found pid info none = (false, info)
detach_found pid info (some shmid) = detach pid info shmid

-- `shmdt`
unfoldable pub shmdt : ℕ → ShmInfo → ℕ → Bool × ShmInfo
shmdt pid info shmaddr = detach_found pid info (region_at info.si_region shmaddr max_regions 0)

-- The commands of `shmctl`; a `buf` is none for NULL. `IPC_SET` is given the mode that its `buf`
-- holds.
pub data Command : Type 0 where
  ipc_rmid : Command
  ipc_set : ℕ → Command
  ipc_stat : Bool → Command
  unrecognized : Command

-- The ends of `shmctl`: without effect, and with what `sr_ds` and the flags become.
unfoldable pub refuse : ShmInfo → ℕ → Bool × Option ShmidDs × ShmInfo
refuse info shmid =
    (false, none, set_region info shmid (record (info.si_region shmid) { sr_lock = false }))

unfoldable pub succeed :
    ℕ → ShmInfo → ℕ → Option ShmidDs → ShmidDs → ℕ → Bool × Option ShmidDs × ShmInfo
succeed pid info shmid out ds flags = (
  true,
  out,
  set_region info shmid (record (info.si_region shmid) {
    sr_ds = record ds { shm_lpid = pid };
    sr_flags = flags;
    sr_lock = false;
  }),
)

-- The switch of `shmctl`.
unfoldable pub handle : ℕ → ShmInfo → ℕ → Command → Bool × Option ShmidDs × ShmInfo
handle pid info shmid (ipc_stat false) = refuse info shmid
handle pid info shmid (ipc_stat true) =
    let region = info.si_region shmid in
    succeed pid info shmid (some region.sr_ds) region.sr_ds region.sr_flags
handle pid info shmid (ipc_set mode) =
    let region = info.si_region shmid in
    succeed pid info shmid none (record (region.sr_ds) { mode = mode }) region.sr_flags
handle pid info shmid ipc_rmid =
    let region = info.si_region shmid in
    if ltb 0 region.sr_ds.shm_nattch
    then succeed pid info shmid none region.sr_ds (bit_or region.sr_flags srflag_unlinked)
    else (true, none, shm_destroy (set_region info shmid (record region { sr_lock = true })) shmid)
handle pid info shmid unrecognized = refuse info shmid

-- `shmctl`: whether it succeeds, and what `IPC_STAT` writes to its `buf`.
unfoldable pub shmctl : ℕ → ShmInfo → ℕ → Command → Bool × Option ShmidDs × ShmInfo
shmctl pid info shmid cmd =
    if leb max_regions shmid
    then (false, none, info)
    else if is_inuse (info.si_region shmid)
    then handle pid info shmid cmd
    else (false, none, info)
