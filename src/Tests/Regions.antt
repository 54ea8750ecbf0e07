-- ===== src/Tests/Regions.antt =====
-- The calls of kernel/shm on a table with one region in use.
use azalea.Prelude.{
  ◌<◌, ◌≤◌, ◌⊎◌, ◌%◌, ◌≡◌, refl, inl, inr, true, false, Bool-cases, ◌==◌, if◌then◌else◌, update,
  arith,
}
use azalea.Shm.{Region, ShmInfo, zero_region}
use azalea.Shm.Table.{set_region, shm_extend}
use azalea.Shm.{shm_get_buddy_block_size, buddy_size_from, max_regions}
use azalea.Buddy.{page_shl}
use azalea.Shm.Calls.{is_inuse, Area, shmget, shmat, shmdt, shmctl, ipc_rmid}
use azalea.Shm.Invariant.{IsTable, IsAttached, shmat-IsAttached, shmdt-IsTable, shmctl-IsTable}
use azalea.Shm.Get.{IsGot, shmget-IsGot}
use azalea.Shm.Lifetime.{IsLinked, detached, unlinked, shmdt-shmat, shmdt-shmctl}
use azalea.Tests.Pools.{pool}

abbrev used : Region
used = record {
  sr_ds = record { mode = 0x1b6; shm_segsz = 4096; shm_lpid = 5; shm_cpid = 5; shm_nattch = 1 };
  sr_flags = 1;
  sr_key = 42;
  sr_lock = false;
  sr_data = 0x100000;
}

abbrev info : ShmInfo
info = record {
  si_lock = false;
  shm_init_flag = 1;
  shm_free_mem_mgt = pool;
  si_region = λ i. if i == 3 then used else zero_region;
  ram = λ a. a % 256;
}

table : IsTable info.si_region
table = record {
  region = λ i h. elim (Bool-cases (i == 3)) [
    | inl e ↦ rw e (
        inr (record {
          flags = inl refl;
          key = λ z. omega (arith, z);
          address = λ z. omega (arith, z);
          unlocked = refl;
        }))
    | inr e ↦ rw e (inl refl)
  ];
  keys = λ i j hi hj. ground arith;
}

linked : IsLinked info 3
linked = record {
  inside = omega arith;
  flags = refl;
  address = λ z. omega (arith, z);
  first = λ j h. ground arith;
}

shmat-IsAttached_example :
    ((3 < max_regions)
      × (is_inuse (info.si_region 3) ≡ true)
      × IsAttached 7 info 3 (shmat 7 info 3))
    ⊎ (((max_regions ≤ 3) ⊎ (is_inuse (info.si_region 3) ≡ false)) × ((shmat 7 info 3).1 ≡ info))
shmat-IsAttached_example = shmat-IsAttached 7 info 3 table

shmdt-IsTable_example : IsTable (shmdt 7 info 0x100000).1.si_region
shmdt-IsTable_example = shmdt-IsTable 7 info 0x100000 table

shmctl-IsTable_example : IsTable (shmctl 7 info 3 ipc_rmid).2.si_region
shmctl-IsTable_example = shmctl-IsTable 7 info 3 ipc_rmid table

abbrev area : Area
area = record { info_size = 0x15000; shared_memory = 0x10000; shared_memory_size = 0x1000000 }

shmget-IsGot_example : IsGot 42 (shmget area 7 info 42 8000 1024)
shmget-IsGot_example = shmget-IsGot area 7 info 42 8000 1024 (λ _. table) (λ z. omega (arith, z))

shmdt-shmat_example :
    shmdt 8 (shmat 7 info 3).1 (shmat 7 info 3).0 ≡ (true, set_region info 3 (detached used 8))
shmdt-shmat_example = shmdt-shmat 7 8 info 3 linked (omega arith)

shmdt-shmctl_example :
    ((shmctl 7 info 3 ipc_rmid).2.si_region ≡ update info.si_region 3 (unlinked used 7))
    × ((shmdt 8 (shmctl 7 info 3 ipc_rmid).2 0x100000).1.si_region
        ≡ update info.si_region 3 zero_region)
shmdt-shmctl_example = shmdt-shmctl 7 8 info 3 linked refl

-- A region that has the size of its block is taken for one of twice the block.
grown : ((shm_extend info 3 8192).1.si_region 3).sr_ds.shm_segsz ≡ 8192
unfolding shm_extend shm_get_buddy_block_size buddy_size_from page_shl
grown = refl
