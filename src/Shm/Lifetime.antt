-- ===== src/Shm/Lifetime.antt =====
-- The life of a region of kernel/shm: attaching, detaching and removal.
use azalea.Prelude.{
  ℕ, zero, suc, ◌+◌, ◌-◌, ◌%◌, ◌^◌, ◌≤◌, ◌<◌, ◌≡◌, ◌≢◌, refl, sym, ◌∙◌, ap, inl, inr, Bool, true,
  false, Bool-cases, none, some, ltb, leb, ◌==◌, ==_iff, ==_refl, ne→==, update, bit_and, bit_or,
  arith,
}
use azalea.Shm.{Region, ShmInfo, max_regions, zero_region}
use azalea.Shm.Table.{set_region}
use azalea.Shm.Calls.{
  shmat, region_at, detach, detach_found, shmdt, ipc_rmid, shmctl, handle, succeed,
}
use azalea.Shm.Invariant.{update-twice, shm_destroy-regions}

-- The region that an address leads `shmdt` to.
region_at-eq :
    (regions : ℕ → Region) (shmaddr shmid n i : ℕ)
    → i ≤ shmid
    → shmid < i + n
    → shmaddr ≡ (regions shmid).sr_data
    → ((j : ℕ) → j < shmid → (regions j).sr_data ≢ shmaddr)
    → region_at regions shmaddr n i ≡ some shmid
unfolding region_at
region_at-eq regions shmaddr shmid zero i lo hi e first = absurd (omega arith)
region_at-eq regions shmaddr shmid (suc n) i lo hi e first = elim (Bool-cases (i == shmid)) [
  | inl here ↦ let p : i ≡ shmid = (==_iff i shmid).0 here in rw (p, (==_iff shmaddr _).1 e) refl
  | inr later ↦
      rw (ne→== shmaddr (regions i).sr_data λ q. first i (ground arith) (sym q))
        (region_at-eq regions shmaddr shmid n (i + 1) (ground arith) (omega arith) e first)
]

-- A region in use, not about to be removed, whose address no region before it has.
pub record IsLinked (info : ShmInfo) (shmid : ℕ) : Type 0 where
  pub inside : shmid < max_regions
  pub flags : (info.si_region shmid).sr_flags ≡ 1
  pub address : (info.si_region shmid).sr_data ≢ 0
  pub first : (j : ℕ) → j < shmid → (info.si_region j).sr_data ≢ (info.si_region shmid).sr_data

-- The region after `shmat`, and after `shmdt`.
abbrev pub attached : Region → ℕ → Region
attached r pid = record r {
  sr_ds = record (r.sr_ds) { shm_nattch = (r.sr_ds.shm_nattch + 1) % 2 ^ 16; shm_lpid = pid };
  sr_lock = false;
}

abbrev pub detached : Region → ℕ → Region
detached r pid = record r { sr_ds = record (r.sr_ds) { shm_lpid = pid }; sr_lock = false }

shmat-eq :
    (pid : ℕ) (info : ShmInfo) (shmid : ℕ)
    → IsLinked info shmid
    → shmat pid info shmid ≡ (
      (info.si_region shmid).sr_data,
      set_region info shmid (attached (info.si_region shmid) pid),
    )
unfolding shmat
shmat-eq pid info shmid l = rw (inside, used, there) refl
  where
    inside : leb max_regions shmid ≡ false
    inside = ground (arith, l.inside)

    used : (bit_and (info.si_region shmid).sr_flags 1 == 1) ≡ true
    used = rw l.flags refl

    there : ((info.si_region shmid).sr_data == 0) ≡ false
    there = ne→== _ 0 l.address

-- The lookup of `shmdt` after a region was written that keeps its address.
written-region_at :
    (info : ShmInfo) (shmid : ℕ) (r : Region)
    → IsLinked info shmid
    → r.sr_data ≡ (info.si_region shmid).sr_data
    → region_at (update info.si_region shmid r) (info.si_region shmid).sr_data max_regions 0
      ≡ some shmid
written-region_at info shmid r l e =
    region_at-eq (update info.si_region shmid r) _ shmid max_regions 0 (omega arith)
      (omega (arith, l.inside)) (rw (==_refl shmid) (sym e))
      λ j h. rw (ne→== j shmid (λ q. omega (arith, q, h))) (l.first j h)

-- The region that `shmdt` leaves with `n` attaches.
abbrev left : Region → ℕ → ℕ → Region
left r pid n = record r {
  sr_ds = record (r.sr_ds) { shm_nattch = n; shm_lpid = pid };
  sr_lock = false;
}

detach-attached :
    (pid pid' : ℕ) (info : ShmInfo) (shmid : ℕ)
    → IsLinked info shmid
    → (info.si_region shmid).sr_ds.shm_nattch + 1 < 2 ^ 16
    → detach pid' (set_region info shmid (attached (info.si_region shmid) pid)) shmid
      ≡ (true, set_region info shmid (detached (info.si_region shmid) pid'))
unfolding detach
detach-attached pid pid' info shmid l h =
    rw (==_refl shmid, used, wrap, some_left)
      (elim (Bool-cases (leb (n + 1) 1)) [
        | inl one ↦ rw (one, linked) (back 0 (ground arith))
        | inr many ↦ rw many (back (n + 1 - 1) (omega arith))
      ])
  where
    n : ℕ
    n = (info.si_region shmid).sr_ds.shm_nattch

    wrap : (n + 1) % 2 ^ 16 ≡ n + 1
    wrap = omega arith

    some_left : (n + 1 == 0) ≡ false
    some_left = ground arith

    used : (bit_and (info.si_region shmid).sr_flags 1 == 1) ≡ true
    used = rw l.flags refl

    linked : (bit_and (info.si_region shmid).sr_flags 2 == 0) ≡ true
    linked = rw l.flags refl

    back :
        (k : ℕ)
        → k ≡ n
        → ◌≡◌ {A = Bool × ShmInfo}
            (
              true,
              set_region
                  (set_region info shmid (record (info.si_region shmid) {
                    sr_ds = record ((info.si_region shmid).sr_ds) {
                      shm_nattch = n + 1;
                      shm_lpid = pid;
                    };
                    sr_lock = false;
                  }))
                  shmid
                  (left (info.si_region shmid) pid' k),
            )
            (true, set_region info shmid (detached (info.si_region shmid) pid'))
    back k e =
        ap (λ g. (true, record info { si_region = g }))
          (update-twice info.si_region shmid _ (left (info.si_region shmid) pid' k)
            ∙ ap (λ x. update info.si_region shmid (left (info.si_region shmid) pid' x)) e)

-- Detaching undoes attaching, but for the process id: the address that `shmat` returns leads
-- `shmdt` back to the region, and the count of attaches is what it was.
pub shmdt-shmat :
    (pid pid' : ℕ) (info : ShmInfo) (shmid : ℕ)
    → IsLinked info shmid
    → (info.si_region shmid).sr_ds.shm_nattch + 1 < 2 ^ 16
    → shmdt pid' (shmat pid info shmid).1 (shmat pid info shmid).0
      ≡ (true, set_region info shmid (detached (info.si_region shmid) pid'))
unfolding shmdt
shmdt-shmat pid pid' info shmid l h =
    rw
      (
        shmat-eq pid info shmid l,
        written-region_at info shmid (attached (info.si_region shmid) pid) l refl,
      )
      (unfold detach_found in detach-attached pid pid' info shmid l h)

-- What `IPC_RMID` makes of a region that has attaches.
abbrev pub unlinked : Region → ℕ → Region
unlinked r pid = record r {
  sr_ds = record (r.sr_ds) { shm_lpid = pid };
  sr_flags = 3;
  sr_lock = false;
}

-- A region that is removed while one process is attached keeps its memory until that process
-- detaches, and is then all zero, and no other region changes.
pub shmdt-shmctl :
    (pid pid' : ℕ) (info : ShmInfo) (shmid : ℕ)
    → IsLinked info shmid
    → (info.si_region shmid).sr_ds.shm_nattch ≡ 1
    → ((shmctl pid info shmid ipc_rmid).2.si_region
        ≡ update info.si_region shmid (unlinked (info.si_region shmid) pid))
      × ((shmdt pid' (shmctl pid info shmid ipc_rmid).2 (info.si_region shmid).sr_data).1.si_region
          ≡ update info.si_region shmid zero_region)
unfolding shmdt
shmdt-shmctl pid pid' info shmid l h =
    rw (removed, written-region_at info shmid (unlinked (info.si_region shmid) pid) l refl)
      (refl, unfold detach_found in last)
  where
    inside : leb max_regions shmid ≡ false
    inside = ground (arith, l.inside)

    used : (bit_and (info.si_region shmid).sr_flags 1 == 1) ≡ true
    used = rw l.flags refl

    flags : bit_or (info.si_region shmid).sr_flags 2 ≡ 3
    flags = rw l.flags refl

    busy : ltb 0 (info.si_region shmid).sr_ds.shm_nattch ≡ true
    busy = rw h refl

    removed :
        shmctl pid info shmid ipc_rmid
        ≡ (true, none, set_region info shmid (unlinked (info.si_region shmid) pid))
    removed = unfold shmctl handle succeed in rw (inside, used, busy, flags) refl

    one : leb (info.si_region shmid).sr_ds.shm_nattch 1 ≡ true
    one = rw h refl

    any : ((info.si_region shmid).sr_ds.shm_nattch == 0) ≡ false
    any = rw h refl

    last :
        (detach pid'
          (set_region info shmid (unlinked (info.si_region shmid) pid))
          shmid).1.si_region
        ≡ update info.si_region shmid zero_region
    last =
        unfold detach in
        rw (==_refl shmid, any, one)
          (shm_destroy-regions _ shmid
            ∙ update-twice (update info.si_region shmid (unlinked (info.si_region shmid) pid)) shmid
                _ zero_region
            ∙ update-twice info.si_region shmid _ zero_region)
