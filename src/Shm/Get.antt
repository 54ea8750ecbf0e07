-- ===== src/Shm/Get.antt =====
-- `shmget` keeps the region table in order, from its first call on, and finds what it made.
use azalea.Prelude.{
  ℕ, zero, suc, ◌+◌, ◌≤◌, ◌<◌, ◌≡◌, ◌≢◌, refl, sym, ◌∙◌, ap, inl, inr, false, Bool-cases, Option,
  none, some, ltb, leb, ◌==◌, ◌&&◌, ==_iff, ==_refl, ==-ne, if◌then◌else◌, update, bit_and, arith,
}
use azalea.Shm.{
  ShmidDs, Region, ShmInfo, max_regions, zero_region, shm_alloc, shm_get_buddy_block_size,
}
use azalea.Shm.Table.{
  set_region, clear_regions, shm_initialize, find_from, shm_find, reserved, available_from,
  reserve_at, create_from, shm_reserve, shm_extend, create_at, shm_create,
}
use azalea.Shm.Calls.{Area, set_up, use_region, created, extended, get, shmget, ipc_creat, si_lock}
use azalea.Shm.Invariant.{
  IsUsed, IsTable, write-IsTable, rewrite-IsTable, update-twice, shm_destroy-regions, clear-IsTable,
}

clear_regions_lem :
    (n : ℕ) (regions : ℕ → Region) (i j : ℕ)
    → clear_regions n regions i j ≡ (if leb i j && ltb j (i + n) then zero_region else regions j)
unfolding clear_regions
clear_regions_lem zero regions i j = ground arith
clear_regions_lem (suc n) regions i j =
    ground (arith, clear_regions_lem n (update regions i zero_region) (i + 1) j)

-- The first call sets the table up.
set_up-IsTable :
    (area : Area) (info : ShmInfo)
    → (info.shm_init_flag ≢ 0 → IsTable info.si_region)
    → IsTable (set_up area info).si_region
unfolding set_up shm_initialize
set_up-IsTable area info t = elim (Bool-cases (info.shm_init_flag == 0)) [
  | inr warm ↦ rw warm (t (==-ne _ _ warm))
  | inl cold ↦ rw cold (record {
    region = λ j h. inl (clear j h);
    keys = λ a b ha hb n e. absurd (n (ap Region.sr_key (clear a ha)));
  })
]
  where
    clear : (j : ℕ) → j < max_regions → clear_regions max_regions info.si_region 0 j ≡ zero_region
    clear j h = ground (arith, clear_regions_lem max_regions info.si_region 0 j)

-- `shm_find` fails when no region has the key, and returns one that has it else.
abbrev IsFoundIn : (ℕ → Region) → ℕ → ℕ → ℕ → Option ℕ → Type 0
IsFoundIn regions key i n none = (j : ℕ) → i ≤ j → j < i + n → (regions j).sr_key ≢ key
IsFoundIn regions key i n (some k) = (k < i + n) × ((regions k).sr_key ≡ key)

find_from-IsFoundIn :
    (regions : ℕ → Region) (key n i : ℕ) → IsFoundIn regions key i n (find_from regions key n i)
unfolding find_from
find_from-IsFoundIn regions key zero i = λ j lo hi. absurd (omega arith)
find_from-IsFoundIn regions key (suc n) i = elim (Bool-cases ((regions i).sr_key == key)) [
  | inl e ↦ rw e (omega arith, (==_iff _ key).0 e)
  | inr e ↦ rw e (
      widen (find_from regions key n (i + 1)) (find_from-IsFoundIn regions key n (i + 1))
        (==-ne _ _ e))
]
  where
    widen :
        (o : Option ℕ)
        → IsFoundIn regions key (i + 1) n o
        → (regions i).sr_key ≢ key
        → IsFoundIn regions key i (suc n) o
    widen none h ne = λ j lo hi. elim (Bool-cases (j == i)) [
      | inl e ↦ rw ((==_iff j i).0 e) ne
      | inr e ↦ h j (ground arith) (omega arith)
    ]
    widen (some k) h ne = (omega (arith, h.0), h.1)

available_from-lt :
    (regions : ℕ → Region) (n i k : ℕ) → available_from regions n i ≡ some k → k < i + n
unfolding available_from
available_from-lt regions zero i k e = absurd (ground (arith, e))
available_from-lt regions (suc n) i k e = ground (arith, available_from-lt regions n (i + 1) k)

-- What a call of `shmget` comes to: the table is in order, and the region returned is in use,
-- not unlinked, and has the key.
pub record IsGot (key : ℕ) (r : Option ℕ × ShmInfo) : Type 0 where
  pub table : IsTable r.1.si_region
  pub region :
      (k : ℕ)
      → r.0 ≡ some k
      → (k < max_regions) × ((r.1.si_region k).sr_key ≡ key) × ((r.1.si_region k).sr_flags ≡ 1)

refused : (key : ℕ) (info : ShmInfo) → IsTable info.si_region → IsGot key (none, info)
refused key info t = record { table = t; region = λ k e. absurd (ground (arith, e)) }

returned :
    (key : ℕ) (info : ShmInfo) (shmid : ℕ)
    → IsTable info.si_region
    → shmid < max_regions
    → (info.si_region shmid).sr_key ≡ key
    → (info.si_region shmid).sr_flags ≡ 1
    → IsGot key (some shmid, info)
returned key info shmid t h e f = record {
  table = t;
  region = λ k q. let p : k ≡ shmid = ground (arith, q) in rw p (h, e, f);
}

keyed-IsUsed :
    (key : ℕ) (info : ShmInfo) (shmid : ℕ)
    → IsTable info.si_region
    → shmid < max_regions
    → key ≢ 0
    → (info.si_region shmid).sr_key ≡ key
    → IsUsed (info.si_region shmid)
keyed-IsUsed key info shmid t h n e = elim (t.region shmid h) [
  | inr u ↦ u
  | inl z ↦ absurd (n (sym e ∙ ap Region.sr_key z))
]

use_region-IsGot :
    (key : ℕ) (info : ShmInfo) (shmid : ℕ)
    → IsTable info.si_region
    → shmid < max_regions
    → key ≢ 0
    → (info.si_region shmid).sr_key ≡ key
    → IsGot key (use_region info shmid)
unfolding use_region
use_region-IsGot key info shmid t h n e =
    returned key _ shmid
      (rewrite-IsTable info.si_region shmid _ h t
        (record {
          flags = inl refl;
          key = λ z. n (sym e ∙ z);
          address = w.address;
          unlocked = w.unlocked;
        })
        refl)
      h (rw (==_refl shmid) e) (rw (==_refl shmid) refl)
  where
    w : IsUsed (info.si_region shmid)
    w = keyed-IsUsed key info shmid t h n e

over-IsTable :
    (regions base : ℕ → Region) (i : ℕ) (was r : Region)
    → regions ≡ update base i was
    → IsTable (update base i r)
    → IsTable (update regions i r)
over-IsTable regions base i was r p t = rw (p, update-twice base i was r) t

-- `shm_create` for a key that no region has.
module _ (pid : ℕ) (info : ShmInfo) (key size shmflg : ℕ) (t : IsTable info.si_region) (n : key ≢ 0)
    (new : (j : ℕ) → 0 ≤ j → j < 0 + max_regions → (info.si_region j).sr_key ≢ key) where
  create_at-IsGot :
      (i : ℕ) (made : ℕ × ShmInfo)
      → i < max_regions
      → made.1.si_region ≡ update info.si_region i (reserved (info.si_region i) key shmflg)
      → IsGot key (created (create_at pid i size made))
  unfolding create_at created
  create_at-IsGot i (address, mid) h p = elim (Bool-cases (address == 0)) [
    | inl null ↦
        rw (null, created)
          (refused key _ (
            rw
              (shm_destroy-regions
                (set_region mid i (record (mid.si_region i) { sr_data = address })) i)
              (over-IsTable _ mid.si_region i _ zero_region refl (
                over-IsTable _ info.si_region i _ zero_region p
                  (clear-IsTable info.si_region i t)))))
    | inr there ↦
        rw (there, created)
          (returned key _ i
            (over-IsTable _ info.si_region i _ _ p
              (write-IsTable info.si_region i _ t (inr (used _ there)) other))
            h (rw (==_refl i) at.0) (rw (==_refl i) at.1))
  ]
    where
      at :
          ((mid.si_region i).sr_key ≡ key)
          × ((mid.si_region i).sr_flags ≡ 1)
          × ((mid.si_region i).sr_lock ≡ false)
      at = rw (p, ==_refl i) (unfold reserved in (refl, refl, refl))

      used :
          (ds : ShmidDs)
          → (address == 0) ≡ false
          → IsUsed (record (mid.si_region i) { sr_ds = ds; sr_data = address })
      used ds e = record {
        flags = inl at.1;
        key = λ z. n (sym at.0 ∙ z);
        address = ==-ne _ _ e;
        unlocked = at.2;
      }

      other :
          (j : ℕ)
          → j < max_regions
          → (mid.si_region i).sr_key ≢ 0
          → (mid.si_region i).sr_key ≡ (info.si_region j).sr_key
          → i ≡ j
      other j hj _ e = absurd (new j (omega arith) (omega (arith, hj)) (sym e ∙ at.0))

  create_from-IsGot :
      (o : Option ℕ)
      → ((k : ℕ) → o ≡ some k → k < max_regions)
      → IsGot key (created (create_from pid size (reserve_at info key shmflg o)))
  unfolding create_from reserve_at created shm_alloc
  create_from-IsGot none h = refused key _ t
  create_from-IsGot (some i) h = create_at-IsGot i _ (h i refl) refl

extend-IsGot :
    (info : ShmInfo) (key shmid size : ℕ)
    → IsTable info.si_region
    → shmid < max_regions
    → key ≢ 0
    → (info.si_region shmid).sr_key ≡ key
    → IsGot key (extended shmid (shm_extend info shmid size))
unfolding shm_extend extended
extend-IsGot info key shmid size t h n e =
    elim (Bool-cases (ltb (info.si_region shmid).sr_ds.shm_segsz size)) [
      | inr enough ↦ rw (enough, extended) (use_region-IsGot key info shmid t h n e)
      | inl more ↦
          rw more
            (elim (Bool-cases
              (ltb (shm_get_buddy_block_size (info.si_region shmid).sr_ds.shm_segsz) size)) [
                | inl full ↦ rw (full, extended) (refused key (record info { si_lock = false }) t)
                | inr fits ↦
                    rw (fits, extended)
                      (use_region-IsGot key _ shmid
                        (rewrite-IsTable info.si_region shmid _ h t
                          (record {
                            flags = w.flags;
                            key = w.key;
                            address = w.address;
                            unlocked = w.unlocked;
                          })
                          refl)
                        h n (rw (==_refl shmid) e))
              ])
    ]
  where
    w : IsUsed (info.si_region shmid)
    w = keyed-IsUsed key info shmid t h n e

get-IsGot :
    (pid : ℕ) (info : ShmInfo) (key size shmflg : ℕ) (o : Option ℕ)
    → IsTable info.si_region
    → key ≢ 0
    → IsFoundIn info.si_region key 0 max_regions o
    → IsGot key (get pid info key size shmflg o)
unfolding get shm_create shm_reserve
get-IsGot pid info key size shmflg none t n new =
    elim (Bool-cases (bit_and shmflg ipc_creat == 0)) [
      | inl plain ↦ rw plain (refused key _ t)
      | inr create ↦ rw create (
          create_from-IsGot pid info key size shmflg t n new _
            λ k e. omega (arith, available_from-lt info.si_region max_regions 0 k e))
    ]
get-IsGot pid info key size shmflg (some shmid) t n (h, e) =
    elim (Bool-cases (ltb (info.si_region shmid).sr_ds.shm_segsz size)) [
      | inr enough ↦ rw enough (use_region-IsGot key info shmid t (omega (arith, h)) n e)
      | inl more ↦ rw more (elim (Bool-cases (bit_and shmflg ipc_creat == 0)) [
        | inl plain ↦ rw plain (refused key _ t)
        | inr create ↦ rw create (extend-IsGot info key shmid size t (omega (arith, h)) n e)
      ])
    ]

-- `shmget` for a key other than IPC_PRIVATE keeps the table in order, or puts it in order when it
-- is the first call; a region that it returns has the key and is in use, also when the region was
-- about to be removed.
pub shmget-IsGot :
    (area : Area) (pid : ℕ) (info : ShmInfo) (key size shmflg : ℕ)
    → (info.shm_init_flag ≢ 0 → IsTable info.si_region)
    → key ≢ 0
    → IsGot key (shmget area pid info key size shmflg)
unfolding shmget shm_find
shmget-IsGot area pid info key size shmflg t n = elim (Bool-cases (key == 0)) [
  | inl z ↦ absurd (n ((==_iff key 0).0 z))
  | inr there ↦ rw there (
      get-IsGot pid (set_up area (si_lock info)) key size shmflg _
        (set_up-IsTable area (si_lock info) t) n (find_from-IsFoundIn _ key max_regions 0))
]
