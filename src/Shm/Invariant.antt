-- ===== src/Shm/Invariant.antt =====
-- The region table of kernel/shm stays in order, whatever the calls.
use azalea.Prelude.{
  ℕ, zero, suc, ◌+◌, ◌%◌, ◌^◌, ◌≤◌, ◌<◌, ◌≡◌, ◌≢◌, ◌⊎◌, refl, sym, ◌∙◌, inl, inr, true, false,
  Bool-cases, Option, none, some, ltb, leb, ◌==◌, ==_iff, ==_refl, ne→==, update, bit_and, bit_or,
  arith,
}
use azalea.Shm.{ShmidDs, Region, ShmInfo, max_regions, srflag_unlinked, zero_region, shm_free}
use azalea.Shm.Table.{set_region, shm_destroy}
use azalea.Shm.Calls.{
  is_inuse, shmat, region_at, detach, detach_found, shmdt, Command, ipc_rmid, ipc_set, ipc_stat,
  unrecognized, refuse, succeed, handle, shmctl,
}

-- A region that is in use, unlinked or not, has a key and memory.
pub record IsUsed (r : Region) : Type 0 where
  pub flags : (r.sr_flags ≡ 1) ⊎ (r.sr_flags ≡ 3)
  pub key : r.sr_key ≢ 0
  pub address : r.sr_data ≢ 0
  pub unlocked : r.sr_lock ≡ false

-- Each region is all zero or in use, and no two in use have the same key.
pub record IsTable (regions : ℕ → Region) : Type 0 where
  pub region : (i : ℕ) → i < max_regions → (regions i ≡ zero_region) ⊎ IsUsed (regions i)
  pub keys :
      (i j : ℕ)
      → i < max_regions
      → j < max_regions
      → (regions i).sr_key ≢ 0
      → (regions i).sr_key ≡ (regions j).sr_key
      → i ≡ j

-- Writing a region that is zero, or in use under a key that no other region has.
pub write-IsTable :
    (regions : ℕ → Region) (i : ℕ) (r : Region)
    → IsTable regions
    → (r ≡ zero_region) ⊎ IsUsed r
    → ((j : ℕ) → j < max_regions → r.sr_key ≢ 0 → r.sr_key ≡ (regions j).sr_key → i ≡ j)
    → IsTable (update regions i r)
write-IsTable regions i r t u k = record {
  region = λ j h. elim (Bool-cases (j == i)) [ inl e ↦ rw e u | inr e ↦ rw e (t.region j h) ];
  keys = λ a b ha hb. elim (Bool-cases (a == i)) [
    | inl ea ↦ elim (Bool-cases (b == i)) [
      | inl eb ↦ rw (ea, eb) λ _ _. (==_iff a i).0 ea ∙ sym ((==_iff b i).0 eb)
      | inr eb ↦ rw (ea, eb) λ n e. (==_iff a i).0 ea ∙ k b hb n e
    ]
    | inr ea ↦ elim (Bool-cases (b == i)) [
      | inl eb ↦ rw (ea, eb) λ n e. sym (k a ha (λ z. n (e ∙ z)) (sym e)) ∙ sym ((==_iff b i).0 eb)
      | inr eb ↦ rw (ea, eb) (t.keys a b ha hb)
    ]
  ];
}

-- Writing a region in use that keeps its key.
pub rewrite-IsTable :
    (regions : ℕ → Region) (i : ℕ) (r : Region)
    → i < max_regions
    → IsTable regions
    → IsUsed r
    → r.sr_key ≡ (regions i).sr_key
    → IsTable (update regions i r)
rewrite-IsTable regions i r h t u e =
    write-IsTable regions i r t (inr u) λ j hj n e'. t.keys i j h hj (λ z. n (e ∙ z)) (sym e ∙ e')

pub clear-IsTable :
    (regions : ℕ → Region) (i : ℕ) → IsTable regions → IsTable (update regions i zero_region)
clear-IsTable regions i t =
    write-IsTable regions i zero_region t (inl refl) λ j hj n e. absurd (n refl)

-- Writing a region in use anew, with its key, memory and flags as they were.
pub kept :
    (info : ShmInfo) (i : ℕ) (ds : ShmidDs)
    → i < max_regions
    → IsTable info.si_region
    → IsUsed (info.si_region i)
    → IsTable (update info.si_region i (record (info.si_region i) { sr_ds = ds; sr_lock = false }))
kept info i ds h t w =
    rewrite-IsTable info.si_region i _ h t
      (record { flags = w.flags; key = w.key; address = w.address; unlocked = refl }) refl

-- A region that the calls take for one in use is one.
inuse-IsUsed :
    (regions : ℕ → Region) (i : ℕ)
    → i < max_regions
    → IsTable regions
    → is_inuse (regions i) ≡ true
    → IsUsed (regions i)
inuse-IsUsed regions i h t u = elim (t.region i h) [
  | inr w ↦ w
  | inl z ↦ absurd (ground (arith, rw z at u))
]

pub shm_destroy-regions :
    (info : ShmInfo) (i : ℕ) → (shm_destroy info i).si_region ≡ update info.si_region i zero_region
unfolding shm_destroy shm_free
shm_destroy-regions info i = elim (Bool-cases ((info.si_region i).sr_data == 0)) [
  | inl e ↦ rw e refl
  | inr e ↦ rw e refl
]

pub update-twice :
    (regions : ℕ → Region) (i : ℕ) (r r' : Region)
    → update (update regions i r) i r' ≡ update regions i r'
update-twice regions i r r' = λ k j. at j k
  where
    at : (j : ℕ) → update (update regions i r) i r' j ≡ update regions i r' j
    at j = elim (Bool-cases (j == i)) [ inl e ↦ rw e refl | inr e ↦ rw e refl ]

-- What the calls write to the region that they destroy does not matter.
destroy-IsTable :
    (info : ShmInfo) (i : ℕ) (r : Region)
    → IsTable info.si_region
    → IsTable (shm_destroy (set_region info i r) i).si_region
destroy-IsTable info i r t =
    rw (shm_destroy-regions (set_region info i r) i, update-twice info.si_region i r zero_region)
      (clear-IsTable info.si_region i t)

-- What attaching a region does: it counts, it notes the process, and nothing else changes.
pub record IsAttached (pid : ℕ) (info : ShmInfo) (shmid : ℕ) (r : ℕ × ShmInfo) : Type 0 where
  pub address : r.0 ≡ (info.si_region shmid).sr_data
  pub not_null : r.0 ≢ 0
  pub region : r.1.si_region shmid ≡ record (info.si_region shmid) {
    sr_ds = record ((info.si_region shmid).sr_ds) {
      shm_nattch = ((info.si_region shmid).sr_ds.shm_nattch + 1) % 2 ^ 16;
      shm_lpid = pid;
    };
  }
  pub other : (i : ℕ) → i ≢ shmid → r.1.si_region i ≡ info.si_region i
  pub table : IsTable r.1.si_region

attach-IsAttached :
    (pid : ℕ) (info : ShmInfo) (shmid : ℕ)
    → IsTable info.si_region
    → leb max_regions shmid ≡ false
    → is_inuse (info.si_region shmid) ≡ true
    → IsAttached pid info shmid (shmat pid info shmid)
unfolding shmat
attach-IsAttached pid info shmid t inside e =
    let h : shmid < max_regions = ground arith in
    let w = inuse-IsUsed info.si_region shmid h t e in
    let there : (info.si_region shmid).sr_data == 0 ≡ false =
      ne→== (info.si_region shmid).sr_data 0 w.address in
    let here = ==_refl shmid in
    let free = w.unlocked in
    rw (inside, e, there)
      (record {
        address = refl;
        not_null = w.address;
        region = rw here (λ i. record (info.si_region shmid) {
          sr_ds = record ((info.si_region shmid).sr_ds) {
            shm_nattch = ((info.si_region shmid).sr_ds.shm_nattch + 1) % 2 ^ 16;
            shm_lpid = pid;
          };
          sr_lock = sym free i;
        });
        other = λ i n. rw (ne→== i shmid n) refl;
        table =
            rewrite-IsTable info.si_region shmid _ h t
              (record { flags = w.flags; key = w.key; address = w.address; unlocked = refl }) refl;
      })

-- In a table that is in order, when the identifier is that of a region in use, `shmat` returns the
-- region's address, which is not NULL, counts one process more modulo 2^16, notes the process,
-- changes nothing else of the region and nothing of the other ones, and keeps the table in order.
-- When the identifier is out of range or that of a region that is not in use, it changes nothing.
pub shmat-IsAttached :
    (pid : ℕ) (info : ShmInfo) (shmid : ℕ)
    → IsTable info.si_region
    → ((shmid < max_regions)
        × (is_inuse (info.si_region shmid) ≡ true)
        × IsAttached pid info shmid (shmat pid info shmid))
      ⊎ (((max_regions ≤ shmid) ⊎ (is_inuse (info.si_region shmid) ≡ false))
          × ((shmat pid info shmid).1 ≡ info))
unfolding shmat
shmat-IsAttached pid info shmid t = elim (Bool-cases (leb max_regions shmid)) [
  | inl out ↦ inr (inl (ground arith), rw out refl)
  | inr inside ↦ elim (Bool-cases (is_inuse (info.si_region shmid))) [
    | inl e ↦ inl (ground arith, e, attach-IsAttached pid info shmid t inside e)
    | inr e ↦ inr (inr e, rw (inside, e) refl)
  ]
]

detach-IsTable :
    (pid : ℕ) (info : ShmInfo) (shmid : ℕ)
    → shmid < max_regions
    → IsTable info.si_region
    → IsTable (detach pid info shmid).1.si_region
unfolding detach
detach-IsTable pid info shmid h t = elim (Bool-cases (is_inuse (info.si_region shmid))) [
  | inr free ↦ rw free t
  | inl used ↦
      let w = inuse-IsUsed info.si_region shmid h t used in
      rw used (elim (Bool-cases ((info.si_region shmid).sr_ds.shm_nattch == 0)) [
        | inl none_left ↦ rw none_left (kept info shmid _ h t w)
        | inr more ↦ rw more (elim (Bool-cases (leb (info.si_region shmid).sr_ds.shm_nattch 1)) [
          | inr many ↦ rw many (kept info shmid _ h t w)
          | inl one ↦
              rw one
                (elim (Bool-cases (bit_and (info.si_region shmid).sr_flags srflag_unlinked == 0)) [
                  | inl linked ↦ rw linked (kept info shmid _ h t w)
                  | inr unlinked ↦ rw unlinked (destroy-IsTable info shmid _ t)
                ])
        ])
      ])
]

region_at-lt :
    (regions : ℕ → Region) (shmaddr n i : ℕ) (k : ℕ)
    → region_at regions shmaddr n i ≡ some k
    → k < i + n
unfolding region_at
region_at-lt regions shmaddr zero i k e = absurd (ground (arith, e))
region_at-lt regions shmaddr (suc n) i k e =
    ground (arith, region_at-lt regions shmaddr n (i + 1) k)

detach_found-IsTable :
    (pid : ℕ) (info : ShmInfo) (o : Option ℕ)
    → ((k : ℕ) → o ≡ some k → k < max_regions)
    → IsTable info.si_region
    → IsTable (detach_found pid info o).1.si_region
unfolding detach_found
detach_found-IsTable pid info none h t = t
detach_found-IsTable pid info (some k) h t = detach-IsTable pid info k (h k refl) t

pub shmdt-IsTable :
    (pid : ℕ) (info : ShmInfo) (shmaddr : ℕ)
    → IsTable info.si_region
    → IsTable (shmdt pid info shmaddr).1.si_region
unfolding shmdt
shmdt-IsTable pid info shmaddr t =
    detach_found-IsTable pid info _
      (λ k e. omega (arith, region_at-lt info.si_region shmaddr max_regions 0 k e)) t

unlinked-flags : (f : ℕ) → (f ≡ 1) ⊎ (f ≡ 3) → bit_or f srflag_unlinked ≡ 3
unlinked-flags f (inl e) = rw e refl
unlinked-flags f (inr e) = rw e refl

handle-IsTable :
    (pid : ℕ) (info : ShmInfo) (shmid : ℕ) (cmd : Command)
    → shmid < max_regions
    → IsTable info.si_region
    → IsUsed (info.si_region shmid)
    → IsTable (handle pid info shmid cmd).2.si_region
unfolding handle refuse succeed
handle-IsTable pid info shmid (ipc_stat false) h t w = kept info shmid _ h t w
handle-IsTable pid info shmid (ipc_stat true) h t w = kept info shmid _ h t w
handle-IsTable pid info shmid (ipc_set mode) h t w = kept info shmid _ h t w
handle-IsTable pid info shmid unrecognized h t w = kept info shmid _ h t w
handle-IsTable pid info shmid ipc_rmid h t w =
    elim (Bool-cases (ltb 0 (info.si_region shmid).sr_ds.shm_nattch)) [
      | inl attached ↦ rw attached (
          rewrite-IsTable info.si_region shmid _ h t
            (record {
              flags = inr (unlinked-flags _ w.flags);
              key = w.key;
              address = w.address;
              unlocked = refl;
            })
            refl)
      | inr idle ↦ rw idle (destroy-IsTable info shmid _ t)
    ]

pub shmctl-IsTable :
    (pid : ℕ) (info : ShmInfo) (shmid : ℕ) (cmd : Command)
    → IsTable info.si_region
    → IsTable (shmctl pid info shmid cmd).2.si_region
unfolding shmctl
shmctl-IsTable pid info shmid cmd t = elim (Bool-cases (leb max_regions shmid)) [
  | inl out ↦ rw out t
  | inr inside ↦ rw inside (elim (Bool-cases (is_inuse (info.si_region shmid))) [
    | inr free ↦ rw free t
    | inl used ↦ rw used (
        handle-IsTable pid info shmid cmd (ground arith) t
          (inuse-IsUsed info.si_region shmid (ground arith) t used))
  ])
]
