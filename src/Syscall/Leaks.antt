-- ===== src/Syscall/Leaks.antt =====
-- `sys3_off_getcwd` of kernel/systemcall/offload_fio.c with the allocator of kernel/memory.c.
use mathlib.Core.Path.{subst}
use azalea.Prelude.{
  ◌∙◌, ℕ, ◌%◌, ◌^◌, ◌≤◌, ◌≡◌, refl, sym, ap, true, false, some, List, [], ◌∷◌, ◌==◌, ==_iff,
  Bool-cases, inl, inr, arith,
}
use azalea.Buddy.Api.{Memory, az_alloc, az_free}
use azalea.Buddy.Sound.{IsSound}
use azalea.Buddy.Restore.{
  IsRestored, IsRestored-refl, az_free-az_alloc, az_alloc-null, az_free-null,
}
use azalea.Proxy.{HostCall, getcwd, Host, Mapping, get_va}
use azalea.Proxy.Files.{serve_getcwd}
use azalea.Proxy.Dispatch.{offload_local_proxy}
use azalea.Syscall.{Kernel}
use azalea.Syscall.Files.{sys3_off_getcwd}
use azalea.Syscall.Host.{complete}

-- What a call gives: a failure leaves the pages as they were, and a result is a buffer that the C
-- library filled.
pub record IsClean (host : Host) (at : ℕ → ℕ) (m : Memory) (size : ℕ) (r : ℕ × Memory)
    : Type 0 where
  pub failure : r.0 ≡ 0 → IsRestored m r.1
  pub success : 1 ≤ r.0 → 1 ≤ host.call (getcwd (at r.0) size) % 2 ^ 64

module _ (host : Host) (mp : Mapping) (k : Kernel) (m : Memory) (buf size : ℕ)
    (channel : k.ch == 0 ≡ false) (s : IsSound m.free_memory) where
  at : ℕ → ℕ
  at p = get_va mp (k.get_pa p)

  refused-IsClean : IsClean host at m size (0, m)
  refused-IsClean = record {
    failure = λ e. IsRestored-refl m s;
    success = λ h. absurd (omega arith);
  }

  given-IsClean :
      buf == 0 ≡ false
      → (calls : List HostCall) × (r : ℕ × Memory) × (complete host mp
            (sys3_off_getcwd k m buf size)
          ≡ some (calls, r))
        × IsClean host at m size r
  unfolding complete sys3_off_getcwd offload_local_proxy serve_getcwd at
  given-IsClean e = elim (Bool-cases (host.call (getcwd (at buf) size) % 2 ^ 64 == 0)) [
    | inl z ↦ (getcwd (at buf) size ∷ [], (0, m), rw (e, channel, z) refl, refused-IsClean)
    | inr z ↦ (
      getcwd (at buf) size ∷ [],
      (buf, m),
      rw (e, channel, z) refl,
      record { failure = λ null. absurd (ground arith); success = λ h. ground arith },
    )
  ]

  freed-IsRestored : IsRestored m (az_free (az_alloc m 4096).1 (az_alloc m 4096).0).1
  freed-IsRestored = elim (Bool-cases ((az_alloc m 4096).0 == 0)) [
    | inl z ↦
        let null = (==_iff (az_alloc m 4096).0 0).0 z in
        let same : (az_free (az_alloc m 4096).1 (az_alloc m 4096).0).1 ≡ m =
          ap (λ n. (az_free (az_alloc m 4096).1 n).1) null
          ∙ ap (λ n. (az_free n 0).1) (az_alloc-null m 4096 s (omega arith) null)
          ∙ ap (λ r. r.1) (az_free-null m s) in
        subst (IsRestored m) (sym same) (IsRestored-refl m s)
    | inr z ↦ (az_free-az_alloc m 4096 s (omega arith) (ground arith)).1
  ]

  allocated-IsClean :
      buf == 0 ≡ true
      → size == 0 ≡ false
      → (calls : List HostCall) × (r : ℕ × Memory) × (complete host mp
            (sys3_off_getcwd k m buf size)
          ≡ some (calls, r))
        × IsClean host at m size r
  unfolding complete sys3_off_getcwd offload_local_proxy serve_getcwd at
  allocated-IsClean e n =
      let area = (az_alloc m 4096).0 in
      elim (Bool-cases (host.call (getcwd (at area) size) % 2 ^ 64 == 0)) [
        | inl z ↦ (
          getcwd (at area) size ∷ [],
          (0, (az_free (az_alloc m 4096).1 area).1),
          rw (e, n, channel, z) refl,
          record { failure = λ null. freed-IsRestored; success = λ h. absurd (omega arith) },
        )
        | inr z ↦ (
          getcwd (at area) size ∷ [],
          az_alloc m 4096,
          rw (e, n, channel, z) refl,
          record {
            failure = λ null.
                subst (IsRestored m) (sym (az_alloc-null m 4096 s (omega arith) null))
                  (IsRestored-refl m s);
            success = λ h. ground arith;
          },
        )
      ]

-- From a sound state of the allocator, and when the core has its channel, `sys3_off_getcwd` gets
-- its answer; when it returns NULL, the pages that are free, and those that are held, are what they
-- were before, and when it returns a buffer, the C library has filled that buffer.
pub sys3_off_getcwd-IsClean :
    (host : Host) (mp : Mapping) (k : Kernel) (m : Memory) (buf size : ℕ)
    → k.ch == 0 ≡ false
    → IsSound m.free_memory
    → (calls : List HostCall) × (r : ℕ × Memory) × (complete host mp (sys3_off_getcwd k m buf size)
        ≡ some (calls, r))
      × IsClean host (λ p. get_va mp (k.get_pa p)) m size r
unfolding at complete sys3_off_getcwd
sys3_off_getcwd-IsClean host mp k m buf size channel s = elim (Bool-cases (buf == 0)) [
  | inr e ↦ given-IsClean host mp k m buf size channel s e
  | inl e ↦ elim (Bool-cases (size == 0)) [
    | inr n ↦ allocated-IsClean host mp k m buf size channel s e n
    | inl z ↦ ([], (0, m), rw (e, z) refl, refused-IsClean host mp k m buf size channel s)
  ]
]
