-- ===== src/Buddy/Restore.antt =====
-- `az_free` of what `az_alloc` gave, in kernel/memory.c.
use azalea.Prelude.{ℕ, ◌^◌, ◌≤◌, ◌≡◌, refl, ap, true, false, inl, inr, arith}
use azalea.Buddy.Api.{Memory, az_alloc, az_free}
use azalea.Buddy.Lists.{free_at}
use azalea.Buddy.Held.{held_at}
use azalea.Buddy.Sound.{IsSound}
use azalea.Buddy.Contract.{IsAllocated}
use azalea.Buddy.Alloc.{az_alloc-IsServed}
use azalea.Buddy.Free.{IsNotHeld, az_free-refuses, az_free-IsReleased}

-- The same pages are free and the same are held.
pub record IsRestored (m m' : Memory) : Type 0 where
  pub sound : IsSound m'.free_memory
  pub free : (p : ℕ) → free_at m'.free_memory p ≡ free_at m.free_memory p
  pub held : (p : ℕ) → held_at m'.free_memory p ≡ held_at m.free_memory p

restored :
    (m : Memory) (size l o : ℕ)
    → IsAllocated m size l o (az_alloc m size)
    → ((az_free (az_alloc m size).1 (az_alloc m size).0).0 ≡ true)
      × IsRestored m (az_free (az_alloc m size).1 (az_alloc m size).0).1
restored m size l o a =
    let r = az_free-IsReleased (az_alloc m size).1 l o (az_alloc m size).0 a.sound a.owned in
    (
      r.success,
      record {
        sound = r.sound;
        free = λ p. omega (arith, r.free p, a.free p);
        held = λ p. omega (arith, r.held p, a.held p);
      },
    )

pub IsRestored-refl : (m : Memory) → IsSound m.free_memory → IsRestored m m
IsRestored-refl m s = record { sound = s; free = λ p. refl; held = λ p. refl }

-- From a sound state, when a request of at most 1 GB is served, `az_free` of the address that
-- `az_alloc` returned succeeds, and the pages that are free, those that are held and the soundness
-- are then what they were before the request.
pub az_free-az_alloc :
    (m : Memory) (size : ℕ)
    → IsSound m.free_memory
    → size ≤ 2 ^ 30
    → 1 ≤ (az_alloc m size).0
    → ((az_free (az_alloc m size).1 (az_alloc m size).0).0 ≡ true)
      × IsRestored m (az_free (az_alloc m size).1 (az_alloc m size).0).1
az_free-az_alloc m size s h given = elim (az_alloc-IsServed m size s h) [
  | inl (l, o, a) ↦ restored m size l o a
  | inr (refused, none_free) ↦
      let null : (az_alloc m size).0 ≡ 0 = ap (λ r. r.0) refused in absurd (omega (arith, null))
]

-- A request that is not served changes nothing.
pub az_alloc-null :
    (m : Memory) (size : ℕ)
    → IsSound m.free_memory
    → size ≤ 2 ^ 30
    → (az_alloc m size).0 ≡ 0
    → (az_alloc m size).1 ≡ m
az_alloc-null m size s h null = elim (az_alloc-IsServed m size s h) [
  | inl (l, o, a) ↦ absurd (omega (arith, a.address, s.above_null))
  | inr (refused, none_free) ↦ ap (λ r. r.1) refused
]

pub az_free-null : (m : Memory) → IsSound m.free_memory → az_free m 0 ≡ (false, m)
unfolding IsNotHeld
az_free-null m s = az_free-refuses m 0 s (inl refl)
