-- ===== src/Buddy/Alloc.antt =====
-- `az_alloc` of kernel/memory.c meets its contract.
use azalea.Prelude.{
  ℕ, ◌+◌, ◌*◌, ◌%◌, ◌^◌, ◌≤◌, ◌<◌, ◌≡◌, ◌∙◌, ◌⊎◌, inl, inr, Bool, Bool-cases, ==_iff, ltb→lt,
  Option, none, some, ◌==◌, ltb, arith,
}
use azalea.Buddy.{Mm, page_min_size, alloc_buddy_block}
use azalea.Buddy.Api.{Memory, lock, az_alloc, finish, serve}
use azalea.Buddy.Counts.{pages}
use azalea.Buddy.Lists.{is_free}
use azalea.Buddy.Size.{IsFit, align_buddy_block-IsFit, pages-le}
use azalea.Buddy.Take.{IsTakenOrNone, alloc_buddy_block-IsTakenOrNone}
use azalea.Buddy.Sound.{IsSound, sound-IsDisjoint}
use azalea.Buddy.Contract.{
  IsAllocated, IsExhausted, fail_locked, hand_out-IsAllocated, align-lock, index-lock, index-Frame,
  lock-IsWellFormed, lock-IsTaken, free_fits, IsExhausted-above,
}

-- What a call comes to.
abbrev pub IsServed : Memory → ℕ → ℕ × Memory → Type 0
IsServed m size r =
    ((l : ℕ) × (o : ℕ) × IsAllocated m size l o r) ⊎ ((r ≡ (0, m)) × IsExhausted m.free_memory size)

module _ (m : Memory) (size : ℕ) (s : IsSound m.free_memory) (l : ℕ)
    (fit : IsFit m.free_memory size l) where
  locked : Memory
  locked = record m { free_memory = lock m.free_memory }

  finish-IsServed :
      (o : Option (ℕ × Mm))
      → IsTakenOrNone (lock m.free_memory) l o
      → IsServed m size (finish locked (page_min_size * pages l) o)
  unfolding finish locked
  finish-IsServed none c = inr (fail_locked m s, IsExhausted-above m.free_memory size l fit c)
  finish-IsServed (some (o, mm)) t =
      let t' = lock-IsTaken m.free_memory l (o, mm) t in
      rw (index-Frame m.free_memory mm (page_min_size * pages l) t'.frame ∙ fit.index, finish)
        (inl (l, o, hand_out-IsAllocated m size l o mm s fit t'))

  full-IsExhausted :
      m.free_memory.end_addr
        < (m.free_memory.start_addr + m.free_memory.used_size + page_min_size * pages l) % 2 ^ 64
      → IsExhausted m.free_memory size
  full-IsExhausted h = IsExhausted-above m.free_memory size l fit λ k lo hk j _ hj.
      elim (Bool-cases (is_free m.free_memory k j)) [
        | inr off ↦ off
        | inl on ↦ absurd (
            omega (
              arith,
              free_fits m.free_memory k j s.lists hk hj on,
              pages-le l k lo,
              s.used,
              s.placed,
              s.reach,
            ))
      ]

  serve-IsServed : IsServed m size (serve locked (page_min_size * pages l))
  unfolding serve locked
  serve-IsServed = elim (Bool-cases (page_min_size * pages l == 0)) [
    | inl z ↦ absurd (omega (arith, (==_iff _ 0).0 z, pages-le 0 l (omega arith)))
    | inr nz ↦ rw nz (elim (Bool-cases full) [
      | inl f ↦ rw f (inr (fail_locked m s, full-IsExhausted (ltb→lt _ _ f)))
      | inr f ↦ rw f (
          finish-IsServed (alloc_buddy_block (lock m.free_memory) (page_min_size * pages l)) (
            alloc_buddy_block-IsTakenOrNone (lock m.free_memory) (page_min_size * pages l) l
              (lock-IsWellFormed m.free_memory s.lists) (sound-IsDisjoint s) fit.level
              (index-lock m.free_memory (page_min_size * pages l) ∙ fit.index)))
    ])
  ]
    where
      full : Bool
      full =
          ltb m.free_memory.end_addr (
            (m.free_memory.start_addr + m.free_memory.used_size + page_min_size * pages l) % 2 ^ 64)

-- From a sound state, a request of at most 1 GB is served by a block that fits it; or it fails,
-- when no free block is large enough, and changes nothing.
pub az_alloc-IsServed :
    (m : Memory) (size : ℕ)
    → IsSound m.free_memory
    → size ≤ 2 ^ 30
    → IsServed m size (az_alloc m size)
unfolding az_alloc locked
az_alloc-IsServed m size s h =
    rw (align-lock m.free_memory size) (elim (align_buddy_block-IsFit m.free_memory size h) [
      | inl (l, fit) ↦ rw fit.aligned (serve-IsServed m size s l fit)
      | inr (zero_size, none_fits) ↦ rw zero_size (
          inr (unfold serve in fail_locked m s, λ l hl big. absurd (omega (arith, none_fits l hl))))
    ])
