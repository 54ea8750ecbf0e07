-- ===== src/Buddy/Take.antt =====
-- `alloc_buddy_block`: which block it takes, and what becomes of the free ones.
use azalea.Prelude.{
  ℕ, zero, suc, ◌+◌, ◌-◌, ◌≤◌, ◌<◌, ◌≡◌, inl, inr, true, Option, none, some, Bool-cases, ◌==◌,
  ==_iff, arith,
}
use azalea.Buddy.{
  Mm, set_bitmap_flag, mm_false, find_free_block, find_level, split, take_block, block_list_index,
  alloc_buddy_block,
}
use azalea.Buddy.Cover.{hit}
use azalea.Buddy.Counts.{pages}
use azalea.Buddy.Lists.{
  IsWellFormed, Frame, Frame-trans, set-Frame, set-IsWellFormed, is_free, room, free_at,
  free_at-set, free_units, free_units-set, room-eq,
}
use azalea.Buddy.Search.{IsLeast, IsClear, find_free_block-IsLeast}
use azalea.Buddy.Split.{IsSplit, split-IsSplit}

-- No page is free twice.
abbrev pub IsDisjoint : Mm → Type 0
IsDisjoint mm = (p : ℕ) → free_at mm p ≤ 1

-- What the search of the lists from `i` on finds: the first free block of the first list that
-- has one.
abbrev pub IsFound : Mm → ℕ → ℕ → Option (ℕ × ℕ) → Type 0
IsFound mm i n none = (l : ℕ) → i ≤ l → l < i + n → IsClear (mm.bitmap l).bitmap 0 (room mm l)
IsFound mm i n (some (l, o)) =
    (i ≤ l)
    × (l < i + n)
    × (o < room mm l)
    × (is_free mm l o ≡ true)
    × ((j : ℕ) → i ≤ j → j < l → IsClear (mm.bitmap j).bitmap 0 (room mm j))

module _ (mm : Mm) (w : IsWellFormed mm) where
  IsClear-more :
      (i e : ℕ)
      → IsClear (mm.bitmap i).bitmap 0 (room mm i)
      → ((l : ℕ) → i + 1 ≤ l → l < e → IsClear (mm.bitmap l).bitmap 0 (room mm l))
      → (l : ℕ) → i ≤ l
      → l < e
      → IsClear (mm.bitmap l).bitmap 0 (room mm l)
  IsClear-more i e c h l lo hi = elim (Bool-cases (l == i)) [
    | inl p ↦ rw ((==_iff l i).0 p) c
    | inr p ↦ h l (ground arith) hi
  ]

  IsFound-more :
      (n i : ℕ) (o : Option (ℕ × ℕ))
      → IsClear (mm.bitmap i).bitmap 0 (room mm i)
      → IsFound mm (i + 1) n o
      → IsFound mm i (suc n) o
  IsFound-more n i none c f = λ l lo hi. IsClear-more i (i + 1 + n) c f l lo (omega arith)
  IsFound-more n i (some (l, o)) c f = (omega arith, omega arith, f.2, f.3, IsClear-more i l c f.4)

  find_level-IsFound : (n i : ℕ) → i + n ≤ mm.max_level → IsFound mm i n (find_level mm n i)
  unfolding find_level
  find_level-IsFound zero i h = λ l lo hi. absurd (omega arith)
  find_level-IsFound (suc n) i h =
      pick (find_free_block mm i) (find_free_block-IsLeast mm i w (omega arith))
        (find_level-IsFound n (i + 1) (omega arith))
    where
      pick :
          (o : Option ℕ)
          → IsLeast (mm.bitmap i).bitmap (room mm i) o
          → IsFound mm (i + 1) n (find_level mm n (i + 1))
          → IsFound mm i
              (suc n)
              (elim o [ none ↦ find_level mm n (i + 1) | some offset ↦ some (i, offset) ])
      pick none c f = IsFound-more n i (find_level mm n (i + 1)) c f
      pick (some o) c f = (omega arith, omega arith, c.0, c.1, λ j lo hi. absurd (omega arith))

-- A block of list `l` has left the free blocks: those pages, each free once before, and no other.
pub record IsTaken (mm : Mm) (l : ℕ) (r : ℕ × Mm) : Type 0 where
  pub sound : IsWellFormed r.1
  pub frame : Frame mm r.1
  pub inside : r.0 < room mm l
  pub at : (p : ℕ) → free_at r.1 p + hit l p r.0 ≡ free_at mm p
  pub units : free_units r.1 + pages l ≡ free_units mm

-- Taking the block `o` of list `k` off the free ones and splitting it down to list `l`.
take_block-IsTaken :
    (mm : Mm) (l k o : ℕ)
    → IsWellFormed mm
    → IsDisjoint mm
    → l ≤ k
    → k < mm.max_level
    → o < room mm k
    → is_free mm k o ≡ true
    → IsTaken mm l (take_block mm l (k, o))
unfolding take_block
take_block-IsTaken mm l k o w d lk hk ho on = record {
  sound = s.sound;
  frame = Frame-trans f s.frame;
  inside = omega (arith, s.inside, room-eq (Frame-trans f s.frame) l);
  at = λ p. omega (arith, s.at p, cleared p);
  units = ground (arith, s.units, free_units-set w k o 0 hk ho, on);
}
  where
    mm₁ : Mm
    mm₁ = set_bitmap_flag mm k o mm_false

    f : Frame mm mm₁
    f = set-Frame mm k o 0

    cleared : (p : ℕ) → free_at mm₁ p + hit k p o ≡ free_at mm p
    cleared p = ground (arith, free_at-set w k o 0 hk ho p, on)

    s : IsSplit mm₁ k o l (split mm₁ l (k - l) o)
    s =
        split-IsSplit (k - l) mm₁ k l o (omega arith) (set-IsWellFormed w k o 0 hk ho)
          (rw f.levels hk) (omega (arith, ho, room-eq f k)) λ p. omega (arith, cleared p, d p)

-- What `alloc_buddy_block` comes to for a block of list `l`: it fails only when no list from `l`
-- up has a free block.
abbrev pub IsTakenOrNone : Mm → ℕ → Option (ℕ × Mm) → Type 0
IsTakenOrNone mm l none =
    (k : ℕ) → l ≤ k → k < mm.max_level → IsClear (mm.bitmap k).bitmap 0 (room mm k)
IsTakenOrNone mm l (some r) = IsTaken mm l r

pub alloc_buddy_block-IsTakenOrNone :
    (mm : Mm) (size l : ℕ)
    → IsWellFormed mm
    → IsDisjoint mm
    → l < mm.max_level
    → block_list_index mm size ≡ some l
    → IsTakenOrNone mm l (alloc_buddy_block mm size)
unfolding alloc_buddy_block
alloc_buddy_block-IsTakenOrNone mm size l w d hl e =
    rw (e, IsTakenOrNone)
      (pick (find_level mm (mm.max_level - l) l)
        (find_level-IsFound mm w (mm.max_level - l) l (omega arith)))
  where
    pick :
        (o : Option (ℕ × ℕ))
        → IsFound mm l (mm.max_level - l) o
        → IsTakenOrNone mm l (elim o [ none ↦ none | some found ↦ some (take_block mm l found) ])
    pick none f = λ k lo hi. f k lo (omega arith)
    pick (some (k, o)) f = take_block-IsTaken mm l k o w d f.0 (omega (arith, f.1)) f.2 f.3
