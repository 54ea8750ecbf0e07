-- ===== src/Buddy/Merge.antt =====
-- The merging loop of `free_buddy_block`.
use azalea.Prelude.{
  ℕ, zero, suc, ◌+◌, ◌-◌, ◌/◌, ◌<◌, ◌≡◌, inl, inr, ap, true, not, Bool-cases, ◌==◌, add-one, arith,
}
use azalea.Buddy.{
  Mm, mm_true, mm_false, set_bitmap_flag, get_bitmap_flag, buddy_of, merge, free_buddy_block,
}
use azalea.Buddy.Bits.{bit}
use azalea.Buddy.Cover.{hit, hit-split}
use azalea.Buddy.Counts.{pages}
use azalea.Buddy.Lists.{
  IsWellFormed, Frame, Frame-trans, set-Frame, set-IsWellFormed, is_free, is_free-set, room,
  room-eq, free_at, free_at-set, free_units, free_units-set,
}
use azalea.Buddy.Split.{IsApart, apart-not_free}

-- The block `o` of list `l` has become free: its pages, and no other.
pub record IsFreed (mm : Mm) (l o : ℕ) (mm' : Mm) : Type 0 where
  pub sound : IsWellFormed mm'
  pub frame : Frame mm mm'
  pub at : (p : ℕ) → free_at mm' p ≡ free_at mm p + hit l p o
  pub units : free_units mm' ≡ free_units mm + pages l

flag_lem : (mm : Mm) (l o : ℕ) → (get_bitmap_flag mm l o == mm_false) ≡ not (is_free mm l o)
unfolding get_bitmap_flag bit
flag_lem mm l o = ground arith

-- A block and its buddy are the halves of one block.
hit-buddy : (l p o : ℕ) → hit l p o + hit l p (buddy_of o) ≡ hit (suc l) p (o / 2)
unfolding buddy_of
hit-buddy l p o = ground (arith, hit-split l p (o / 2))

-- Setting the flag alone frees the block.
mark-IsFreed :
    (mm : Mm) (l o : ℕ)
    → IsWellFormed mm
    → l < mm.max_level
    → o < room mm l
    → IsApart mm l o
    → IsFreed mm l o (set_bitmap_flag mm l o mm_true)
mark-IsFreed mm l o w hl ho a = record {
  sound = set-IsWellFormed w l o 1 hl ho;
  frame = set-Frame mm l o 1;
  at = λ p. ground (arith, free_at-set w l o 1 hl ho p, apart-not_free mm l o hl ho a);
  units = ground (arith, free_units-set w l o 1 hl ho, apart-not_free mm l o hl ho a);
}

-- A free buddy lies in its list: the bit beside a list of odd length is clear.
buddy_inside :
    (mm : Mm) (l o : ℕ)
    → IsWellFormed mm
    → l < mm.max_level
    → o < room mm l
    → is_free mm l (buddy_of o) ≡ true
    → (buddy_of o < room mm l) × (o / 2 < room mm (suc l))
unfolding buddy_of
buddy_inside mm l o w hl ho on = ground (arith, w.pad l hl)

-- One round that goes up: the buddy leaves the free blocks.
record IsMerged (mm : Mm) (l o : ℕ) (mm' : Mm) : Type 0 where
  sound : IsWellFormed mm'
  frame : Frame mm mm'
  inside : o / 2 < room mm' (suc l)
  at : (p : ℕ) → free_at mm' p + hit l p (buddy_of o) ≡ free_at mm p
  units : free_units mm' + pages l ≡ free_units mm

module _ (mm : Mm) (l o : ℕ) (w : IsWellFormed mm) (hl : l < mm.max_level) (ho : o < room mm l)
    (a : IsApart mm l o) (on : is_free (set_bitmap_flag mm l o mm_true) l (buddy_of o) ≡ true) where
  freed : Mm
  freed = set_bitmap_flag mm l o mm_true

  -- The state in which the loop goes up.
  merged : Mm
  merged = set_bitmap_flag (set_bitmap_flag freed l (buddy_of o) mm_false) l o mm_false

  m : IsFreed mm l o freed
  unfolding freed
  m = mark-IsFreed mm l o w hl ho a

  hl₁ : l < freed.max_level
  hl₁ = omega (arith, m.frame.levels)

  ho₁ : o < room freed l
  ho₁ = omega (arith, ho, room-eq m.frame l)

  hb₁ : buddy_of o < room freed l
  unfolding freed
  hb₁ = (buddy_inside freed l o m.sound hl₁ ho₁ on).0

  mm₂ : Mm
  mm₂ = set_bitmap_flag freed l (buddy_of o) mm_false

  f₂ : Frame freed mm₂
  unfolding mm₂
  f₂ = set-Frame freed l (buddy_of o) 0

  w₂ : IsWellFormed mm₂
  unfolding mm₂
  w₂ = set-IsWellFormed m.sound l (buddy_of o) 0 hl₁ hb₁

  hl₂ : l < mm₂.max_level
  hl₂ = omega (arith, hl₁, f₂.levels)

  ho₂ : o < room mm₂ l
  ho₂ = omega (arith, ho₁, room-eq f₂ l)

  own_set : is_free mm₂ l o ≡ true
  unfolding mm₂ freed buddy_of
  own_set =
      ground
        (arith, is_free-set m.sound l (buddy_of o) 0 hl₁ hb₁ l o, is_free-set w l o 1 hl ho l o)

  Frame-all : Frame mm merged
  unfolding merged mm₂
  Frame-all = Frame-trans (Frame-trans m.frame f₂) (set-Frame mm₂ l o 0)

  merged-IsMerged : IsMerged mm l o merged
  merged-IsMerged = record {
    sound = unfold merged mm₂ in set-IsWellFormed w₂ l o 0 hl₂ ho₂;
    frame = Frame-all;
    inside = omega (arith, room-eq Frame-all (suc l), room-eq m.frame (suc l), up);
    at = λ p.
        unfold merged mm₂ freed in
        ground (
          arith,
          m.at p,
          free_at-set m.sound l (buddy_of o) 0 hl₁ hb₁ p,
          free_at-set w₂ l o 0 hl₂ ho₂ p,
          own_set,
          on,
        );
    units =
        unfold merged mm₂ freed in
        ground (
          arith,
          m.units,
          free_units-set m.sound l (buddy_of o) 0 hl₁ hb₁,
          free_units-set w₂ l o 0 hl₂ ho₂,
          own_set,
          on,
        );
  }
    where
      up : o / 2 < room freed (suc l)
      up = unfold freed in (buddy_inside freed l o m.sound hl₁ ho₁ on).1

-- Going up and freeing the block above frees the block.
up-IsFreed :
    (mm : Mm) (l o : ℕ) (mm₁ mm₂ : Mm)
    → IsMerged mm l o mm₁
    → IsFreed mm₁ (suc l) (o / 2) mm₂
    → IsFreed mm l o mm₂
up-IsFreed mm l o mm₁ mm₂ u f = record {
  sound = f.sound;
  frame = Frame-trans u.frame f.frame;
  at = λ p. omega (arith, f.at p, u.at p, hit-buddy l p o);
  units = omega (arith, f.units, u.units);
}

up-IsApart :
    (mm : Mm) (l o : ℕ) (mm₁ : Mm)
    → IsMerged mm l o mm₁
    → IsApart mm l o
    → IsApart mm₁ (suc l) (o / 2)
up-IsApart mm l o mm₁ u a = λ p. omega (arith, a p, u.at p, hit-buddy l p o)

merge-IsFreed :
    (n : ℕ) (mm : Mm) (l o : ℕ)
    → l + n ≡ mm.max_level
    → IsWellFormed mm
    → o < room mm l
    → IsApart mm l o
    → IsFreed mm l o (merge mm n l o)
unfolding merge merged freed
merge-IsFreed zero mm l o e w ho a = absurd (omega (arith, w.height, ap (λ x. room mm x) (top e)))
  where
    top : l + 0 ≡ mm.max_level → mm.max_level ≡ l
    top q = omega arith
merge-IsFreed (suc n) mm l o e w ho a =
    elim (Bool-cases (is_free (set_bitmap_flag mm l o mm_true) l (buddy_of o))) [
      | inl on ↦
          let u = merged-IsMerged mm l o w (omega arith) ho a on in
          rw (flag_lem (set_bitmap_flag mm l o mm_true) l (buddy_of o), on, add-one)
            (up-IsFreed mm l o _ _ u (
              merge-IsFreed n (merged mm l o w (omega arith) ho a on) (suc l) (o / 2)
                (omega (arith, u.frame.levels)) u.sound u.inside (up-IsApart mm l o _ u a)))
      | inr off ↦
          rw (flag_lem (set_bitmap_flag mm l o mm_true) l (buddy_of o), off)
            (mark-IsFreed mm l o w (omega arith) ho a)
    ]

-- `free_buddy_block` makes the pages of the block free, and no other, whatever it merges; the
-- loop never gives up a block at the top.
pub free_buddy_block-IsFreed :
    (mm : Mm) (l o : ℕ)
    → IsWellFormed mm
    → l < mm.max_level
    → o < room mm l
    → IsApart mm l o
    → IsFreed mm l o (free_buddy_block mm l o)
unfolding free_buddy_block
free_buddy_block-IsFreed mm l o w hl ho a =
    merge-IsFreed (mm.max_level - l) mm l o (omega arith) w ho a
