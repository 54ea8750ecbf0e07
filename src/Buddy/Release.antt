-- ===== src/Buddy/Release.antt =====
-- Giving a block back keeps the invariant.
use azalea.Prelude.{
  ℕ, ◌+◌, ◌-◌, ◌*◌, ◌≤◌, ◌<◌, ◌≡◌, refl, inl, inr, true, false, Bool-cases, ◌==◌, ltb, ltb→lt,
  update, arith,
}
use azalea.Buddy.{Mm, shl, page_min_size, free_buddy_block}
use azalea.Buddy.Cover.{hit}
use azalea.Buddy.Counts.{pages}
use azalea.Buddy.Lists.{IsWellFormed, room, free_at, free_units}
use azalea.Buddy.Size.{top_level}
use azalea.Buddy.Split.{IsApart}
use azalea.Buddy.Merge.{IsFreed, free_buddy_block-IsFreed}
use azalea.Buddy.Held.{unassigned, held_at, held-write, hit-le-held, cover-outside, hit-outside}
use azalea.Buddy.Total.{sum-le, free_units-eq-sum}
use azalea.Buddy.Sound.{IsSound, IsIndexed, held_at-eq, IsIndexed-Frame}

-- What `az_free` writes before it frees the block, and after.
abbrev pub cleared : Mm → ℕ → ℕ → Mm
cleared mm l o = record mm {
  block_index = update mm.block_index (shl o l) unassigned;
  mm_spl = true;
}

abbrev pub released : ℕ → Mm → Mm
released l mm' = record mm' { used_size = mm'.used_size - page_min_size * pages l; mm_spl = false }

module _ (mm : Mm) (l o : ℕ) (s : IsSound mm) (hl : l < mm.max_level) (low : l ≤ top_level)
    (ho : o < room mm l) (b : mm.block_index (shl o l) ≡ l) where
  cleared-IsWellFormed : IsWellFormed (cleared mm l o)
  cleared-IsWellFormed = record {
    bytes = s.lists.bytes;
    counts = s.lists.counts;
    pad = s.lists.pad;
    height = s.lists.height;
    small = s.lists.small;
  }

  cleared-IsApart : IsApart (cleared mm l o) l o
  cleared-IsApart p = elim (Bool-cases (ltb p mm.smallest_block)) [
    | inl h ↦ omega (
      arith,
      s.once p (ltb→lt _ _ h),
      hit-le-held mm.block_index o l mm.max_level 0 l p (omega arith) hl b,
    )
    | inr h ↦ omega (
      arith,
      cover-outside mm.bitmap mm.max_level 0 mm.smallest_block p (ground arith),
      hit-outside l mm.smallest_block p o (ground arith) ho,
    )
  ]

  pub freed : IsFreed (cleared mm l o) l o (free_buddy_block (cleared mm l o) l o)
  freed = free_buddy_block-IsFreed (cleared mm l o) l o cleared-IsWellFormed hl ho cleared-IsApart

  cleared-held : (p : ℕ) → held_at (cleared mm l o) p + hit l p o ≡ held_at mm p
  cleared-held p = ground (
    arith,
    held-write mm.block_index o l unassigned mm.max_level 0 l p (omega arith) hl
        (omega (arith, s.levels)) (inr b) (inl refl),
    b,
  )

  cleared_entries : IsIndexed (cleared mm l o)
  cleared_entries a h ne = elim (Bool-cases (a == shl o l)) [
    | inl e ↦ absurd (ne (rw e))
    | inr e ↦ rw e (s.blocks a h (rw e at ne))
  ]

  -- After the block is freed its pages are free and not held, and no other page has changed.
  module _ (mm' : Mm) (f : IsFreed (cleared mm l o) l o mm') where
    pub released-held : (p : ℕ) → held_at (released l mm') p + hit l p o ≡ held_at mm p
    released-held p = omega (arith, cleared-held p, held_at-eq f.frame p)

    pub units_fit : free_units mm + pages l ≤ mm.smallest_block
    units_fit = omega (
      arith,
      f.units,
      free_units-eq-sum mm' f.sound,
      sum-le (free_at mm') mm'.smallest_block λ p. omega (arith, f.at p, cleared-IsApart p),
      f.frame.blocks,
    )

    entries : IsIndexed (released l mm')
    entries a h ne = IsIndexed-Frame (cleared mm l o) mm' cleared_entries f.frame a h ne

    pub released-IsSound : IsSound (released l mm')
    released-IsSound = record {
      lists = record {
        bytes = f.sound.bytes;
        counts = f.sound.counts;
        pad = f.sound.pad;
        height = f.sound.height;
        small = f.sound.small;
      };
      once = λ p h.
          omega (arith, s.once p (omega (arith, h, f.frame.blocks)), released-held p, f.at p);
      blocks = entries;
      levels = omega (arith, s.levels, f.frame.levels);
      used = omega (arith, s.used, f.units, f.frame.used, f.frame.blocks, units_fit);
      above_null = omega (arith, s.above_null, f.frame.start);
      placed = omega (arith, s.placed, f.frame.start, f.frame.last, f.frame.blocks);
      reach = omega (arith, s.reach, f.frame.last);
      unlocked = refl;
    }
