-- ===== src/Buddy/Lists.antt =====
-- The block lists of the allocator: what keeps them well formed, and what `set_bitmap_flag`
-- changes.
use azalea.Prelude.{
  ℕ, zero, suc, ◌+◌, ◌-◌, ◌%◌, ◌^◌, ◌≤◌, ◌<◌, ◌≡◌, refl, ◌∙◌, inl, inr, ap, Bool, false, ◌==◌,
  if◌then◌else◌, b2n, Bool-cases, ==_iff, ==_refl, ne→==, update, arith,
}
use azalea.Buddy.{Bitmap, Mm, shr, set_bitmap_flag}
use azalea.Buddy.Bits.{AllBytes, bit, put, bit-put, put-AllBytes}
use azalea.Buddy.Cover.{hit, cover, cover-put}
use azalea.Buddy.Counts.{
  bits_below, bits_below-put, bits_below-le, bits_below_pos, pages, units, units-update,
}

-- Whether the block `o` of list `l` is free.
abbrev pub is_free : Mm → ℕ → ℕ → Bool
is_free mm l o = bit (mm.bitmap l).bitmap o

-- How many blocks list `l` has.
abbrev pub room : Mm → ℕ → ℕ
room mm l = shr mm.smallest_block l

-- The number of free blocks that hold page `p`, and the pages that are free in all.
abbrev pub free_at : Mm → ℕ → ℕ
free_at mm p = cover mm.bitmap mm.max_level 0 mm.smallest_block p

abbrev pub free_units : Mm → ℕ
free_units mm = units mm.bitmap mm.max_level 0

-- The bitmaps are bytes, each count is that of its bits, and the bit beside a list of odd length
-- is clear.
pub record IsWellFormed (mm : Mm) : Type 0 where
  pub bytes : (l : ℕ) → AllBytes (mm.bitmap l).bitmap
  pub counts :
      (l : ℕ)
      → l < mm.max_level
      → (mm.bitmap l).bitmap_count ≡ bits_below (mm.bitmap l).bitmap (room mm l)
  pub pad : (l : ℕ) → l < mm.max_level → room mm l % 2 ≡ 1 → is_free mm l (room mm l) ≡ false
  pub height : room mm mm.max_level ≡ 0
  pub small : mm.smallest_block < 2 ^ 31

-- Two states that differ in the bitmaps alone.
pub record Frame (mm mm' : Mm) : Type 0 where
  pub levels : mm'.max_level ≡ mm.max_level
  pub blocks : mm'.smallest_block ≡ mm.smallest_block
  pub used : mm'.used_size ≡ mm.used_size
  pub start : mm'.start_addr ≡ mm.start_addr
  pub last : mm'.end_addr ≡ mm.end_addr
  pub index : mm'.block_index ≡ mm.block_index

pub Frame-refl : (mm : Mm) → Frame mm mm
Frame-refl mm = record {
  levels = refl;
  blocks = refl;
  used = refl;
  start = refl;
  last = refl;
  index = refl;
}

pub Frame-trans : {a b c : Mm} → Frame a b → Frame b c → Frame a c
Frame-trans f g = record {
  levels = g.levels ∙ f.levels;
  blocks = g.blocks ∙ f.blocks;
  used = g.used ∙ f.used;
  start = g.start ∙ f.start;
  last = g.last ∙ f.last;
  index = g.index ∙ f.index;
}

pub room-eq : {a b : Mm} → Frame a b → (l : ℕ) → room b l ≡ room a l
room-eq f l = ap (λ x. shr x l) f.blocks

shr-le : (x k : ℕ) → shr x k ≤ x
shr-le x zero = omega arith
shr-le x (suc k) = omega (arith, shr-le x k)

pub set-Frame : (mm : Mm) (l o f : ℕ) → Frame mm (set_bitmap_flag mm l o f)
unfolding set_bitmap_flag
set-Frame mm l o f = record {
  levels = refl;
  blocks = refl;
  used = refl;
  start = refl;
  last = refl;
  index = refl;
}

-- The entry that `set_bitmap_flag` writes.
count_after : Mm → ℕ → ℕ → ℕ → ℕ
count_after mm l o f =
    let c = (mm.bitmap l).bitmap_count in
    if f == 1
    then (if is_free mm l o then c else (c + 1) % 2 ^ 64)
    else (if is_free mm l o then (c + 2 ^ 64 - 1) % 2 ^ 64 else c)

entry_after : Mm → ℕ → ℕ → ℕ → Bitmap
entry_after mm l o f = record {
  bitmap = put (mm.bitmap l).bitmap o (f == 1);
  bitmap_count = count_after mm l o f;
}

set_eq :
    (mm : Mm) (l o f : ℕ)
    → set_bitmap_flag mm l o f ≡ record mm { bitmap = update mm.bitmap l (entry_after mm l o f) }
unfolding set_bitmap_flag bit count_after entry_after
set_eq mm l o f = elim (Bool-cases (f == 1)) [ inl e ↦ rw e | inr e ↦ rw e ]

module _ {mm : Mm} (w : IsWellFormed mm) (l o f : ℕ) (hl : l < mm.max_level)
    (ho : o < room mm l) where
  -- The bits after a write.
  pub is_free-set :
      (j o' : ℕ)
      → is_free (set_bitmap_flag mm l o f) j o'
        ≡ (if j == l then (if o' == o then f == 1 else is_free mm j o') else is_free mm j o')
  unfolding entry_after
  is_free-set j o' =
      rw (set_eq mm l o f) (ground (arith, bit-put (mm.bitmap l).bitmap o (f == 1) o' (w.bytes l)))

  set_bytes : (j : ℕ) → AllBytes ((set_bitmap_flag mm l o f).bitmap j).bitmap
  unfolding entry_after
  set_bytes j i =
      rw (set_eq mm l o f)
        (ground (arith, w.bytes j i, put-AllBytes (mm.bitmap l).bitmap o (f == 1) (w.bytes l) i))

  set_count :
      count_after mm l o f + b2n (is_free mm l o) ≡ (mm.bitmap l).bitmap_count + b2n (f == 1)
  unfolding count_after
  set_count =
      (ground (
        arith,
        w.counts l hl,
        bits_below-le (mm.bitmap l).bitmap (room mm l),
        bits_below_pos (mm.bitmap l).bitmap o (room mm l) ho,
        shr-le mm.smallest_block l,
        w.small,
      ))

  -- A write changes the cover by the pages of its block, when it changes the bit.
  pub free_at-set :
      (p : ℕ)
      → free_at (set_bitmap_flag mm l o f) p + (if is_free mm l o then hit l p o else 0)
        ≡ free_at mm p + (if f == 1 then hit l p o else 0)
  unfolding entry_after
  free_at-set p = rw (set_eq mm l o f) (
      cover-put mm.bitmap l o (count_after mm l o f) (f == 1) mm.max_level 0 l mm.smallest_block p
        (omega arith) hl ho (w.bytes l))

  pub free_units-set :
      free_units (set_bitmap_flag mm l o f) + (if is_free mm l o then pages l else 0)
      ≡ free_units mm + (if f == 1 then pages l else 0)
  unfolding entry_after
  free_units-set = rw (set_eq mm l o f) (
      units-update mm.bitmap l (entry_after mm l o f) (is_free mm l o) (f == 1) mm.max_level 0 l
        (omega arith) hl set_count)

  set_counts :
      (j : ℕ)
      → j < (set_bitmap_flag mm l o f).max_level
      → ((set_bitmap_flag mm l o f).bitmap j).bitmap_count
        ≡ bits_below
            ((set_bitmap_flag mm l o f).bitmap j).bitmap
            (room (set_bitmap_flag mm l o f) j)
  unfolding entry_after
  set_counts = rw (set_eq mm l o f) λ j h. elim (Bool-cases (j == l)) [
    | inl e ↦
        rw ((==_iff j l).0 e, ==_refl l)
          (omega (
            arith,
            set_count,
            w.counts l hl,
            bits_below-put (mm.bitmap l).bitmap o (f == 1) (room mm l) (w.bytes l) ho,
          ))
    | inr e ↦ rw e (w.counts j h)
  ]

  beside : {j : ℕ} → room mm j ≡ o → j ≡ l → ⊥
  beside {j} q p = omega (arith, ap (λ x. room mm x) p)

  set_pad :
      (j : ℕ)
      → j < mm.max_level
      → room mm j % 2 ≡ 1
      → is_free (set_bitmap_flag mm l o f) j (room mm j) ≡ false
  set_pad j h odd = rw (is_free-set j (room mm j)) (elim (Bool-cases (j == l)) [
    | inl e ↦
        let p : j ≡ l = (==_iff j l).0 e in
        rw (e, ne→== (room mm j) o (λ q. beside q p)) (w.pad j h odd)
    | inr e ↦ rw e (w.pad j h odd)
  ])

  pub set-IsWellFormed : IsWellFormed (set_bitmap_flag mm l o f)
  set-IsWellFormed = record {
    bytes = set_bytes;
    counts = set_counts;
    pad = unfold set_bitmap_flag in set_pad;
    height = rw (set_eq mm l o f) w.height;
    small = rw (set_eq mm l o f) w.small;
  }
