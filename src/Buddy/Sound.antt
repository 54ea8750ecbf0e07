-- ===== src/Buddy/Sound.antt =====
-- The invariant of the allocator: each page of the pool is either free, in one block, or held,
-- in one block.
use azalea.Prelude.{
  ℕ, ◌+◌, ◌*◌, ◌^◌, ◌≤◌, ◌<◌, ◌≡◌, ◌≢◌, refl, sym, ◌∙◌, ap, inl, inr, false, Bool-cases, ◌==◌,
  ==_iff, ==-ne, ltb, ltb→lt, update, arith,
}
use mathlib.Core.Path.{subst}
use azalea.Buddy.{Mm, shl, page_min_size}
use azalea.Buddy.Cover.{hit, hit-shl}
use azalea.Buddy.Counts.{pages}
use azalea.Buddy.Lists.{IsWellFormed, Frame, room, room-eq, free_at, free_units}
use azalea.Buddy.Size.{top_level, pages-le}
use azalea.Buddy.Take.{IsDisjoint, IsTaken}
use azalea.Buddy.Held.{
  unassigned, held, held_at, held-write, hit-le-held, cover-outside, block_inside,
}

-- A block of list `l` that starts at page `a`.
abbrev pub IsBlock : Mm → ℕ → ℕ → Type 0
IsBlock mm a l = (l < mm.max_level) × (l ≤ top_level) × (o : ℕ) × (o < room mm l) × (a ≡ shl o l)

-- Each entry of the block index in the pool names a block that starts there, or none.
abbrev pub IsIndexed : Mm → Type 0
IsIndexed mm =
    (a : ℕ)
    → a < mm.smallest_block
    → mm.block_index a ≢ unassigned
    → IsBlock mm a (mm.block_index a)

pub record IsSound (mm : Mm) : Type 0 where
  pub lists : IsWellFormed mm
  pub once : (p : ℕ) → p < mm.smallest_block → free_at mm p + held_at mm p ≡ 1
  pub blocks : IsIndexed mm
  pub levels : mm.max_level ≤ 31
  pub used : mm.used_size + page_min_size * free_units mm ≡ page_min_size * mm.smallest_block
  pub above_null : 0 < mm.start_addr
  pub placed : mm.start_addr + page_min_size * mm.smallest_block ≤ mm.end_addr
  pub reach : mm.end_addr + 2 ^ 31 ≤ 2 ^ 64
  pub unlocked : mm.mm_spl ≡ false

pub sound-IsDisjoint : {mm : Mm} → IsSound mm → IsDisjoint mm
sound-IsDisjoint {mm} s p = elim (Bool-cases (ltb p mm.smallest_block)) [
  | inl h ↦ omega (arith, s.once p (ltb→lt _ _ h))
  | inr h ↦ omega (arith, cover-outside mm.bitmap mm.max_level 0 mm.smallest_block p (ground arith))
]

-- A page that starts a handed-out block is not free.
held_not_free :
    (mm : Mm) (a k : ℕ) → IsSound mm → mm.block_index a ≡ k → IsBlock mm a k → 1 ≤ free_at mm a → ⊥
held_not_free mm a k s b (hk, low, o, ho, e) f = omega (
  arith,
  rw e at f,
  s.once (shl o k)
      (omega (arith, block_inside mm.smallest_block k o ho, pages-le 0 k (omega arith))),
  hit-shl k o,
  hit-le-held mm.block_index o k mm.max_level 0 k (shl o k) (omega arith) hk (rw e at b),
)

-- A page that is free has no entry in the block index.
pub free_unassigned :
    (mm : Mm) (a : ℕ)
    → IsSound mm
    → a < mm.smallest_block
    → 1 ≤ free_at mm a
    → mm.block_index a ≡ unassigned
free_unassigned mm a s h f = elim (Bool-cases (mm.block_index a == unassigned)) [
  | inl e ↦ (==_iff _ unassigned).0 e
  | inr e ↦ absurd (held_not_free mm a (mm.block_index a) s refl (s.blocks a h (==-ne _ _ e)) f)
]

pub held_at-eq : {a b : Mm} → Frame a b → (p : ℕ) → held_at b p ≡ held_at a p
held_at-eq f p = λ i. held (f.index i) (f.levels i) 0 p

pub IsBlock-Frame : (a b : Mm) → Frame a b → (p k : ℕ) → IsBlock a p k → IsBlock b p k
IsBlock-Frame a b f p k (hk, low, o, ho, e) =
    (omega (arith, f.levels), low, o, omega (arith, ho, room-eq f k), e)

-- Entries that a change of the lists leaves alone still name blocks.
pub IsIndexed-Frame : (a b : Mm) → IsIndexed a → Frame a b → IsIndexed b
IsIndexed-Frame a b h f p hp ne =
    subst (λ k. IsBlock b p k) (sym same)
      (IsBlock-Frame a b f p (a.block_index p) (h p (omega (arith, f.blocks)) λ q. ne (same ∙ q)))
  where
    same : b.block_index p ≡ a.block_index p
    same = ap (λ g. g p) f.index

-- What `az_alloc` writes once `alloc_buddy_block` has taken a block.
abbrev pub assigned : Mm → ℕ → ℕ → Mm → Mm
assigned mm l o mm' = record mm' {
  block_index = update mm'.block_index (shl o l) l;
  used_size = mm'.used_size + page_min_size * pages l;
  mm_spl = false;
}

module _ (mm : Mm) (l o : ℕ) (mm' : Mm) (s : IsSound mm) (t : IsTaken mm l (o, mm'))
    (hl : l < mm.max_level) (low : l ≤ top_level) where
  in_pool : shl o l < mm.smallest_block
  in_pool = omega (arith, block_inside mm.smallest_block l o t.inside, pages-le 0 l (omega arith))

  was_free : mm'.block_index (shl o l) ≡ unassigned
  was_free =
      rw t.frame.index
        (free_unassigned mm (shl o l) s in_pool (omega (arith, t.at (shl o l), hit-shl l o)))

  pub assigned-held : (p : ℕ) → held_at (assigned mm l o mm') p ≡ held_at mm p + hit l p o
  assigned-held p = ground (
    arith,
    held-write mm'.block_index o l l mm'.max_level 0 l p (omega arith)
        (omega (arith, t.frame.levels)) (omega (arith, s.levels, t.frame.levels)) (inl was_free)
        (inr refl),
    held_at-eq t.frame p,
    was_free,
  )

  entries : IsIndexed (assigned mm l o mm')
  entries a h ne = elim (Bool-cases (a == shl o l)) [
    | inl e ↦ rw e (
      omega (arith, t.frame.levels),
      low,
      o,
      omega (arith, t.inside, room-eq t.frame l),
      (==_iff a (shl o l)).0 e,
    )
    | inr e ↦ rw e (IsIndexed-Frame mm mm' s.blocks t.frame a h λ q. ne (rw e q))
  ]

  pub assigned-IsSound : IsSound (assigned mm l o mm')
  assigned-IsSound = record {
    lists = record {
      bytes = t.sound.bytes;
      counts = t.sound.counts;
      pad = t.sound.pad;
      height = t.sound.height;
      small = t.sound.small;
    };
    once =
        λ p h. omega (arith, s.once p (omega (arith, h, t.frame.blocks)), assigned-held p, t.at p);
    blocks = entries;
    levels = omega (arith, s.levels, t.frame.levels);
    used = omega (arith, s.used, t.units, t.frame.used, t.frame.blocks);
    above_null = omega (arith, s.above_null, t.frame.start);
    placed = omega (arith, s.placed, t.frame.start, t.frame.last, t.frame.blocks);
    reach = omega (arith, s.reach, t.frame.last);
    unlocked = refl;
  }
