-- ===== src/Buddy/Split.antt =====
-- The splitting loop of `alloc_buddy_block`: one half stays, the other becomes free.
use azalea.Prelude.{ℕ, zero, suc, ◌+◌, ◌*◌, ◌≤◌, ◌<◌, ◌≡◌, refl, false, Bool-cases, inl, inr, arith}
use azalea.Buddy.{Mm, shl, set_bitmap_flag, mm_false, mm_true, split}
use azalea.Buddy.Cover.{hit, hit-split, hit-shl, hit-le-cover}
use azalea.Buddy.Counts.{pages}
use azalea.Buddy.Lists.{
  IsWellFormed, Frame, Frame-refl, Frame-trans, set-Frame, set-IsWellFormed, is_free, is_free-set,
  room, free_at, free_at-set, free_units, free_units-set,
}

-- No page of the block is free, and no page of the others is free twice.
abbrev pub IsApart : Mm → ℕ → ℕ → Type 0
IsApart mm l o = (p : ℕ) → free_at mm p + hit l p o ≤ 1

-- A block apart from the free ones is not marked free, nor is a block below it.
pub apart-not_free :
    (mm : Mm) (l o : ℕ) → l < mm.max_level → o < room mm l → IsApart mm l o → is_free mm l o ≡ false
apart-not_free mm l o hl ho a = elim (Bool-cases (is_free mm l o)) [
  | inr no_bit ↦ no_bit
  | inl on ↦ absurd (
      omega (
        arith,
        a (shl o l),
        hit-shl l o,
        hit-le-cover mm.bitmap l o mm.max_level 0 l mm.smallest_block (shl o l) (omega arith) hl ho
            on,
      ))
]

-- What the loop leaves of the block `o` of list `k`: block `r.0` of list `l`, the rest free.
pub record IsSplit (mm : Mm) (k o l : ℕ) (r : ℕ × Mm) : Type 0 where
  pub sound : IsWellFormed r.1
  pub frame : Frame mm r.1
  pub inside : r.0 < room r.1 l
  pub at : (p : ℕ) → free_at r.1 p + hit l p r.0 ≡ free_at mm p + hit k p o
  pub units : free_units r.1 + pages l ≡ free_units mm + pages k

-- One round: the right half is freed.
abbrev halved : Mm → ℕ → ℕ → Mm
halved mm l o = set_bitmap_flag (set_bitmap_flag mm l (o * 2) mm_false) l (o * 2 + 1) mm_true

halved-IsSplit :
    (mm : Mm) (l o : ℕ)
    → IsWellFormed mm
    → suc l < mm.max_level
    → o < room mm (suc l)
    → IsApart mm (suc l) o
    → IsSplit mm (suc l) o l (o * 2, halved mm l o)
halved-IsSplit mm l o w hl ho a = record {
  sound = set-IsWellFormed w₁ l (o * 2 + 1) 1 hl₁ (in₁ (o * 2 + 1) (omega arith));
  frame = Frame-trans f₁ f₂;
  inside = rw (Frame-trans f₁ f₂).blocks (omega arith);
  at = λ p. ground (
    arith,
    free_at-set w l (o * 2) 0 (omega arith) (omega arith) p,
    free_at-set w₁ l (o * 2 + 1) 1 hl₁ (in₁ (o * 2 + 1) (omega arith)) p,
    left_taken,
    right_taken,
    hit-split l p o,
  );
  units = ground (
    arith,
    free_units-set w l (o * 2) 0 (omega arith) (omega arith),
    free_units-set w₁ l (o * 2 + 1) 1 hl₁ (in₁ (o * 2 + 1) (omega arith)),
    left_taken,
    right_taken,
  );
}
  where
    mm₁ : Mm
    mm₁ = set_bitmap_flag mm l (o * 2) mm_false

    f₁ : Frame mm mm₁
    f₁ = set-Frame mm l (o * 2) 0

    f₂ : Frame mm₁ (halved mm l o)
    f₂ = set-Frame mm₁ l (o * 2 + 1) 1

    w₁ : IsWellFormed mm₁
    w₁ = set-IsWellFormed w l (o * 2) 0 (omega arith) (omega arith)

    hl₁ : l < mm₁.max_level
    hl₁ = omega (arith, f₁.levels)

    in₁ : (x : ℕ) → x < room mm l → x < room mm₁ l
    in₁ x h = rw f₁.blocks h

    left_taken : is_free mm l (o * 2) ≡ false
    left_taken =
        apart-not_free mm l (o * 2) (omega arith) (omega arith)
          λ p. omega (arith, a p, hit-split l p o)

    right_taken : is_free mm₁ l (o * 2 + 1) ≡ false
    right_taken = ground (
      arith,
      is_free-set w l (o * 2) 0 (omega arith) (omega arith) l (o * 2 + 1),
      apart-not_free mm l (o * 2 + 1) (omega arith) (omega arith)
          (λ p. omega (arith, a p, hit-split l p o)),
    )

IsSplit-trans :
    {mm : Mm} {k o m l : ℕ} {r s : ℕ × Mm}
    → IsSplit mm k o m r
    → IsSplit r.1 m r.0 l s
    → IsSplit mm k o l s
IsSplit-trans g h = record {
  sound = h.sound;
  frame = Frame-trans g.frame h.frame;
  inside = h.inside;
  at = λ p. omega (arith, g.at p, h.at p);
  units = omega (arith, g.units, h.units);
}

pub split-IsSplit :
    (n : ℕ) (mm : Mm) (k l o : ℕ)
    → k ≡ l + n
    → IsWellFormed mm
    → k < mm.max_level
    → o < room mm k
    → IsApart mm k o
    → IsSplit mm k o l (split mm l n o)
unfolding split
split-IsSplit zero mm k l o e w hk ho a = rw (e₀) (record {
  sound = w;
  frame = Frame-refl mm;
  inside = rw (← e₀) ho;
  at = λ p. refl;
  units = refl;
})
  where
    e₀ : k ≡ l
    e₀ = omega arith
split-IsSplit (suc n) mm k l o e w hk ho a = rw e₁ (
    IsSplit-trans h (
      split-IsSplit n (halved mm (l + n) o) (l + n) l (o * 2) refl h.sound
        (omega (arith, h.frame.levels)) h.inside λ p. omega (arith, h.at p, (rw e₁ at a) p)))
  where
    e₁ : k ≡ suc (l + n)
    e₁ = omega arith

    h : IsSplit mm (suc (l + n)) o (l + n) (o * 2, halved mm (l + n) o)
    h = halved-IsSplit mm (l + n) o w (omega arith) (rw e₁ at ho) (rw e₁ at a)
