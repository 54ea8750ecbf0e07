-- ===== src/Buddy/Size.antt =====
-- The block sizes of kernel/memory.c: `align_buddy_block` and `block_list_index`.
use azalea.Prelude.{
  ℕ, zero, suc, ◌+◌, ◌*◌, ◌^◌, ◌≤◌, ◌<◌, ◌≡◌, refl, ◌⊎◌, inl, inr, Option, none, some, Bool-cases,
  ap, ltb, ltb→lt, leb, leb→le, ◌==◌, ==_iff, arith,
}
use azalea.Buddy.{
  Mm, page_min_size, page_shl, align_from, align_buddy_block, index_from, block_list_index,
}
use azalea.Buddy.Counts.{pages, shl-eq-mul}

-- The largest level whose block size an `int` holds.
abbrev pub top_level : ℕ
top_level = 18

pub pages-le : (i n : ℕ) → i ≤ n → pages i ≤ pages n
pages-le zero zero h = omega arith
pages-le zero (suc n) h = omega (arith, pages-le zero n (omega arith))
pages-le (suc i) zero h = absurd (omega arith)
pages-le (suc i) (suc n) h = omega (arith, pages-le i n (omega arith))

pub page_shl-eq : (i : ℕ) → i ≤ top_level → page_shl i ≡ page_min_size * pages i
unfolding page_shl
page_shl-eq i h = ground (arith, shl-eq-mul page_min_size i, pages-le i top_level h)

-- The first level from `i` on, of `n`, whose blocks hold the size.
abbrev IsFirst : ℕ → ℕ → ℕ → Option ℕ → Type 0
IsFirst size i n none = (j : ℕ) → i ≤ j → j < i + n → page_shl j < size
IsFirst size i n (some l) =
    (i ≤ l) × (l < i + n) × (size ≤ page_shl l) × ((j : ℕ) → i ≤ j → j < l → page_shl j < size)

index_from-IsFirst : (size n i : ℕ) → IsFirst size i n (index_from size n i)
unfolding index_from
index_from-IsFirst size zero i = λ j lo hi. absurd (omega arith)
index_from-IsFirst size (suc n) i = elim (Bool-cases (leb size (page_shl i))) [
  | inl fits ↦ rw fits (omega arith, omega arith, leb→le _ _ fits, λ j lo hi. absurd (omega arith))
  | inr over ↦
      rw over
        (extend (index_from size n (i + 1)) (index_from-IsFirst size n (i + 1)) (ground arith))
]
  where
    extend_below :
        (e : ℕ)
        → ((j : ℕ) → i + 1 ≤ j → j < e → page_shl j < size)
        → page_shl i < size
        → (j : ℕ) → i ≤ j
        → j < e
        → page_shl j < size
    extend_below e h over j lo hi = elim (Bool-cases (j == i)) [
      | inl p ↦ rw ((==_iff j i).0 p) over
      | inr p ↦ h j (ground arith) hi
    ]

    extend :
        (o : Option ℕ) → IsFirst size (i + 1) n o → page_shl i < size → IsFirst size i (suc n) o
    extend none h over = λ j lo hi. extend_below (i + 1 + n) h over j lo (omega arith)
    extend (some l) h over = (omega arith, omega arith, h.2, extend_below l h.3 over)

align_from-eq :
    (size n i : ℕ)
    → align_from size n i ≡ elim (index_from size n i) [ none ↦ 0 | some l ↦ page_shl l ]
unfolding align_from index_from
align_from-eq size zero i = refl
align_from-eq size (suc n) i = ground (arith, align_from-eq size n (i + 1))

-- The level `l` is the one for a request of `size` bytes.
pub record IsFit (mm : Mm) (size l : ℕ) : Type 0 where
  pub level : l < mm.max_level
  pub low : l ≤ top_level
  pub enough : size ≤ page_min_size * pages l
  pub tight : (j : ℕ) → j < l → page_min_size * pages j < size
  pub aligned : align_buddy_block mm size ≡ page_min_size * pages l
  pub index : block_list_index mm (page_min_size * pages l) ≡ some l

pages-lt : (i n : ℕ) → i < n → pages i < pages n
pages-lt i zero h = absurd (omega arith)
pages-lt i (suc n) h = omega (arith, pages-le i n (omega arith), pages-le 0 n (omega arith))

low_of_below : (size e : ℕ) → size ≤ 2 ^ 30 → ((j : ℕ) → j < e → page_shl j < size) → e ≤ top_level
low_of_below size e h below = elim (Bool-cases (leb e top_level)) [
  | inl low ↦ leb→le e top_level low
  | inr high ↦
      absurd (omega (arith, below top_level (ground arith), page_shl-eq top_level (omega arith)))
]

index_from-fit :
    (n l : ℕ) → l < n → l ≤ top_level → index_from (page_min_size * pages l) n 0 ≡ some l
index_from-fit n l hn hl =
    pick (index_from (page_min_size * pages l) n 0)
      (index_from-IsFirst (page_min_size * pages l) n 0)
  where
    pick : (o : Option ℕ) → IsFirst (page_min_size * pages l) 0 n o → o ≡ some l
    pick none h = absurd (omega (arith, h l (omega arith) (omega arith), page_shl-eq l hl))
    pick (some k) h = elim (Bool-cases (k == l)) [
      | inl e ↦ ap some ((==_iff k l).0 e)
      | inr e ↦ elim (Bool-cases (ltb k l)) [
        | inl lt ↦ absurd (
            omega (
              arith,
              page_shl-eq k (omega (arith, ltb→lt k l lt)),
              pages-lt k l (ltb→lt k l lt),
              h.2,
            ))
        | inr ge ↦ absurd (omega (arith, h.3 l (omega arith) (ground arith), page_shl-eq l hl))
      ]
    ]

-- What a request of at most 1 GB comes to: the smallest block that holds it, or 0 when no list
-- has one.
pub align_buddy_block-IsFit :
    (mm : Mm) (size : ℕ)
    → size ≤ 2 ^ 30
    → ((l : ℕ) × IsFit mm size l)
      ⊎ ((align_buddy_block mm size ≡ 0)
          × ((j : ℕ) → j < mm.max_level → page_min_size * pages j < size))
unfolding align_buddy_block block_list_index
align_buddy_block-IsFit mm size h =
    pick (index_from size mm.max_level 0) refl (index_from-IsFirst size mm.max_level 0)
  where
    pick :
        (o : Option ℕ)
        → index_from size mm.max_level 0 ≡ o
        → IsFirst size 0 mm.max_level o
        → ((l : ℕ) × IsFit mm size l)
          ⊎ ((align_buddy_block mm size ≡ 0)
              × ((j : ℕ) → j < mm.max_level → page_min_size * pages j < size))
    pick none e f = inr (
      rw (align_from-eq size mm.max_level 0, e) refl,
      λ j hj. omega (
        arith,
        f j (omega arith) (omega arith),
        page_shl-eq j (
            omega
              (arith, low_of_below size mm.max_level h λ k hk. f k (omega arith) (omega arith))),
      ),
    )
    pick (some l) e f = inl (
      l,
      record {
        level = omega (arith, f.1);
        low = low;
        enough = omega (arith, f.2, page_shl-eq l low);
        tight = λ j hj. omega (arith, f.3 j (omega arith) hj, page_shl-eq j (omega (arith, low)));
        aligned = rw (align_from-eq size mm.max_level 0, e) (page_shl-eq l low);
        index = index_from-fit mm.max_level l (omega (arith, f.1)) low;
      },
    )
      where
        low : l ≤ top_level
        low = low_of_below size l h (λ k hk. f.3 k (omega arith) hk)
