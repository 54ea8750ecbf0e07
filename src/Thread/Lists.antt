-- ===== src/Thread/Lists.antt =====
-- The list operations of kernel/thread.c, as it uses those of kernel/list.h: an entry is removed
-- from the list that holds it, and added at the end; the count is kept beside.
use azalea.Prelude.{
  ℕ, suc, ◌+◌, ◌-◌, ◌%◌, ◌^◌, ◌≤◌, ◌≡◌, refl, List, [], ◌∷◌, ◌++◌, ◌==◌, if◌then◌else◌, b2n,
  Bool-cases, inl, inr, arith,
}
use azalea.Thread.State.{ThreadList}

-- `dl_list_del` of an entry in the list
unfoldable pub without : ℕ → List ℕ → List ℕ
without t [] = []
without t (u ∷ l) = let rest = without t l in if u == t then l else u ∷ rest

-- `count--` with `dl_list_del`, and `dl_list_add_tail` with `count++`
unfoldable pub take_out : ℕ → ThreadList → ThreadList
take_out t l = record { count = (l.count + 2 ^ 64 - 1) % 2 ^ 64; tcb_list = without t l.tcb_list }

unfoldable pub put_in : ℕ → ThreadList → ThreadList
put_in t l = record { count = (l.count + 1) % 2 ^ 64; tcb_list = l.tcb_list ++ t ∷ [] }

abbrev pub empty_list : ThreadList
empty_list = record { count = 0; tcb_list = [] }

-- How often a thread stands in a list, and how long the list is.
abbrev pub times : ℕ → List ℕ → ℕ
times t [] = 0
times t (u ∷ l) = b2n (u == t) + times t l

abbrev pub length : List ℕ → ℕ
length [] = 0
length (u ∷ l) = suc (length l)

pub times-append : (t : ℕ) (k l : List ℕ) → times t (k ++ l) ≡ times t k + times t l
times-append t [] l = omega arith
times-append t (u ∷ k) l = omega (arith, times-append t k l)

pub length-append : (k l : List ℕ) → length (k ++ l) ≡ length k + length l
length-append [] l = omega arith
length-append (u ∷ k) l = omega (arith, length-append k l)

-- Taking out an entry that is there changes how often it stands there, and nothing else.
pub times-without :
    (t u : ℕ) (l : List ℕ) → 1 ≤ times t l → times u (without t l) + b2n (t == u) ≡ times u l
unfolding without
times-without t u [] h = absurd (omega (arith, h))
times-without t u (v ∷ l) h = elim (Bool-cases (v == t)) [
  | inl e ↦ rw e (ground arith)
  | inr e ↦ rw e (ground (arith, times-without t u l))
]

pub length-without : (t : ℕ) (l : List ℕ) → 1 ≤ times t l → suc (length (without t l)) ≡ length l
unfolding without
length-without t [] h = absurd (omega (arith, h))
length-without t (v ∷ l) h = elim (Bool-cases (v == t)) [
  | inl e ↦ rw e refl
  | inr e ↦ rw e (ground (arith, length-without t l))
]
