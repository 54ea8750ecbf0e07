-- ===== src/Offload/Refine.antt =====
-- Sequences of operations on the queues of kernel/offload/offload_channel.c, and on lists.
use azalea.Prelude.{
  ℕ, zero, suc, ◌+◌, ◌-◌, ◌≤◌, ◌≡◌, refl, ap, ◌∙◌, true, false, Option, none, some, List, [], ◌∷◌,
  ◌++◌, Bool-cases, inl, inr, leb, ◌==◌, ==_iff, if◌then◌else◌, arith,
}
use azalea.Prelude.Spans.{span, span-none}
use azalea.Offload.Channel.{
  Queue, cq_avail_data, cq_free_space, cq_add_data, cq_remove_data, cq_is_empty,
}
use azalea.Offload.Fifo.{
  IsQueue, count, slot, elements, added, taken, added-IsQueue, taken-IsQueue, added-elements,
  taken-elements, cq_avail_data-count, cq_free_space-count,
}

-- A bounded queue, and what a user does with it: none is an operation that waits.
pub data Op {ℓ} (A : Type ℓ) : Type ℓ where
  add : A → Op A
  remove : Op A

abbrev pub length {ℓ} : {A : Type ℓ} → List A → ℕ
length [] = 0
length (x ∷ l) = suc (length l)

-- The elements that the removals give, in their order, when no operation has to wait.
unfoldable pub run {ℓ} : {A : Type ℓ} → List (Op A) → Queue A → Option (List A)
run [] q = some []
run (add x ∷ ops) q = elim (cq_add_data q x) [ none ↦ none | some q' ↦ run ops q' ]
run (remove ∷ ops) q = elim (cq_remove_data q) [
  | none ↦ none
  | some r ↦ elim (run ops r.1) [ none ↦ none | some l ↦ some (r.0 ∷ l) ]
]

unfoldable pub run_list {ℓ} : {A : Type ℓ} → ℕ → List (Op A) → List A → Option (List A)
run_list room [] l = some []
run_list room (add x ∷ ops) l =
    if leb room (length l) then none else run_list room ops (l ++ x ∷ [])
run_list room (remove ∷ ops) [] = none
run_list room (remove ∷ ops) (x ∷ l) = elim (run_list room ops l) [
  | none ↦ none
  | some k ↦ some (x ∷ k)
]

length-span {ℓ} : {A : Type ℓ} (f : ℕ → A) (a n : ℕ) → length (span f a n) ≡ n
unfolding span
length-span f a zero = refl
length-span f a (suc n) = omega (arith, length-span f (a + 1) n)

pub length-elements {ℓ} : {A : Type ℓ} (q : Queue A) → length (elements q) ≡ count q
unfolding elements
length-elements q = length-span (slot q.slots q.size) q.tail (count q)

add-cases {ℓ} :
    {A : Type ℓ} (q : Queue A) (x : A)
    → IsQueue q
    → cq_add_data q x ≡ (if leb (q.size - 1) (length (elements q)) then none else some (added q x))
unfolding cq_add_data added
add-cases q x i =
    let free = cq_free_space-count q i in
    elim (Bool-cases (leb (q.size - 1) (count q))) [
      | inl e ↦
          let z : cq_free_space q == 0 ≡ true = ground (arith, free) in
          rw (length-elements q) (rw e (rw z refl))
      | inr e ↦
          let z : cq_free_space q == 0 ≡ false = ground (arith, free) in
          rw (length-elements q) (rw e (rw z refl))
    ]

remove-some {ℓ} :
    {A : Type ℓ} (q : Queue A)
    → IsQueue q
    → 1 ≤ count q
    → cq_remove_data q ≡ some (q.slots q.tail, taken q)
unfolding cq_remove_data taken
remove-some q i held =
    let z : cq_avail_data q == 0 ≡ false = ground (arith, cq_avail_data-count q i) in rw z refl

remove-none {ℓ} : {A : Type ℓ} (q : Queue A) → IsQueue q → count q ≡ 0 → cq_remove_data q ≡ none
unfolding cq_remove_data
remove-none q i empty =
    let z : cq_avail_data q == 0 ≡ true = ground (arith, cq_avail_data-count q i) in rw z refl

pub elements-none {ℓ} : {A : Type ℓ} (q : Queue A) → count q ≡ 0 → elements q ≡ []
unfolding elements
elements-none q empty =
    ap (span (slot q.slots q.size) q.tail) empty ∙ span-none (slot q.slots q.size) q.tail

added-size {ℓ} : {A : Type ℓ} (q : Queue A) (x : A) → (added q x).size ≡ q.size
unfolding added
added-size q x = refl

taken-size {ℓ} : {A : Type ℓ} (q : Queue A) → (taken q).size ≡ q.size
unfolding taken
taken-size q = refl

-- For a queue whose size is a power of two of at most 2^30 and whose ends are in the array, any
-- sequence of `cq_add_data` and `cq_remove_data` gives what the same sequence gives on a list of
-- at most one element less than the size: the same elements in the same order, and a wait for the
-- same operation when the list is full or empty.
pub run-run_list {ℓ} :
    {A : Type ℓ} (ops : List (Op A)) (q : Queue A)
    → IsQueue q
    → run ops q ≡ run_list (q.size - 1) ops (elements q)
unfolding run run_list
run-run_list [] q i = refl
run-run_list (add x ∷ ops) q i =
    rw (add-cases q x i, run)
      (elim (Bool-cases (leb (q.size - 1) (length (elements q)))) [
        | inl e ↦ rw e refl
        | inr e ↦ rw e (
            run-run_list ops (added q x) (added-IsQueue q x i)
            ∙ ap (λ n. run_list (n - 1) ops (elements (added q x))) (added-size q x)
            ∙ ap (run_list (q.size - 1) ops)
                (added-elements q x i (ground (arith, length-elements q))))
      ])
run-run_list (remove ∷ ops) q i = elim (Bool-cases (count q == 0)) [
  | inl e ↦
      let empty = (==_iff (count q) 0).0 e in
      rw (remove-none q i empty, run) (rw (elements-none q empty, run_list) refl)
  | inr e ↦
      let held : 1 ≤ count q = ground arith in
      rw (remove-some q i held, run)
        (rw (taken-elements q i held, run_list)
          (ap (λ o. elim o [ none ↦ none | some l ↦ some (q.slots q.tail ∷ l) ])
            (run-run_list ops (taken q) (taken-IsQueue q i)
              ∙ ap (λ n. run_list (n - 1) ops (elements (taken q))) (taken-size q))))
]

-- In such a queue `cq_avail_data` is the number of elements, `cq_free_space` is what is left of
-- one less than the size, and `cq_is_empty` tells whether there is no element.
pub cq_avail_data_lem {ℓ} :
    {A : Type ℓ} (q : Queue A)
    → IsQueue q
    → (cq_avail_data q ≡ length (elements q))
      × (cq_free_space q ≡ q.size - 1 - length (elements q))
      × (cq_is_empty q ≡ (length (elements q) == 0))
unfolding cq_is_empty
cq_avail_data_lem q i =
    rw (length-elements q)
      (cq_avail_data-count q i, cq_free_space-count q i, ground (arith, i.head, i.tail))
