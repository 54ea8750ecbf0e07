-- ===== src/Offload/Fifo.antt =====
-- The circular queues of kernel/offload/offload_channel.c are bounded queues.
use native.Mathlib.Nat.{
  mul_assoc, pow-suc, pow-le-pow_right, mod-eq_of_lt, mod_self, add-mul-mod_self_left, mul-suc,
}
use azalea.Prelude.{
  ℕ, zero, suc, ◌+◌, ◌-◌, ◌*◌, ◌%◌, ◌^◌, ◌≤◌, ◌<◌, ◌≡◌, refl, sym, ap, ◌∙◌, false, List, [], ◌∷◌,
  ◌++◌, Bool-cases, inl, inr, ltb, leb, ◌==◌, ==_iff, if◌then◌else◌, update, update-same, arith,
}
use azalea.Prelude.Masks.{bit_and-mask, pow_pos}
use azalea.Prelude.Spans.{span, span-split, span-same, span-one, span-suc}
use azalea.Offload.Channel.{Queue, cq_avail_data, cq_free_space}

-- The size is a power of two, of at most 2^30, and the ends are in the array.
pub record IsQueue {ℓ} {A : Type ℓ} (q : Queue A) : Type ℓ where
  pub bits : ℕ
  pub some_bits : 1 ≤ bits
  pub few_bits : bits ≤ 30
  pub size : q.size ≡ 2 ^ bits
  pub head : q.head < q.size
  pub tail : q.tail < q.size

-- How many elements a queue holds, and which, from the tail on.
abbrev pub count {ℓ} : {A : Type ℓ} → Queue A → ℕ
count q = if leb q.tail q.head then q.head - q.tail else q.head + q.size - q.tail

abbrev pub slot {ℓ} : {A : Type ℓ} → (ℕ → A) → ℕ → ℕ → A
slot slots size a = slots (if ltb a size then a else a - size)

unfoldable pub elements {ℓ} : {A : Type ℓ} → Queue A → List A
elements q = span (slot q.slots q.size) q.tail (count q)

pow_split : (k j : ℕ) → (z : ℕ) × (2 ^ (j + k) ≡ 2 ^ k * suc z)
pow_split k zero = let e : zero + k ≡ k = omega arith in (0, ap (λ n. 2 ^ n) e ∙ omega arith)
pow_split k (suc j) =
    let (z, h) = pow_split k j in
    let e : suc j + k ≡ suc (j + k) = omega arith in
    let twice : suc z * 2 ≡ suc (z * 2 + 1) = omega arith in
    (
      z * 2 + 1,
      ap (λ n. 2 ^ n) e
          ∙ pow-suc 2 (j + k)
          ∙ ap (λ n. n * 2) h
          ∙ mul_assoc (2 ^ k) (suc z) 2
          ∙ ap (λ n. 2 ^ k * n) twice,
    )

-- The difference of the ends, taken modulo 2^64 and then modulo the size.
wrapped :
    (k h t : ℕ)
    → k ≤ 30
    → h < 2 ^ k
    → t < 2 ^ k
    → (h + 2 ^ 64 - t) % 2 ^ 64 % 2 ^ k ≡ (if leb t h then h - t else h + 2 ^ k - t)
wrapped k h t few hh ht =
    let small : 2 ^ k ≤ 2 ^ 30 = pow-le-pow_right (omega arith) few in
    elim (Bool-cases (leb t h)) [
      | inl e ↦
          let x : (h + 2 ^ 64 - t) % 2 ^ 64 ≡ h - t = ground (arith, small) in
          rw (e, x) (mod-eq_of_lt (omega (arith, hh)))
      | inr e ↦
          let (z, p) = pow_split k (64 - k) in
          let bits : 64 - k + k ≡ 64 = omega arith in
          let all : 2 ^ 64 ≡ 2 ^ k * z + 2 ^ k =
            sym (ap (λ n. 2 ^ n) bits) ∙ p ∙ mul-suc (2 ^ k) z in
          let x : (h + 2 ^ 64 - t) % 2 ^ 64 ≡ h + 2 ^ k - t + 2 ^ k * z =
            ground (arith, small, all) in
          rw (e, x) (add-mul-mod_self_left (h + 2 ^ k - t) (2 ^ k) z ∙ mod-eq_of_lt (ground arith))
    ]

pub cq_avail_data-count {ℓ} : {A : Type ℓ} (q : Queue A) → IsQueue q → cq_avail_data q ≡ count q
unfolding cq_avail_data
cq_avail_data-count q i =
    let small : 2 ^ i.bits ≤ 2 ^ 30 = pow-le-pow_right (omega arith) i.few_bits in
    let mask : (q.size + 2 ^ 64 - 1) % 2 ^ 64 ≡ 2 ^ i.bits - 1 =
      omega (arith, small, i.size, pow_pos i.bits) in
    let w =
      wrapped i.bits q.head q.tail i.few_bits (omega (arith, i.head, i.size))
        (omega (arith, i.tail, i.size)) in
    let m = bit_and-mask ((q.head + 2 ^ 64 - q.tail) % 2 ^ 64) i.bits in
    rw (mask, m, w) (ground (arith, i.size, i.head, i.tail, small))

next_slot : (a size : ℕ) → a < size → (a + 1) % size ≡ (if a + 1 == size then 0 else a + 1)
next_slot a size h = elim (Bool-cases (a + 1 == size)) [
  | inl e ↦
      let same : a + 1 ≡ size = (==_iff (a + 1) size).0 e in
      rw e (ap (λ n. n % size) same ∙ mod_self size)
  | inr n ↦ rw n (mod-eq_of_lt (ground arith))
]

pub cq_free_space-count {ℓ} :
    {A : Type ℓ} (q : Queue A) → IsQueue q → cq_free_space q ≡ q.size - 1 - count q
unfolding cq_free_space
cq_free_space-count q i =
    let small : 2 ^ i.bits ≤ 2 ^ 30 = pow-le-pow_right (omega arith) i.few_bits in
    rw (cq_avail_data-count q i) (ground (arith, small, i.size, i.head, i.tail, pow_pos i.bits))

-- A queue with room takes an element at its end.
unfoldable pub added {ℓ} : {A : Type ℓ} → Queue A → A → Queue A
added q value = record q { slots = update q.slots q.head value; head = (q.head + 1) % q.size }

pub added-IsQueue {ℓ} : {A : Type ℓ} (q : Queue A) (value : A) → IsQueue q → IsQueue (added q value)
unfolding added
added-IsQueue q value i = record {
  bits = i.bits;
  some_bits = i.some_bits;
  few_bits = i.few_bits;
  size = i.size;
  head = rw (next_slot q.head q.size i.head) (ground (arith, i.head));
  tail = i.tail;
}

added-count {ℓ} :
    {A : Type ℓ} (q : Queue A) (value : A)
    → IsQueue q
    → count q + 1 < q.size
    → count (added q value) ≡ count q + 1
unfolding added
added-count q value i room = rw (next_slot q.head q.size i.head) (ground (arith, i.head, i.tail))

kept {ℓ} :
    {A : Type ℓ} (q : Queue A) (value : A)
    → IsQueue q
    → (j : ℕ) → j < count q
    → slot (added q value).slots q.size (q.tail + j) ≡ slot q.slots q.size (q.tail + j)
unfolding added
kept q value i j h =
    let at = if ltb (q.tail + j) q.size then q.tail + j else q.tail + j - q.size in
    let apart : at == q.head ≡ false = ground (arith, h, i.head, i.tail) in rw apart refl

newest {ℓ} :
    {A : Type ℓ} (q : Queue A) (value : A)
    → IsQueue q
    → slot (added q value).slots q.size (q.tail + count q) ≡ value
unfolding added
newest q value i =
    let at : (if ltb (q.tail + count q) q.size then q.tail + count q else q.tail + count q - q.size)
        ≡ q.head =
      ground (arith, i.head, i.tail) in
    rw at (update-same q.slots q.head value)

pub added-elements {ℓ} :
    {A : Type ℓ} (q : Queue A) (value : A)
    → IsQueue q
    → count q + 1 < q.size
    → elements (added q value) ≡ elements q ++ value ∷ []
unfolding elements added
added-elements q value i room =
    let f = slot (added q value).slots q.size in
    let old : span f q.tail (count q) ≡ span (slot q.slots q.size) q.tail (count q) =
      span-same f (slot q.slots q.size) q.tail q.tail (count q) (λ j h. kept q value i j h) in
    let new : f (q.tail + count q) ≡ value = newest q value i in
    ap (span f q.tail) (added-count q value i room)
    ∙ span-split f q.tail (count q) 1
    ∙ ap (λ k. k ++ span f (q.tail + count q) 1) old
    ∙ ap (λ k. span (slot q.slots q.size) q.tail (count q) ++ k)
        (span-one f (q.tail + count q) ∙ ap (λ x. x ∷ []) new)

-- A queue that holds an element gives its first one.
unfoldable pub taken {ℓ} : {A : Type ℓ} → Queue A → Queue A
taken q = record q { tail = (q.tail + 1) % q.size }

pub taken-IsQueue {ℓ} : {A : Type ℓ} (q : Queue A) → IsQueue q → IsQueue (taken q)
unfolding taken
taken-IsQueue q i = record {
  bits = i.bits;
  some_bits = i.some_bits;
  few_bits = i.few_bits;
  size = i.size;
  head = i.head;
  tail = rw (next_slot q.tail q.size i.tail) (ground (arith, i.tail));
}

taken-count {ℓ} :
    {A : Type ℓ} (q : Queue A) → IsQueue q → 1 ≤ count q → count q ≡ suc (count (taken q))
unfolding taken
taken-count q i held = rw (next_slot q.tail q.size i.tail) (ground (arith, i.head, i.tail))

rest {ℓ} :
    {A : Type ℓ} (q : Queue A)
    → IsQueue q
    → 1 ≤ count q
    → (j : ℕ) → j < count (taken q)
    → slot q.slots q.size (q.tail + 1 + j) ≡ slot q.slots q.size ((taken q).tail + j)
unfolding taken
rest q i held j h =
    let next = next_slot q.tail q.size i.tail in
    let same : (if ltb (q.tail + 1 + j) q.size then q.tail + 1 + j else q.tail + 1 + j - q.size) ≡ (
        if ltb ((q.tail + 1) % q.size + j) q.size
        then (q.tail + 1) % q.size + j
        else (q.tail + 1) % q.size + j - q.size) =
      ground (arith, next, h, i.head, i.tail) in
    ap q.slots same

tails {ℓ} :
    {A : Type ℓ} (q : Queue A)
    → IsQueue q
    → 1 ≤ count q
    → span (slot q.slots q.size) (q.tail + 1) (count (taken q)) ≡ elements (taken q)
unfolding elements taken
tails q i held =
    span-same (slot q.slots q.size) (slot q.slots q.size) (q.tail + 1) (taken q).tail
      (count (taken q)) (rest q i held)

pub taken-elements {ℓ} :
    {A : Type ℓ} (q : Queue A)
    → IsQueue q
    → 1 ≤ count q
    → elements q ≡ q.slots q.tail ∷ elements (taken q)
unfolding elements
taken-elements q i held =
    let f = slot q.slots q.size in
    let first : f q.tail ≡ q.slots q.tail = ground (arith, i.tail) in
    ap (span f q.tail) (taken-count q i held)
    ∙ span-suc f q.tail (count (taken q))
    ∙ ap (λ x. x ∷ span f (q.tail + 1) (count (taken q))) first
    ∙ ap (λ k. q.slots q.tail ∷ k) (tails q i held)
