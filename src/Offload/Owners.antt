-- ===== src/Offload/Owners.antt =====
-- Which thread a message of kernel/offload/offload_message.c is of, and what one call does to the
-- elements of its queue.
use azalea.Prelude.{
  ℕ, ◌+◌, ◌*◌, ◌%◌, ◌^◌, ◌≤◌, ◌<◌, ◌≡◌, refl, false, some, Bool-cases, inl, inr, ltb, ◌==◌, ==_iff,
  if◌then◌else◌, arith,
}
use azalea.Prelude.Words.{extend_int}
use azalea.Offload.Channel.{Queue, cq_avail_data, cq_free_space}
use azalea.Offload.Fifo.{IsQueue, count, added, taken, cq_avail_data-count, cq_free_space-count}
use azalea.Offload.Message.{
  Packet, Request, offload_tid, owner, fill_packet, fill_answer, send_offload_message, send_answer,
  take_packet, reschedule, schedule_to, received, receive_offload_message,
}

-- The bits that an `int` keeps.
pub extend_int-mod : (v : ℕ) → extend_int v % 2 ^ 32 ≡ v % 2 ^ 32
unfolding extend_int
extend_int-mod v = elim (Bool-cases (ltb (v % 2 ^ 32) (2 ^ 31))) [
  | inl e ↦ rw e (omega arith)
  | inr e ↦ rw e (omega arith)
]

extend_int-bound : (v : ℕ) → extend_int v < 2 ^ 64
unfolding extend_int
extend_int-bound v = elim (Bool-cases (ltb (v % 2 ^ 32) (2 ^ 31))) [
  | inl e ↦ rw e (omega arith)
  | inr e ↦ rw e (omega arith)
]

pub owner-bound : (ukid : ℕ) (p : Packet) → owner ukid p < 2 ^ 32
unfolding owner
owner-bound ukid p = omega arith

-- The owner depends on the `int` that the field keeps.
pub owner_same :
    (ukid : ℕ) (p p' : Packet) → p.tid % 2 ^ 32 ≡ p'.tid % 2 ^ 32 → owner ukid p ≡ owner ukid p'
unfolding owner
owner_same ukid p p' e = omega (arith, extend_int-bound (ukid * 10000))

pub owner-fill_packet :
    (ukid tid : ℕ) (r : Request) (slot : Packet)
    → tid < 2 ^ 32
    → owner ukid (fill_packet ukid tid r slot) ≡ tid
unfolding owner fill_packet offload_tid
owner-fill_packet ukid tid r slot h = omega (
  arith,
  extend_int-mod ((ukid * 10000 + tid) % 2 ^ 32),
  extend_int-mod (ukid * 10000),
  extend_int-bound (ukid * 10000),
)

pub owner-fill_answer :
    (ukid type ret : ℕ) (p slot : Packet)
    → owner ukid (fill_answer (p.tid % 2 ^ 32) type ret slot) ≡ owner ukid p
unfolding fill_answer
owner-fill_answer ukid type ret p slot =
    let new = fill_answer (p.tid % 2 ^ 32) type ret slot in
    owner_same ukid new p (omega (arith, extend_int-mod (p.tid % 2 ^ 32)))

-- The test of `receive_offload_message`.
pub owner_iff :
    (ukid tid : ℕ) (p : Packet)
    → tid < 2 ^ 32
    → (p.tid % 2 ^ 32 == offload_tid ukid tid) ≡ (owner ukid p == tid)
unfolding owner offload_tid
owner_iff ukid tid p h =
    ground (arith, extend_int-mod (ukid * 10000), extend_int-bound (ukid * 10000))

-- A call that adds a packet found room for it.
pub send_offload_message-some :
    (ukid : ℕ) (q q' : Queue Packet) (tid : ℕ) (r : Request)
    → IsQueue q
    → send_offload_message ukid q tid r ≡ some q'
    → (q' ≡ added q (fill_packet ukid tid r (q.slots q.head))) × (count q + 1 < q.size)
unfolding send_offload_message added
send_offload_message-some ukid q q' tid r i e = elim (Bool-cases (cq_free_space q == 0)) [
  | inl z ↦ absurd (grind arith)
  | inr z ↦ (grind arith, ground (arith, cq_free_space-count q i))
]

pub send_answer-some :
    (q q' : Queue Packet) (tid type ret : ℕ)
    → IsQueue q
    → send_answer q tid type ret ≡ some q'
    → (q' ≡ added q (fill_answer tid type ret (q.slots q.head))) × (count q + 1 < q.size)
unfolding send_answer added
send_answer-some q q' tid type ret i e = elim (Bool-cases (cq_free_space q == 0)) [
  | inl z ↦ absurd (grind arith)
  | inr z ↦ (grind arith, ground (arith, cq_free_space-count q i))
]

pub take_packet-some :
    (q q' : Queue Packet) (p : Packet)
    → IsQueue q
    → take_packet q ≡ some (p, q')
    → (p ≡ q.slots q.tail) × (q' ≡ taken q) × (1 ≤ count q)
unfolding take_packet taken
take_packet-some q q' p i e = elim (Bool-cases (cq_avail_data q == 0)) [
  | inl z ↦ absurd (grind arith)
  | inr z ↦ (grind arith, grind arith, ground (arith, cq_avail_data-count q i))
]

-- The three results of a look at the queue.
pub receive_offload_message-cases :
    (ukid : ℕ) (q : Queue Packet) (tid : ℕ)
    → IsQueue q
    → tid < 2 ^ 32
    → receive_offload_message ukid q tid ≡ (
        if count q == 0
        then reschedule
        else if owner ukid (q.slots q.tail) == tid
        then received (q.slots q.tail).ret (taken q)
        else schedule_to (owner ukid (q.slots q.tail)))
unfolding receive_offload_message taken
receive_offload_message-cases ukid q tid i h =
    rw (cq_avail_data-count q i, owner_iff ukid tid (q.slots q.tail) h) refl

pub receive_offload_message-received :
    (ukid : ℕ) (q q' : Queue Packet) (tid ret : ℕ)
    → IsQueue q
    → tid < 2 ^ 32
    → receive_offload_message ukid q tid ≡ received ret q'
    → (ret ≡ (q.slots q.tail).ret)
      × (q' ≡ taken q)
      × (owner ukid (q.slots q.tail) ≡ tid)
      × (1 ≤ count q)
receive_offload_message-received ukid q q' tid ret i h e =
    let cases = receive_offload_message-cases ukid q tid i h in
    elim (Bool-cases (count q == 0)) [
      | inl z ↦ absurd (grind arith)
      | inr z ↦ elim (Bool-cases (owner ukid (q.slots q.tail) == tid)) [
        | inl mine ↦ (
          grind arith,
          grind arith,
          (==_iff (owner ukid (q.slots q.tail)) tid).0 mine,
          ground arith,
        )
        | inr other ↦ absurd (grind arith)
      ]
    ]

pub take_packet-held :
    (q : Queue Packet) → IsQueue q → 1 ≤ count q → take_packet q ≡ some (q.slots q.tail, taken q)
unfolding take_packet taken
take_packet-held q i held =
    let test : cq_avail_data q == 0 ≡ false = ground (arith, cq_avail_data-count q i) in
    rw test refl

pub send_answer-room :
    (q : Queue Packet) (tid type ret : ℕ)
    → IsQueue q
    → count q + 1 < q.size
    → send_answer q tid type ret ≡ some (added q (fill_answer tid type ret (q.slots q.head)))
unfolding send_answer added
send_answer-room q tid type ret i room =
    let test : cq_free_space q == 0 ≡ false = ground (arith, cq_free_space-count q i) in
    rw test refl
