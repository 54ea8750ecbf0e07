-- ===== src/Offload/Channel.antt =====
-- The circular queues of kernel/offload/offload_channel.c, for elements of any type. A head and a
-- tail are an `int` that the size bounds.
use azalea.Prelude.{
  ℕ, ◌+◌, ◌-◌, ◌%◌, ◌^◌, Bool, Option, none, some, ◌==◌, if◌then◌else◌, update, bit_and,
}

-- `struct circular_queue`. The locks are not used by the functions of this file.
pub record Queue {ℓ} (A : Type ℓ) : Type ℓ where
  pub head : ℕ
  pub tail : ℕ
  pub size : ℕ
  pub slots : ℕ → A

-- `cq_init`
unfoldable pub cq_init {ℓ} : {A : Type ℓ} → Queue A → ℕ → Queue A
cq_init q size = record q { head = 0; tail = 0; size = size }

-- `cq_avail_data`: the difference is one of `int`s that is made an unsigned long.
unfoldable pub cq_avail_data {ℓ} : {A : Type ℓ} → Queue A → ℕ
cq_avail_data q =
    bit_and ((q.head + 2 ^ 64 - q.tail) % 2 ^ 64) ((q.size + 2 ^ 64 - 1) % 2 ^ 64) % 2 ^ 32

-- `cq_free_space`
unfoldable pub cq_free_space {ℓ} : {A : Type ℓ} → Queue A → ℕ
cq_free_space q = (q.size + 2 ^ 64 - 1 - cq_avail_data q) % 2 ^ 32

-- `cq_is_full` and `cq_is_empty`
unfoldable pub cq_is_full {ℓ} : {A : Type ℓ} → Queue A → Bool
cq_is_full q = (q.tail + 1) % q.size == q.head

unfoldable pub cq_is_empty {ℓ} : {A : Type ℓ} → Queue A → Bool
cq_is_empty q = q.head == q.tail

-- `cq_add_data` and `cq_remove_data`; none is the loop that waits, which ends only when another
-- processor changes the queue.
unfoldable pub cq_add_data {ℓ} : {A : Type ℓ} → Queue A → A → Option (Queue A)
cq_add_data q value =
    if cq_free_space q == 0
    then none
    else some (record q { slots = update q.slots q.head value; head = (q.head + 1) % q.size })

unfoldable pub cq_remove_data {ℓ} : {A : Type ℓ} → Queue A → Option (A × Queue A)
cq_remove_data q =
    if cq_avail_data q == 0
    then none
    else some (q.slots q.tail, record q { tail = (q.tail + 1) % q.size })
