-- ===== src/Thread/Placed.antt =====
-- Where the TCBs of kernel/thread.c stand: the invariant of its lists.
use azalea.Prelude.{
  ℕ, zero, suc, ◌+◌, ◌%◌, ◌^◌, ◌≤◌, ◌<◌, ◌≡◌, refl, Bool, ◌&&◌, Bool-cases, inl, inr, ◌∷◌, [], ltb,
  leb, ◌==◌, if◌then◌else◌, b2n, update, arith,
}
use azalea.Buddy.Total.{sum}
use azalea.Thread.State.{
  ThreadState, notalloc, running, ready, blocked, ThreadList, Sched, max_processor_count,
  config_num_thread,
}
use azalea.Thread.Lists.{
  take_out, put_in, times, length, times-append, times-without, length-without, length-append,
}

-- The number of processors, as a number that does not compute.
unfoldable pub processors : ℕ
processors = max_processor_count

-- How often a thread stands in the lists of the free ones, of those that may run, and of the
-- blocked ones.
abbrev pub free_at : Sched → ℕ → ℕ
free_at s t =
    times t s.global_tcb_list.tcb_list + sum (λ c. times t (s.local_tcb_list c).tcb_list) processors

abbrev pub work_at : Sched → ℕ → ℕ
work_at s t =
    times t s.migrating_list.tcb_list + sum (λ c. times t (s.runnable_list c).tcb_list) processors

abbrev pub wait_at : Sched → ℕ → ℕ
wait_at s t = sum (λ c. times t (s.blocked_list c).tcb_list) processors

-- The TCBs that `thread_init` puts in the lists; the others are those of the idle threads.
abbrev pub is_listed : ℕ → Bool
is_listed t = leb max_processor_count t && ltb t (max_processor_count + config_num_thread)

-- How often a thread in a state is to stand in each kind of list. One that was just made or that
-- has exited stands in none.
abbrev pub in_free : ThreadState → ℕ
in_free notalloc = 1
in_free _ = 0

abbrev pub in_work : ThreadState → ℕ
in_work running = 1
in_work ready = 1
in_work _ = 0

abbrev pub in_wait : ThreadState → ℕ
in_wait blocked = 1
in_wait _ = 0

pub record IsPlaced (s : Sched) (t : ℕ) : Type 0 where
  pub free : free_at s t ≡ (if is_listed t then in_free (s.tcb t).state else 0)
  pub work : work_at s t ≡ (if is_listed t then in_work (s.tcb t).state else 0)
  pub wait : wait_at s t ≡ (if is_listed t then in_wait (s.tcb t).state else 0)

-- The count beside a list is its length, as far as a QWORD goes.
abbrev pub IsCounted : ThreadList → Type 0
IsCounted l = l.count ≡ length l.tcb_list % 2 ^ 64

-- Each TCB stands once in the list of its state and in no other, and the counts are right.
pub record IsSched (s : Sched) : Type 0 where
  pub placed : (t : ℕ) → IsPlaced s t
  pub runnable : (c : ℕ) → IsCounted (s.runnable_list c)
  pub blocked : (c : ℕ) → IsCounted (s.blocked_list c)
  pub local : (c : ℕ) → IsCounted (s.local_tcb_list c)
  pub global : IsCounted s.global_tcb_list
  pub migrating : IsCounted s.migrating_list

pub take_out-IsCounted :
    (t : ℕ) (l : ThreadList) → 1 ≤ times t l.tcb_list → IsCounted l → IsCounted (take_out t l)
unfolding take_out
take_out-IsCounted t l h c = omega (arith, length-without t l.tcb_list h, c)

pub put_in-IsCounted : (t : ℕ) (l : ThreadList) → IsCounted l → IsCounted (put_in t l)
unfolding put_in
put_in-IsCounted t l c = omega (arith, length-append l.tcb_list (t ∷ []), c)

pub times-take_out :
    (t u : ℕ) (l : ThreadList)
    → 1 ≤ times t l.tcb_list
    → times u (take_out t l).tcb_list + b2n (t == u) ≡ times u l.tcb_list
unfolding take_out
times-take_out t u l h = times-without t u l.tcb_list h

pub times-put_in :
    (t u : ℕ) (l : ThreadList) → times u (put_in t l).tcb_list ≡ times u l.tcb_list + b2n (t == u)
unfolding put_in
times-put_in t u l = omega (arith, times-append u l.tcb_list (t ∷ []))

-- One term of a sum.
sum-above :
    (f : ℕ → ThreadList) (c : ℕ) (l : ThreadList) (t n : ℕ)
    → n ≤ c
    → sum (λ k. times t (update f c l k).tcb_list) n ≡ sum (λ k. times t (f k).tcb_list) n
sum-above f c l t zero h = refl
sum-above f c l t (suc n) h = ground (arith, sum-above f c l t n)

pub sum-update :
    (f : ℕ → ThreadList) (c : ℕ) (l : ThreadList) (t n : ℕ)
    → c < n
    → sum (λ k. times t (update f c l k).tcb_list) n + times t (f c).tcb_list
      ≡ sum (λ k. times t (f k).tcb_list) n + times t l.tcb_list
sum-update f c l t zero h = absurd (omega arith)
sum-update f c l t (suc n) h = ground (arith, sum-update f c l t n, sum-above f c l t n)

pub times-le-sum :
    (f : ℕ → ThreadList) (c t n : ℕ)
    → c < n
    → times t (f c).tcb_list ≤ sum (λ k. times t (f k).tcb_list) n
times-le-sum f c t zero h = absurd (omega arith)
times-le-sum f c t (suc n) h = ground (arith, times-le-sum f c t n)

pub update-IsCounted :
    (f : ℕ → ThreadList) (c : ℕ) (l : ThreadList)
    → ((k : ℕ) → IsCounted (f k))
    → IsCounted l
    → (k : ℕ) → IsCounted (update f c l k)
update-IsCounted f c l h e k = elim (Bool-cases (k == c)) [ inl q ↦ rw q e | inr q ↦ rw q (h k) ]
