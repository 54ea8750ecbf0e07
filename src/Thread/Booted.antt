-- ===== src/Thread/Booted.antt =====
-- What `sched_init` and `thread_init` of kernel/thread.c leave.
use azalea.Prelude.{
  ℕ, zero, suc, ◌+◌, ◌*◌, ◌≤◌, ◌≡◌, ◌≢◌, refl, sym, ap, ◌∙◌, true, ◌&&◌, some, Bool-cases, inl, inr,
  ◌==◌, ==_iff, ltb, leb, b2n, update, arith,
}
use azalea.Buddy.Total.{sum}
use azalea.Buddy.Api.{Memory, az_alloc}
use azalea.Thread.State.{
  notalloc, Tcb, ThreadList, Sched, set_global, max_processor_count, config_num_thread,
  page_size_4k,
}
use azalea.Thread.Lists.{times, empty_list}
use azalea.Thread.Placed.{processors, is_listed, IsSched, IsCounted, times-put_in, put_in-IsCounted}
use azalea.Thread.Boot.{
  sched_init, sched_init_from, thread_init, init_local_lists, init_tcbs, init_idle_threads, zeroed,
}

-- No list of a processor holds a thread, nor does the migrating one.
record IsBlank (s : Sched) : Type 0 where
  runnable : (c : ℕ) → s.runnable_list c ≡ empty_list
  blocked : (c : ℕ) → s.blocked_list c ≡ empty_list
  local : (c : ℕ) → s.local_tcb_list c ≡ empty_list
  migrating : s.migrating_list ≡ empty_list

update-empty :
    (f : ℕ → ThreadList) (i c : ℕ) → f c ≡ empty_list → update f i empty_list c ≡ empty_list
update-empty f i c h = elim (Bool-cases (c == i)) [ inl e ↦ rw e refl | inr e ↦ rw e h ]

sched_init_from-IsBlank : (n : ℕ) (s : Sched) → IsBlank s → IsBlank (sched_init_from n s)
unfolding sched_init_from
sched_init_from-IsBlank zero s b = b
sched_init_from-IsBlank (suc n) s b =
    let k = sched_init_from-IsBlank n s b in
    record {
      runnable = λ c. update-empty (sched_init_from n s).runnable_list n c (k.runnable c);
      blocked = λ c. update-empty (sched_init_from n s).blocked_list n c (k.blocked c);
      local = k.local;
      migrating = k.migrating;
    }

init_local_lists-IsBlank : (n : ℕ) (s : Sched) → IsBlank s → IsBlank (init_local_lists n s)
unfolding init_local_lists
init_local_lists-IsBlank zero s b = b
init_local_lists-IsBlank (suc n) s b =
    let k = init_local_lists-IsBlank n s b in
    record {
      runnable = k.runnable;
      blocked = k.blocked;
      local = λ c. update-empty (init_local_lists n s).local_tcb_list n c (k.local c);
      migrating = k.migrating;
    }

init_local_lists-global :
    (n : ℕ) (s : Sched) → (init_local_lists n s).global_tcb_list ≡ s.global_tcb_list
unfolding init_local_lists
init_local_lists-global zero s = refl
init_local_lists-global (suc n) s = init_local_lists-global n s

-- What the first `n` TCBs of the loop leave.
record IsFilling (n : ℕ) (s : Sched) : Type 0 where
  blank : IsBlank s
  times :
      (t : ℕ)
      → times t s.global_tcb_list.tcb_list
        ≡ b2n (leb max_processor_count t && ltb t (max_processor_count + n))
  count : IsCounted s.global_tcb_list
  state :
      (t : ℕ)
      → leb max_processor_count t && ltb t (max_processor_count + n) ≡ true
      → (s.tcb t).state ≡ notalloc

init_tcbs-IsFilling :
    (n : ℕ) (s : Sched) → IsBlank s → s.global_tcb_list ≡ empty_list → IsFilling n (init_tcbs n s)
unfolding init_tcbs
init_tcbs-IsFilling zero s b e = record {
  blank = b;
  times = λ t. rw e (ground arith);
  count = rw e (omega arith);
  state = λ t h. absurd (ground arith);
}
init_tcbs-IsFilling (suc n) s b e =
    let k = init_tcbs-IsFilling n s b e in
    let s' = init_tcbs n s in
    record {
      blank = record {
        runnable = k.blank.runnable;
        blocked = k.blank.blocked;
        local = k.blank.local;
        migrating = k.blank.migrating;
      };
      times = λ t.
          ground (arith, k.times t, times-put_in (max_processor_count + n) t s'.global_tcb_list);
      count = put_in-IsCounted (max_processor_count + n) s'.global_tcb_list k.count;
      state = λ t h. elim (Bool-cases (t == max_processor_count + n)) [
        | inl y ↦ rw y refl
        | inr x ↦ rw x (k.state t (ground arith))
      ];
    }

init_idle_threads-IsFilling :
    (i n : ℕ) (s : Sched)
    → i ≤ max_processor_count
    → IsFilling n s
    → IsFilling n (init_idle_threads i s)
unfolding init_idle_threads
init_idle_threads-IsFilling zero n s h f = f
init_idle_threads-IsFilling (suc i) n s h f =
    let k = init_idle_threads-IsFilling i n s (omega arith) f in
    record {
      blank = record {
        runnable = k.blank.runnable;
        blocked = k.blank.blocked;
        local = k.blank.local;
        migrating = k.blank.migrating;
      };
      times = k.times;
      count = k.count;
      state = λ t g. elim (Bool-cases (t == i)) [
        | inl y ↦ absurd (ground arith)
        | inr x ↦ rw x (k.state t g)
      ];
    }

blank-sum :
    (f : ℕ → ThreadList) (t n : ℕ)
    → ((c : ℕ) → f c ≡ empty_list)
    → sum (λ c. times t (f c).tcb_list) n ≡ 0
blank-sum f t zero h = refl
blank-sum f t (suc n) h = rw (h n) (omega (arith, blank-sum f t n h))

filled-IsSched : (s : Sched) → IsFilling config_num_thread s → IsSched s
filled-IsSched s f = record {
  placed = λ t.
      let r = blank-sum s.runnable_list t processors f.blank.runnable in
      let b = blank-sum s.blocked_list t processors f.blank.blocked in
      let l = blank-sum s.local_tcb_list t processors f.blank.local in
      let m : times t s.migrating_list.tcb_list ≡ 0 = rw f.blank.migrating refl in
      elim (Bool-cases (is_listed t)) [
        | inl e ↦ record {
          free = rw (e, f.state t e) (ground (arith, f.times t));
          work = rw (e, f.state t e) (omega (arith, r, m));
          wait = rw (e, f.state t e) b;
        }
        | inr e ↦ record {
          free = rw e (ground (arith, f.times t));
          work = rw e (omega (arith, r, m));
          wait = rw e b;
        }
      ];
  runnable = λ c. rw (f.blank.runnable c) refl;
  blocked = λ c. rw (f.blank.blocked c) refl;
  local = λ c. rw (f.blank.local c) refl;
  global = f.count;
  migrating = rw f.blank.migrating refl;
}

sched_init_from-memory : (n : ℕ) (s : Sched) → (sched_init_from n s).memory ≡ s.memory
unfolding sched_init_from
sched_init_from-memory zero s = refl
sched_init_from-memory (suc n) s = sched_init_from-memory n s

init_local_lists-memory : (n : ℕ) (s : Sched) → (init_local_lists n s).memory ≡ s.memory
unfolding init_local_lists
init_local_lists-memory zero s = refl
init_local_lists-memory (suc n) s = init_local_lists-memory n s

-- The state that the loop over the TCBs starts with.
cleared : (ℕ → Tcb) → Memory → Sched
cleared tcbs m =
    init_local_lists max_processor_count (set_global (sched_init (zeroed tcbs m)) empty_list)

cleared-memory : (tcbs : ℕ → Tcb) (m : Memory) → (cleared tcbs m).memory ≡ m
unfolding cleared sched_init
cleared-memory tcbs m =
    init_local_lists-memory max_processor_count (set_global (sched_init (zeroed tcbs m)) empty_list)
    ∙ sched_init_from-memory max_processor_count (zeroed tcbs m)

cleared-IsBlank : (tcbs : ℕ → Tcb) (m : Memory) → IsBlank (cleared tcbs m)
unfolding cleared sched_init
cleared-IsBlank tcbs m =
    let k =
      sched_init_from-IsBlank max_processor_count (zeroed tcbs m) (record {
        runnable = λ c. refl;
        blocked = λ c. refl;
        local = λ c. refl;
        migrating = refl;
      }) in
    init_local_lists-IsBlank max_processor_count _
      (record { runnable = k.runnable; blocked = k.blocked; local = k.local; migrating = refl })

cleared-global : (tcbs : ℕ → Tcb) (m : Memory) → (cleared tcbs m).global_tcb_list ≡ empty_list
unfolding cleared
cleared-global tcbs m = init_local_lists-global max_processor_count _

based :
    (s : Sched) (a : ℕ) (m : Memory)
    → IsBlank s
    → IsBlank (record s { tcb_base_addr = a; memory = m })
based s a m b = record {
  runnable = b.runnable;
  blocked = b.blocked;
  local = b.local;
  migrating = b.migrating;
}

-- What the start leaves: the TCBs of the range from `max_processor_count` on are free and stand once
-- each in the global list, no other list holds a thread, and so every TCB is in its place.
pub record IsBooted (s : Sched) : Type 0 where
  pub free : (t : ℕ) → is_listed t ≡ true → (s.tcb t).state ≡ notalloc
  pub global : (t : ℕ) → times t s.global_tcb_list.tcb_list ≡ b2n (is_listed t)
  pub runnable : (c : ℕ) → s.runnable_list c ≡ empty_list
  pub blocked : (c : ℕ) → s.blocked_list c ≡ empty_list
  pub local : (c : ℕ) → s.local_tcb_list c ≡ empty_list
  pub migrating : s.migrating_list ≡ empty_list
  pub sched : IsSched s

filled-IsBooted : (s : Sched) → IsFilling config_num_thread s → IsBooted s
filled-IsBooted s f = record {
  free = f.state;
  global = f.times;
  runnable = f.blank.runnable;
  blocked = f.blank.blocked;
  local = f.blank.local;
  migrating = f.blank.migrating;
  sched = filled-IsSched s f;
}

-- From zeroed globals, and whatever the memory of the TCBs holds, when `az_alloc` gives memory for
-- the TCBs, `sched_init` and `thread_init` do not halt and leave a state in which each TCB that is
-- not of an idle thread is free and stands exactly once in the global list, which holds nothing
-- else, the other lists are empty, and every TCB stands in the list of its state.
pub thread_init-IsBooted :
    (tcbs : ℕ → Tcb) (m : Memory)
    → (az_alloc m (page_size_4k * config_num_thread)).0 ≢ 0
    → (s : Sched) × (thread_init (sched_init (zeroed tcbs m)) ≡ some s) × IsBooted s
unfolding thread_init cleared
thread_init-IsBooted tcbs m h =
    let s = cleared tcbs m in
    let r = az_alloc s.memory (page_size_4k * config_num_thread) in
    elim (Bool-cases (r.0 == 0)) [
      | inl z ↦ absurd (
          h (
            ap (λ m. (az_alloc m (page_size_4k * config_num_thread)).0)
              (sym (cleared-memory tcbs m))
            ∙ (==_iff r.0 0).0 z))
      | inr n ↦ (
        init_idle_threads max_processor_count
            (init_tcbs config_num_thread (record s { tcb_base_addr = r.0; memory = r.1 })),
        rw (n, thread_init) refl,
        filled-IsBooted _ (
            init_idle_threads-IsFilling max_processor_count config_num_thread _ (omega arith) (
              init_tcbs-IsFilling config_num_thread _ (based s r.0 r.1 (cleared-IsBlank tcbs m))
                (cleared-global tcbs m))),
      )
    ]
