-- ===== src/Thread/Clones.antt =====
-- What `create_thread` of kernel/thread.c comes to.
use azalea.Prelude.{
  ℕ, ◌+◌, ◌-◌, ◌%◌, ◌^◌, ◌<◌, ◌≡◌, ◌≢◌, refl, ap, ◌∙◌, Bool, true, false, Option, some, Bool-cases,
  inl, inr, ◌==◌, ==_iff, ==_refl, leb, arith,
}
use azalea.Buddy.Api.{Memory, az_alloc}
use azalea.Thread.State.{
  notalloc, created, ready, Sched, set_tcb, config_stack_size, max_processor_count,
  config_num_thread,
}
use azalea.Thread.Tcbs.{alloc_tcb, get_tcb, put_tcb, drop_ref, init_tcb_create}
use azalea.Thread.Placed.{
  processors, is_listed, IsSched, times-put_in, put_in-IsCounted, in_free, in_work, in_wait,
}
use azalea.Thread.Create.{Code, prepare, enlist, create_taken, create_thread}
use azalea.Thread.Moves.{set_tcb-IsSched, outside-IsNowhere}
use azalea.Thread.Ends.{counters-IsSched, drop_ref-IsSched}
use azalea.Thread.Starts.{IsTaken, alloc_tcb-IsTaken}

-- No list depends on the memory.
memory-IsSched : (s : Sched) (m : Memory) → IsSched s → IsSched (record s { memory = m })
memory-IsSched s m i = record {
  placed =
      λ u. record { free = (i.placed u).free; work = (i.placed u).work; wait = (i.placed u).wait };
  runnable = i.runnable;
  blocked = i.blocked;
  local = i.local;
  global = i.global;
  migrating = i.migrating;
}

prepare-IsSched :
    (code : Code) (s : Sched) (t ip argv : ℕ) (core : Option ℕ)
    → IsSched s
    → IsSched (prepare code s t ip argv core)
unfolding prepare init_tcb_create
prepare-IsSched code s t ip argv core i =
    let r = az_alloc s.memory config_stack_size in
    let s' = init_tcb_create (record s { memory = r.1 }) t (r.0) in
    let first : IsSched s' =
      set_tcb-IsSched (record s { memory = r.1 }) t _ refl refl refl (memory-IsSched s r.1 i) in
    memory-IsSched (set_tcb s' t _) ((prepare code s t ip argv core).memory)
      (set_tcb-IsSched s' t _ refl refl refl first)

prepare-same :
    (code : Code) (s : Sched) (t ip argv : ℕ) (core : Option ℕ)
    → (((prepare code s t ip argv core).tcb t).state ≡ (s.tcb t).state)
      × (((prepare code s t ip argv core).tcb t).refc ≡ (s.tcb t).refc)
unfolding prepare init_tcb_create
prepare-same code s t ip argv core = rw (==_refl t) (refl, refl)

enlist-IsSched :
    (s : Sched) (t : ℕ)
    → is_listed t ≡ true
    → (s.tcb t).state ≡ created
    → IsSched s
    → IsSched (enlist s t)
unfolding enlist
enlist-IsSched s t hl e i =
    let w = outside-IsNowhere s t (ap in_free e) (ap in_work e) (ap in_wait e) (i.placed t) in
    record {
      placed = λ u.
          let put = times-put_in t u s.migrating_list in
          elim (Bool-cases (u == t)) [
            | inl e ↦ record {
              free = ground (arith, w.free, ==_iff u t);
              work = ground (arith, w.work, put, hl, ==_iff u t);
              wait = ground (arith, w.wait, ==_iff u t);
            }
            | inr e ↦ record {
              free = ground (arith, (i.placed u).free);
              work = ground (arith, (i.placed u).work);
              wait = ground (arith, (i.placed u).wait);
            }
          ];
      runnable = i.runnable;
      blocked = i.blocked;
      local = i.local;
      global = i.global;
      migrating = put_in-IsCounted t s.migrating_list i.migrating;
    }

-- A TCB that was taken is found by `get_tcb`.
got : Sched → ℕ → Sched
got s t = set_tcb s t (record (s.tcb t) { refc = ((s.tcb t).refc + 1) % 2 ^ 32 })

get_tcb-got :
    (s : Sched) (t : ℕ)
    → is_listed t ≡ true
    → (s.tcb t).state ≡ created
    → get_tcb s t ≡ some (got s t)
unfolding get_tcb got
get_tcb-got s t hl e =
    let h : leb (max_processor_count + config_num_thread) t ≡ false = ground arith in rw (h, e) refl

got-IsSched : (s : Sched) (t : ℕ) → IsSched s → IsSched (got s t)
unfolding got
got-IsSched s t i = set_tcb-IsSched s t _ refl refl refl i

got-same :
    (s : Sched) (t : ℕ)
    → (((got s t).tcb t).state ≡ (s.tcb t).state)
      × (((got s t).tcb t).refc ≡ ((s.tcb t).refc + 1) % 2 ^ 32)
unfolding got
got-same s t = rw (==_refl t) (refl, refl)

-- What is made of a taken TCB.
made : Code → Sched → ℕ → ℕ → ℕ → Option ℕ → Sched
made code s t ip argv core = drop_ref (enlist (prepare code (got s t) t ip argv core) t) t

made-IsSched :
    (code : Code) (s s1 : Sched) (t ip argv : ℕ) (core : Option ℕ)
    → IsTaken s t s1
    → IsSched (made code s1 t ip argv core)
unfolding made
made-IsSched code s s1 t ip argv core k = drop_ref-IsSched _ t (
    enlist-IsSched _ t k.listed
      ((prepare-same code (got s1 t) t ip argv core).0 ∙ (got-same s1 t).0 ∙ k.state)
      (prepare-IsSched code _ t ip argv core (got-IsSched s1 t k.sched)))

enlisted :
    (s : Sched) (t : ℕ)
    → (((enlist s t).tcb t).state ≡ ready) × (((enlist s t).tcb t).refc ≡ (s.tcb t).refc)
unfolding enlist
enlisted s t = rw (==_refl t) (refl, refl)

dropped :
    (s : Sched) (t : ℕ)
    → (((drop_ref s t).tcb t).state ≡ (s.tcb t).state)
      × (((drop_ref s t).tcb t).refc ≡ ((s.tcb t).refc + 2 ^ 32 - 1) % 2 ^ 32)
unfolding drop_ref
dropped s t = rw (==_refl t) (refl, refl)

-- The two references of the thread that is made: that of `alloc_tcb` and that of `get_tcb`.
refc-two :
    (code : Code) (s s1 : Sched) (t ip argv : ℕ) (core : Option ℕ)
    → IsTaken s t s1
    → ((enlist (prepare code (got s1 t) t ip argv core) t).tcb t).refc ≡ 2
refc-two code s s1 t ip argv core k =
    (enlisted _ t).1
    ∙ (prepare-same code (got s1 t) t ip argv core).1
    ∙ (got-same s1 t).1
    ∙ ap (λ n. (n + 1) % 2 ^ 32) k.refc

made-state :
    (code : Code) (s s1 : Sched) (t ip argv : ℕ) (core : Option ℕ)
    → IsTaken s t s1
    → ((made code s1 t ip argv core).tcb t).state ≡ ready
unfolding made
made-state code s s1 t ip argv core k = (dropped _ t).0 ∙ (enlisted _ t).0

made-refc :
    (code : Code) (s s1 : Sched) (t ip argv : ℕ) (core : Option ℕ)
    → IsTaken s t s1
    → ((made code s1 t ip argv core).tcb t).refc ≡ 1
unfolding made
made-refc code s s1 t ip argv core k =
    (dropped _ t).1 ∙ ap (λ n. (n + 2 ^ 32 - 1) % 2 ^ 32) (refc-two code s s1 t ip argv core k)

create_taken-made :
    (code : Code) (cpu : ℕ) (free : Bool) (s s1 : Sched) (t ip argv : ℕ) (core : Option ℕ)
    → IsTaken s t s1
    → create_taken code cpu free ip argv core (some (t, s1))
      ≡ some (
        t,
        record (made code s1 t ip argv core) {
          thread_cnt = ((made code s1 t ip argv core).thread_cnt + 1) % 2 ^ 32;
        },
      )
unfolding create_taken put_tcb made
create_taken-made code cpu free s s1 t ip argv core k =
    rw (get_tcb-got s1 t k.listed k.state, create_taken)
      (rw (refc-two code s s1 t ip argv core k, put_tcb) refl)

-- No step after `init_tcb_create` changes the base of the stack.
prepared-stack :
    (code : Code) (s : Sched) (t ip argv : ℕ) (core : Option ℕ)
    → ((prepare code s t ip argv core).tcb t).stack_base
      ≡ (az_alloc s.memory config_stack_size).0 + config_stack_size
unfolding prepare init_tcb_create
prepared-stack code s t ip argv core = rw (==_refl t) refl

enlisted-stack : (s : Sched) (t : ℕ) → ((enlist s t).tcb t).stack_base ≡ (s.tcb t).stack_base
unfolding enlist
enlisted-stack s t = rw (==_refl t) refl

dropped-stack : (s : Sched) (t : ℕ) → ((drop_ref s t).tcb t).stack_base ≡ (s.tcb t).stack_base
unfolding drop_ref
dropped-stack s t = rw (==_refl t) refl

made-stack :
    (code : Code) (s : Sched) (t ip argv : ℕ) (core : Option ℕ)
    → ((made code s t ip argv core).tcb t).stack_base
      ≡ (az_alloc s.memory config_stack_size).0 + config_stack_size
unfolding made got
made-stack code s t ip argv core =
    dropped-stack _ t ∙ enlisted-stack _ t ∙ prepared-stack code (got s t) t ip argv core

-- What `create_thread` makes of a TCB that was free in `s`: a ready thread with one reference, whose
-- stack begins at `base`, in a state where every TCB stands in the list of its state.
pub record IsCreated (s : Sched) (t base : ℕ) (s' : Sched) : Type 0 where
  pub before : (s.tcb t).state ≡ notalloc
  pub state : (s'.tcb t).state ≡ ready
  pub refc : (s'.tcb t).refc ≡ 1
  pub stack : (s'.tcb t).stack_base ≡ base + config_stack_size
  pub sched : IsSched s'

-- When every TCB stands in the list of its state, `alloc_tcb` finds a free TCB and `az_alloc` has
-- memory for a stack after that, `create_thread` returns the thread: its TCB was not in use before,
-- is ready with one reference and with the allocated stack after, and every TCB stands in the list
-- of its state.
pub create_thread-ready :
    (code : Code) (cpu : ℕ) (free : Bool) (s s1 : Sched) (t ip argv : ℕ) (core : Option ℕ)
    → cpu < processors
    → IsSched s
    → alloc_tcb cpu s ≡ some (t, s1)
    → (az_alloc s1.memory config_stack_size).0 ≢ 0
    → (s' : Sched) × (create_thread code cpu free s ip argv core ≡ some (t, s'))
      × IsCreated s t ((az_alloc s1.memory config_stack_size).0) s'
unfolding create_thread
create_thread-ready code cpu free s s1 t ip argv core hc i e h =
    let k = alloc_tcb-IsTaken cpu s s1 t hc i e in
    let m = made code s1 t ip argv core in
    (
      record m { thread_cnt = (m.thread_cnt + 1) % 2 ^ 32 },
      rw e (create_taken-made code cpu free s s1 t ip argv core k),
      record {
        before = k.before;
        state = made-state code s s1 t ip argv core k;
        refc = made-refc code s s1 t ip argv core k;
        stack = made-stack code s1 t ip argv core;
        sched =
            counters-IsSched m m.exit_thread_cnt ((m.thread_cnt + 1) % 2 ^ 32)
              (made-IsSched code s s1 t ip argv core k);
      },
    )
