-- ===== src/Thread/Ends.antt =====
-- The end of a thread in kernel/thread.c: it leaves the list of its state, and when its last
-- reference goes, its TCB is free again.
use azalea.Prelude.{
  ℕ, ◌+◌, ◌-◌, ◌%◌, ◌^◌, ◌<◌, ◌≡◌, refl, ◌∙◌, Bool, true, ◌&&◌, some, Bool-cases, ◌⊎◌, inl, inr,
  ◌==◌, ==_iff, ltb, arith,
}
use mathlib.Core.Path.{subst}
use azalea.Thread.State.{
  ThreadState, notalloc, created, running, ready, blocked, exited, Sched, set_local, set_global,
}
use azalea.Thread.Lists.{put_in, empty_list, times-append, length-append}
use azalea.Thread.Tcbs.{
  is_state, init_tcb_destroy, append_local, file_tcb, destroy_tcb, drop_ref, put_tcb,
}
use azalea.Thread.Placed.{
  processors, is_listed, IsSched, put_in-IsCounted, times-put_in, sum-update, update-IsCounted,
}
use azalea.Thread.Moves.{exited-IsNowhere, set_tcb-IsSched}

-- The processor's list is empty after it was appended to the global one.
append_local-IsSched :
    (cpu : ℕ) (s : Sched) → cpu < processors → IsSched s → IsSched (append_local cpu s)
unfolding append_local
append_local-IsSched cpu s hc i = record {
  placed = λ u.
      let put = times-append u s.global_tcb_list.tcb_list (s.local_tcb_list cpu).tcb_list in
      let l = sum-update s.local_tcb_list cpu empty_list u processors hc in
      record {
        free = ground (arith, (i.placed u).free);
        work = (i.placed u).work;
        wait = (i.placed u).wait;
      };
  runnable = i.runnable;
  blocked = i.blocked;
  local = update-IsCounted s.local_tcb_list cpu empty_list i.local (omega arith);
  global = omega (
    arith,
    length-append s.global_tcb_list.tcb_list (s.local_tcb_list cpu).tcb_list,
    i.global,
    i.local cpu,
  );
  migrating = i.migrating;
}

-- A TCB put in a free list, whose thread has exited and is made free after that.
freed-local :
    (cpu : ℕ) (s : Sched) (t : ℕ)
    → cpu < processors
    → is_listed t ≡ true
    → (s.tcb t).state ≡ exited
    → IsSched s
    → IsSched (init_tcb_destroy (set_local s cpu (put_in t (s.local_tcb_list cpu))) t)
unfolding init_tcb_destroy
freed-local cpu s t hc hl he i = record {
  placed = λ u.
      let w = exited-IsNowhere s t he (i.placed t) in
      let put = times-put_in t u (s.local_tcb_list cpu) in
      let l = sum-update s.local_tcb_list cpu (put_in t (s.local_tcb_list cpu)) u processors hc in
      elim (Bool-cases (u == t)) [
        | inl e ↦ record {
          free = ground (arith, w.free, put, l, ==_iff u t, hl);
          work = ground (arith, w.work, ==_iff u t);
          wait = ground (arith, w.wait, ==_iff u t);
        }
        | inr e ↦ record {
          free = ground (arith, (i.placed u).free);
          work = ground (arith, (i.placed u).work);
          wait = ground (arith, (i.placed u).wait);
        }
      ];
  runnable = i.runnable;
  blocked = i.blocked;
  local =
      update-IsCounted s.local_tcb_list cpu (put_in t (s.local_tcb_list cpu)) i.local
        (put_in-IsCounted t (s.local_tcb_list cpu) (i.local cpu));
  global = i.global;
  migrating = i.migrating;
}

freed-global :
    (s : Sched) (t : ℕ)
    → is_listed t ≡ true
    → (s.tcb t).state ≡ exited
    → IsSched s
    → IsSched (init_tcb_destroy (set_global s (put_in t s.global_tcb_list)) t)
unfolding init_tcb_destroy
freed-global s t hl he i = record {
  placed = λ u.
      let w = exited-IsNowhere s t he (i.placed t) in
      let put = times-put_in t u s.global_tcb_list in
      elim (Bool-cases (u == t)) [
        | inl e ↦ record {
          free = ground (arith, w.free, put, ==_iff u t, hl);
          work = ground (arith, w.work, ==_iff u t);
          wait = ground (arith, w.wait, ==_iff u t);
        }
        | inr e ↦ record {
          free = ground (arith, (i.placed u).free);
          work = ground (arith, (i.placed u).work);
          wait = ground (arith, (i.placed u).wait);
        }
      ];
  runnable = i.runnable;
  blocked = i.blocked;
  local = i.local;
  global = put_in-IsCounted t s.global_tcb_list i.global;
  migrating = i.migrating;
}

freed-appended :
    (cpu : ℕ) (s : Sched) (t : ℕ)
    → cpu < processors
    → is_listed t ≡ true
    → (s.tcb t).state ≡ exited
    → IsSched s
    → IsSched (
        init_tcb_destroy
          (set_local (append_local cpu s) cpu (put_in t ((append_local cpu s).local_tcb_list cpu)))
          t)
unfolding append_local
freed-appended cpu s t hc hl he i =
    freed-local cpu (append_local cpu s) t hc hl he (append_local-IsSched cpu s hc i)

filed-IsSched :
    (cpu : ℕ) (free : Bool) (s : Sched) (t : ℕ)
    → cpu < processors
    → is_listed t ≡ true
    → (s.tcb t).state ≡ exited
    → IsSched s
    → IsSched (init_tcb_destroy (file_tcb cpu free s t) t)
unfolding file_tcb
filed-IsSched cpu free s t hc hl he i =
    elim (Bool-cases (ltb 1 (s.local_tcb_list cpu).count && free)) [
      | inl e ↦ rw e (freed-global s t hl he i)
      | inr e ↦ rw e (elim (Bool-cases (ltb 4 (s.local_tcb_list cpu).count)) [
        | inl more ↦ rw more (freed-appended cpu s t hc hl he i)
        | inr few ↦ rw few (freed-local cpu s t hc hl he i)
      ])
    ]

-- No list depends on the numbers of threads.
pub counters-IsSched :
    (s : Sched) (m n : ℕ) → IsSched s → IsSched (record s { exit_thread_cnt = m; thread_cnt = n })
counters-IsSched s m n i = record {
  placed =
      λ u. record { free = (i.placed u).free; work = (i.placed u).work; wait = (i.placed u).wait };
  runnable = i.runnable;
  blocked = i.blocked;
  local = i.local;
  global = i.global;
  migrating = i.migrating;
}

destroy_tcb-IsSched :
    (cpu : ℕ) (free : Bool) (s : Sched) (t : ℕ)
    → cpu < processors
    → is_listed t ≡ true
    → (s.tcb t).state ≡ exited
    → IsSched s
    → IsSched (destroy_tcb cpu free s t)
unfolding destroy_tcb
destroy_tcb-IsSched cpu free s t hc hl he i =
    counters-IsSched (init_tcb_destroy (file_tcb cpu free s t) t) _ _
      (filed-IsSched cpu free s t hc hl he i)

pub drop_ref-IsSched : (s : Sched) (t : ℕ) → IsSched s → IsSched (drop_ref s t)
unfolding drop_ref
drop_ref-IsSched s t i =
    set_tcb-IsSched s t (record (s.tcb t) { refc = ((s.tcb t).refc + 2 ^ 32 - 1) % 2 ^ 32 }) refl
      refl refl i

pub is_state-eq : (a b : ThreadState) → is_state a b ≡ true → a ≡ b
is_state-eq notalloc notalloc h = refl
is_state-eq created created h = refl
is_state-eq running running h = refl
is_state-eq ready ready h = refl
is_state-eq blocked blocked h = refl
is_state-eq exited exited h = refl
is_state-eq _ _ h = absurd (ground arith)

drop_ref-state : (s : Sched) (t u : ℕ) → ((drop_ref s t).tcb u).state ≡ (s.tcb u).state
unfolding drop_ref
drop_ref-state s t u = ground arith

-- What `put_tcb` comes to.
pub put_tcb-cases :
    (cpu : ℕ) (free : Bool) (s s' : Sched) (t : ℕ)
    → put_tcb cpu free s t ≡ some s'
    → ((s.tcb t).state ≡ exited) × (destroy_tcb cpu free (drop_ref s t) t ≡ s')
      ⊎ (drop_ref s t ≡ s')
unfolding put_tcb
put_tcb-cases cpu free s s' t h = elim (Bool-cases ((s.tcb t).refc == 1)) [
  | inr e ↦ inr grind arith
  | inl e ↦ elim (Bool-cases (is_state (s.tcb t).state exited)) [
    | inl x ↦ inl (is_state-eq _ exited x, grind arith)
    | inr x ↦ elim (Bool-cases (is_state (s.tcb t).state notalloc)) [
      | inl n ↦ inr grind arith
      | inr n ↦ absurd grind arith
    ]
  ]
]

pub put_tcb-IsSched :
    (cpu : ℕ) (free : Bool) (s s' : Sched) (t : ℕ)
    → cpu < processors
    → is_listed t ≡ true
    → IsSched s
    → put_tcb cpu free s t ≡ some s'
    → IsSched s'
put_tcb-IsSched cpu free s s' t hc hl i h = elim (put_tcb-cases cpu free s s' t h) [
  | inl (e, q) ↦
      subst (λ s. IsSched s) q
        (destroy_tcb-IsSched cpu free (drop_ref s t) t hc hl (drop_ref-state s t t ∙ e)
          (drop_ref-IsSched s t i))
  | inr q ↦ subst (λ s. IsSched s) q (drop_ref-IsSched s t i)
]

-- The lists of threads that may run and of blocked ones do not depend on `put_tcb`.
file_tcb-lists :
    (cpu : ℕ) (free : Bool) (s : Sched) (t : ℕ)
    → ((file_tcb cpu free s t).runnable_list ≡ s.runnable_list)
      × ((file_tcb cpu free s t).blocked_list ≡ s.blocked_list)
unfolding file_tcb append_local
file_tcb-lists cpu free s t = elim (Bool-cases (ltb 1 (s.local_tcb_list cpu).count && free)) [
  | inl e ↦ rw e (refl, refl)
  | inr e ↦ rw e (elim (Bool-cases (ltb 4 (s.local_tcb_list cpu).count)) [
    | inl more ↦ rw more (refl, refl)
    | inr few ↦ rw few (refl, refl)
  ])
]

pub put_tcb-lists :
    (cpu : ℕ) (free : Bool) (s s' : Sched) (t : ℕ)
    → put_tcb cpu free s t ≡ some s'
    → (s'.runnable_list ≡ s.runnable_list) × (s'.blocked_list ≡ s.blocked_list)
unfolding destroy_tcb init_tcb_destroy drop_ref
put_tcb-lists cpu free s s' t h = elim (put_tcb-cases cpu free s s' t h) [
  | inl (e, q) ↦
      subst (λ s'. (s'.runnable_list ≡ s.runnable_list) × (s'.blocked_list ≡ s.blocked_list)) q
        (file_tcb-lists cpu free _ t)
  | inr q ↦
      subst (λ s'. (s'.runnable_list ≡ s.runnable_list) × (s'.blocked_list ≡ s.blocked_list)) q
        (refl, refl)
]
