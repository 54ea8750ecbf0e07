-- ===== src/Thread/Visits.antt =====
-- One round of the first loop of `select_next_thread` of kernel/thread.c.
use mathlib.Core.Path.{subst}
use azalea.Prelude.{
  ℕ, ◌+◌, ◌≤◌, ◌<◌, ◌≡◌, ◌≢◌, refl, sym, ap, ◌∙◌, Bool, true, false, ◌&&◌, Option, some, Bool-cases,
  Option-cases, inl, inr, ◌==◌, ==_iff, ==_refl, ne→==, ltb, b2n, arith,
}
use azalea.Thread.State.{running, ready, Tcb, Sched, has_flag, intention_exited, intention_blocked}
use azalea.Thread.{core_is_allowed}
use azalea.Thread.Lists.{times}
use azalea.Thread.Tcbs.{
  init_tcb_destroy, append_local, file_tcb, destroy_tcb, drop_ref, put_tcb, thread_exit,
}
use azalea.Thread.Placed.{processors, in_free, in_work, in_wait, IsSched, times-take_out}
use azalea.Thread.Select.{
  block_thread, exit_runnable, migrate_out, pick_thread, consider, available_next, wants_refill,
  idle, go_on, visit, refill,
}
use azalea.Thread.Ends.{is_state-eq, put_tcb-cases}
use azalea.Thread.Moves.{set_tcb-IsSched, block_thread-IsSched, migrate_out-IsSched}
use azalea.Thread.Exits.{exit_runnable-IsSched, exit_runnable-runnable}

-- What a round for a thread leaves of the other threads and of the list, and what it does not do
-- to the thread itself.
pub record IsRound (cpu t : ℕ) (s s' : Sched) : Type 0 where
  pub sched : cpu < processors → IsSched s → IsSched s'
  pub still :
      (u : ℕ)
      → times u (s.runnable_list cpu).tcb_list
        ≤ times u (s'.runnable_list cpu).tcb_list + b2n (t == u)
  pub fewer :
      (u : ℕ) → times u (s'.runnable_list cpu).tcb_list ≤ times u (s.runnable_list cpu).tcb_list
  pub other : (u : ℕ) → u ≢ t → s'.tcb u ≡ s.tcb u
  pub full : wants_refill (s.tcb t) ≡ false → wants_refill (s'.tcb t) ≡ false
  pub quantum : (s'.tcb t).time_quantum ≡ (s.tcb t).time_quantum
  pub slice : (s'.tcb t).time_slice ≡ (s.tcb t).time_slice

pub same-IsRound : (cpu t : ℕ) (s : Sched) → IsRound cpu t s s
same-IsRound cpu t s = record {
  sched = λ c i. i;
  still = λ u. omega arith;
  fewer = λ u. omega arith;
  other = λ u n. refl;
  full = λ e. e;
  quantum = refl;
  slice = refl;
}

pub block_thread-IsRound :
    (cpu : ℕ) (s : Sched) (t : ℕ)
    → 1 ≤ times t (s.runnable_list cpu).tcb_list
    → IsRound cpu t s (block_thread cpu s t)
unfolding block_thread
block_thread-IsRound cpu s t h = record {
  sched = λ c i. block_thread-IsSched cpu s t c i h;
  still = λ u. ground (arith, ==_refl cpu, times-take_out t u (s.runnable_list cpu) h);
  fewer = λ u. ground (arith, ==_refl cpu, times-take_out t u (s.runnable_list cpu) h);
  other = λ u n. rw (ne→== u t n) refl;
  full = λ e. rw (==_refl t) refl;
  quantum = rw (==_refl t) refl;
  slice = rw (==_refl t) refl;
}

pub migrate_out-IsRound :
    (cpu : ℕ) (s : Sched) (t : ℕ)
    → 1 ≤ times t (s.runnable_list cpu).tcb_list
    → IsRound cpu t s (migrate_out cpu s t)
unfolding migrate_out
migrate_out-IsRound cpu s t h = record {
  sched = λ c i. migrate_out-IsSched cpu s t c i h;
  still = λ u. ground (arith, ==_refl cpu, times-take_out t u (s.runnable_list cpu) h);
  fewer = λ u. ground (arith, ==_refl cpu, times-take_out t u (s.runnable_list cpu) h);
  other = λ u n. refl;
  full = λ e. e;
  quantum = refl;
  slice = refl;
}

pick_thread-IsSched :
    (cid : ℕ) (s : Sched) (t : ℕ)
    → (s.tcb t).state ≡ ready
    → IsSched s
    → IsSched (pick_thread cid s t)
unfolding pick_thread
pick_thread-IsSched cid s t r i =
    let j =
      set_tcb-IsSched s t (record (s.tcb t) { state = running }) (sym (ap in_free r))
        (sym (ap in_work r)) (sym (ap in_wait r)) i in
    record {
      placed = λ u. record {
        free = (j.placed u).free;
        work = (j.placed u).work;
        wait = (j.placed u).wait;
      };
      runnable = j.runnable;
      blocked = j.blocked;
      local = j.local;
      global = j.global;
      migrating = j.migrating;
    }

pub pick_thread-IsRound :
    (cpu cid : ℕ) (s : Sched) (t : ℕ)
    → (s.tcb t).state ≡ ready
    → IsRound cpu t s (pick_thread cid s t)
unfolding pick_thread
pick_thread-IsRound cpu cid s t r = record {
  sched = λ c i. pick_thread-IsSched cid s t r i;
  still = λ u. omega arith;
  fewer = λ u. omega arith;
  other = λ u n. rw (ne→== u t n) refl;
  full = λ e. rw (==_refl t) refl;
  quantum = rw (==_refl t) refl;
  slice = rw (==_refl t) refl;
}

-- What `put_tcb` leaves of the TCBs.
record IsPut (t : ℕ) (s s' : Sched) : Type 0 where
  other : (u : ℕ) → u ≢ t → s'.tcb u ≡ s.tcb u
  full : wants_refill (s.tcb t) ≡ false → wants_refill (s'.tcb t) ≡ false
  quantum : (s'.tcb t).time_quantum ≡ (s.tcb t).time_quantum
  slice : (s'.tcb t).time_slice ≡ (s.tcb t).time_slice

file_tcb-tcb : (cpu : ℕ) (free : Bool) (s : Sched) (t : ℕ) → (file_tcb cpu free s t).tcb ≡ s.tcb
unfolding file_tcb append_local
file_tcb-tcb cpu free s t = elim (Bool-cases (ltb 1 (s.local_tcb_list cpu).count && free)) [
  | inl e ↦ rw e refl
  | inr e ↦ rw e (elim (Bool-cases (ltb 4 (s.local_tcb_list cpu).count)) [
    | inl more ↦ rw more refl
    | inr few ↦ rw few refl
  ])
]

drop_ref-IsPut : (s : Sched) (t : ℕ) → IsPut t s (drop_ref s t)
unfolding drop_ref
drop_ref-IsPut s t = record {
  other = λ u n. rw (ne→== u t n) refl;
  full = λ e. rw (==_refl t) e;
  quantum = rw (==_refl t) refl;
  slice = rw (==_refl t) refl;
}

destroy_tcb-IsPut :
    (cpu : ℕ) (free : Bool) (s : Sched) (t : ℕ) → IsPut t s (destroy_tcb cpu free (drop_ref s t) t)
unfolding destroy_tcb init_tcb_destroy
destroy_tcb-IsPut cpu free s t =
    let d = drop_ref-IsPut s t in
    let same = file_tcb-tcb cpu free (drop_ref s t) t in
    record {
      other = λ u n. rw (ne→== u t n) (ap (λ f. f u) same ∙ d.other u n);
      full = λ e. rw (==_refl t) refl;
      quantum = rw (==_refl t) (ap (λ f. (f t).time_quantum) same ∙ d.quantum);
      slice = rw (==_refl t) (ap (λ f. (f t).time_slice) same ∙ d.slice);
    }

put_tcb-IsPut :
    (cpu : ℕ) (free : Bool) (s s' : Sched) (t : ℕ) → put_tcb cpu free s t ≡ some s' → IsPut t s s'
put_tcb-IsPut cpu free s s' t h = elim (put_tcb-cases cpu free s s' t h) [
  | inl (e, q) ↦ subst (λ s'. IsPut t s s') q (destroy_tcb-IsPut cpu free s t)
  | inr q ↦ subst (λ s'. IsPut t s s') q (drop_ref-IsPut s t)
]

pub exit_runnable-IsRound :
    (cpu : ℕ) (free : Bool) (s s' : Sched) (t : ℕ)
    → 1 ≤ times t (s.runnable_list cpu).tcb_list
    → exit_runnable cpu free s t ≡ some s'
    → IsRound cpu t s s'
unfolding exit_runnable thread_exit
exit_runnable-IsRound cpu free s s' t h e =
    let p = put_tcb-IsPut cpu free _ s' t e in
    let l = exit_runnable-runnable cpu free s s' t e in
    record {
      sched = λ c i. exit_runnable-IsSched cpu free s s' t c i h e;
      still = λ u. rw l (omega (arith, times-take_out t u (s.runnable_list cpu) h));
      fewer = λ u. rw l (omega (arith, times-take_out t u (s.runnable_list cpu) h));
      other = λ u n. p.other u n ∙ rw (ne→== u t n) refl;
      full = λ e. p.full (rw (==_refl t) refl);
      quantum = p.quantum ∙ rw (==_refl t) refl;
      slice = p.slice ∙ rw (==_refl t) refl;
    }

available-ready : (tcb : Tcb) → available_next tcb ≡ true → tcb.state ≡ ready
available-ready tcb h = is_state-eq tcb.state ready (ground arith)

-- A round for a thread that has no request.
pub consider-IsRound :
    (cpu cid : ℕ) (free : Bool) (found : Option ℕ) (s : Sched) (t : ℕ)
    → 1 ≤ times t (s.runnable_list cpu).tcb_list
    → IsRound cpu t s (consider cpu cid free found s t).1
unfolding consider
consider-IsRound cpu cid free found s t h = elim (Bool-cases (available_next (s.tcb t))) [
  | inr e ↦ rw e (same-IsRound cpu t s)
  | inl e ↦ rw e (elim (Bool-cases (core_is_allowed (s.tcb t).core_mask cid)) [
    | inl allowed ↦ rw allowed (elim (Option-cases found) [
      | inl n ↦ rw n (pick_thread-IsRound cpu cid s t (available-ready (s.tcb t) e))
      | inr (u, o) ↦ rw o (same-IsRound cpu t s)
    ])
    | inr other ↦ rw other (elim (Bool-cases free) [
      | inl f ↦ rw f (migrate_out-IsRound cpu s t h)
      | inr f ↦ rw f (same-IsRound cpu t s)
    ])
  ])
]

-- What a round comes to when the loop goes on after it.
pub visit-IsRound :
    (cpu cid : ℕ) (free : Bool) (found found' : Option ℕ) (s s' : Sched) (t : ℕ)
    → 1 ≤ times t (s.runnable_list cpu).tcb_list
    → visit cpu cid free found s t ≡ some (go_on found' s')
    → IsRound cpu t s s'
unfolding visit
visit-IsRound cpu cid free found found' s s' t h e =
    elim (Bool-cases (has_flag (s.tcb t).intention intention_exited)) [
      | inl x ↦ elim (Bool-cases (s.running_thread cpu == t)) [
        | inl r ↦ elim (Option-cases (refill s cid)) [
          | inl n ↦ absurd (grind arith)
          | inr (u, o) ↦ absurd (grind arith)
        ]
        | inr r ↦ elim (Option-cases (exit_runnable cpu free s t)) [
          | inl n ↦ absurd (grind arith)
          | inr (s1, o) ↦ exit_runnable-IsRound cpu free s s' t h (grind arith)
        ]
      ]
      | inr x ↦ elim (Bool-cases (has_flag (s.tcb t).intention intention_blocked)) [
        | inl b ↦ subst (λ s'. IsRound cpu t s s') (grind arith) (block_thread-IsRound cpu s t h)
        | inr b ↦
            subst (λ s'. IsRound cpu t s s') (grind arith)
              (consider-IsRound cpu cid free found s t h)
      ]
    ]

-- The loop is left for the idle thread of the core.
pub visit-idle :
    (cpu cid : ℕ) (free : Bool) (found : Option ℕ) (s s' : Sched) (t : ℕ)
    → visit cpu cid free found s t ≡ some (idle s')
    → (has_flag (s.tcb t).intention intention_exited ≡ true)
      × (s.running_thread cpu ≡ t)
      × (refill s cid ≡ some s')
unfolding visit
visit-idle cpu cid free found s s' t e =
    elim (Bool-cases (has_flag (s.tcb t).intention intention_exited)) [
      | inl x ↦ elim (Bool-cases (s.running_thread cpu == t)) [
        | inl r ↦ elim (Option-cases (refill s cid)) [
          | inl n ↦ absurd (grind arith)
          | inr (u, o) ↦ (x, (==_iff (s.running_thread cpu) t).0 r, grind arith)
        ]
        | inr r ↦ elim (Option-cases (exit_runnable cpu free s t)) [
          | inl n ↦ absurd (grind arith)
          | inr (s1, o) ↦ absurd (grind arith)
        ]
      ]
      | inr x ↦ elim (Bool-cases (has_flag (s.tcb t).intention intention_blocked)) [
        | inl b ↦ absurd (grind arith)
        | inr b ↦ absurd (grind arith)
      ]
    ]
