-- ===== src/Thread/Starts.antt =====
-- The start of a thread in kernel/thread.c: a free TCB is taken, and the thread is put in the list
-- of the migrating ones.
use mathlib.Core.Path.{subst}
use azalea.Prelude.{
  ℕ, ◌≤◌, ◌<◌, ◌≡◌, refl, sym, ap, true, some, Bool-cases, inl, inr, List, [], ◌∷◌, ◌==◌, ==_iff,
  ==_refl, ltb, arith,
}
use azalea.Thread.State.{
  ThreadState, notalloc, created, exited, ready, running, blocked, Sched, set_local, set_global,
}
use azalea.Thread.Lists.{times, take_out}
use azalea.Thread.Tcbs.{take_tcb, alloc_local, alloc_global, alloc_tcb}
use azalea.Thread.Placed.{
  processors, free_at, work_at, wait_at, is_listed, IsPlaced, IsSched, times-le-sum, times-take_out,
  sum-update, update-IsCounted, take_out-IsCounted, in_free, in_work, in_wait,
}

-- What it says of a TCB to stand in a free list.
record IsFree (s : Sched) (t : ℕ) : Type 0 where
  listed : is_listed t ≡ true
  state : (s.tcb t).state ≡ notalloc
  free : free_at s t ≡ 1
  work : work_at s t ≡ 0
  wait : wait_at s t ≡ 0

in_free-one : (st : ThreadState) → 1 ≤ in_free st → st ≡ notalloc
in_free-one notalloc h = refl
in_free-one created h = absurd (omega arith)
in_free-one running h = absurd (omega arith)
in_free-one ready h = absurd (omega arith)
in_free-one blocked h = absurd (omega arith)
in_free-one exited h = absurd (omega arith)

freed-IsFree : (s : Sched) (t : ℕ) → IsPlaced s t → 1 ≤ free_at s t → IsFree s t
freed-IsFree s t p h = elim (Bool-cases (is_listed t)) [
  | inl e ↦
      let o = in_free-one (s.tcb t).state (ground (arith, p.free)) in
      record {
        listed = e;
        state = o;
        free = ground (arith, p.free, ap in_free o);
        work = ground (arith, p.work, ap in_work o);
        wait = ground (arith, p.wait, ap in_wait o);
      }
  | inr e ↦ absurd (ground (arith, p.free))
]

take_local-IsSched :
    (cpu : ℕ) (s : Sched) (t : ℕ)
    → cpu < processors
    → IsSched s
    → 1 ≤ times t (s.local_tcb_list cpu).tcb_list
    → IsSched (take_tcb t (set_local s cpu (take_out t (s.local_tcb_list cpu)))).1
unfolding take_tcb
take_local-IsSched cpu s t hc i h =
    let f =
      freed-IsFree s t (i.placed t)
        (omega (arith, times-le-sum s.local_tcb_list cpu t processors hc, h)) in
    record {
      placed = λ u.
          let out = times-take_out t u (s.local_tcb_list cpu) h in
          let l =
            sum-update s.local_tcb_list cpu (take_out t (s.local_tcb_list cpu)) u processors hc in
          elim (Bool-cases (u == t)) [
            | inl e ↦ record {
              free = ground (arith, f.free, out, l, ==_iff u t);
              work = ground (arith, f.work, ==_iff u t);
              wait = ground (arith, f.wait, ==_iff u t);
            }
            | inr e ↦ record {
              free = ground (arith, (i.placed u).free);
              work = ground (arith, (i.placed u).work);
              wait = ground (arith, (i.placed u).wait);
            }
          ];
      runnable = i.runnable;
      blocked = i.blocked;
      local =
          update-IsCounted s.local_tcb_list cpu (take_out t (s.local_tcb_list cpu)) i.local
            (take_out-IsCounted t (s.local_tcb_list cpu) h (i.local cpu));
      global = i.global;
      migrating = i.migrating;
    }

take_global-IsSched :
    (s : Sched) (t : ℕ)
    → IsSched s
    → 1 ≤ times t s.global_tcb_list.tcb_list
    → IsSched (take_tcb t (set_global s (take_out t s.global_tcb_list))).1
unfolding take_tcb
take_global-IsSched s t i h =
    let f = freed-IsFree s t (i.placed t) (omega (arith, h)) in
    record {
      placed = λ u.
          let out = times-take_out t u s.global_tcb_list h in
          elim (Bool-cases (u == t)) [
            | inl e ↦ record {
              free = ground (arith, f.free, out, ==_iff u t);
              work = ground (arith, f.work, ==_iff u t);
              wait = ground (arith, f.wait, ==_iff u t);
            }
            | inr e ↦ record {
              free = ground (arith, (i.placed u).free);
              work = ground (arith, (i.placed u).work);
              wait = ground (arith, (i.placed u).wait);
            }
          ];
      runnable = i.runnable;
      blocked = i.blocked;
      local = i.local;
      global = take_out-IsCounted t s.global_tcb_list h i.global;
      migrating = i.migrating;
    }

-- A TCB that was taken.
pub record IsTaken (s : Sched) (t : ℕ) (s' : Sched) : Type 0 where
  pub listed : is_listed t ≡ true
  pub before : (s.tcb t).state ≡ notalloc
  pub state : (s'.tcb t).state ≡ created
  pub refc : (s'.tcb t).refc ≡ 1
  pub sched : IsSched s'

local-IsTaken :
    (cpu : ℕ) (s : Sched) (t : ℕ)
    → cpu < processors
    → IsSched s
    → 1 ≤ times t (s.local_tcb_list cpu).tcb_list
    → IsTaken s t (take_tcb t (set_local s cpu (take_out t (s.local_tcb_list cpu)))).1
unfolding take_tcb
local-IsTaken cpu s t hc i h =
    let f =
      freed-IsFree s t (i.placed t)
        (omega (arith, times-le-sum s.local_tcb_list cpu t processors hc, h)) in
    record {
      listed = f.listed;
      before = f.state;
      state = rw (==_refl t) refl;
      refc = rw (==_refl t) refl;
      sched = take_local-IsSched cpu s t hc i h;
    }

global-IsTaken :
    (s : Sched) (t : ℕ)
    → IsSched s
    → 1 ≤ times t s.global_tcb_list.tcb_list
    → IsTaken s t (take_tcb t (set_global s (take_out t s.global_tcb_list))).1
unfolding take_tcb
global-IsTaken s t i h =
    let f = freed-IsFree s t (i.placed t) (omega (arith, h)) in
    record {
      listed = f.listed;
      before = f.state;
      state = rw (==_refl t) refl;
      refc = rw (==_refl t) refl;
      sched = take_global-IsSched s t i h;
    }

alloc_local-IsTaken :
    (cpu : ℕ) (s s' : Sched) (t : ℕ) (l : List ℕ)
    → cpu < processors
    → IsSched s
    → (s.local_tcb_list cpu).tcb_list ≡ l
    → alloc_local cpu s l ≡ some (t, s')
    → IsTaken s t s'
unfolding alloc_local take_tcb
alloc_local-IsTaken cpu s s' t [] hc i q e = absurd (grind arith)
alloc_local-IsTaken cpu s s' t (u ∷ l) hc i q e = elim (Bool-cases (ltb 0 (s.tcb u).refc)) [
  | inl r ↦ absurd (grind arith)
  | inr r ↦
      let k : take_tcb u (set_local s cpu (take_out u (s.local_tcb_list cpu))) ≡ (t, s') =
        grind arith in
      subst (λ r. IsTaken s r.0 r.1) k
        (local-IsTaken cpu s u hc i
          (subst (λ l. 1 ≤ times u l) (sym q) (ground (arith, ==_refl u))))
]

alloc_global-IsTaken :
    (s s' : Sched) (t : ℕ) (l : List ℕ)
    → IsSched s
    → s.global_tcb_list.tcb_list ≡ l
    → alloc_global s l ≡ some (t, s')
    → IsTaken s t s'
unfolding alloc_global take_tcb
alloc_global-IsTaken s s' t [] i q e = absurd (grind arith)
alloc_global-IsTaken s s' t (u ∷ l) i q e =
    let k : take_tcb u (set_global s (take_out u s.global_tcb_list)) ≡ (t, s') = grind arith in
    subst (λ r. IsTaken s r.0 r.1) k
      (global-IsTaken s u i (subst (λ l. 1 ≤ times u l) (sym q) (ground (arith, ==_refl u))))

pub alloc_tcb-IsTaken :
    (cpu : ℕ) (s s' : Sched) (t : ℕ)
    → cpu < processors
    → IsSched s
    → alloc_tcb cpu s ≡ some (t, s')
    → IsTaken s t s'
unfolding alloc_tcb
alloc_tcb-IsTaken cpu s s' t hc i e = elim (Bool-cases ((s.local_tcb_list cpu).count == 0)) [
  | inl z ↦ alloc_global-IsTaken s s' t s.global_tcb_list.tcb_list i refl (grind arith)
  | inr z ↦ alloc_local-IsTaken cpu s s' t (s.local_tcb_list cpu).tcb_list hc i refl (grind arith)
]
