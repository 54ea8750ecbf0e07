-- ===== src/Thread/Moves.antt =====
-- The moves of one thread between the lists of kernel/thread.c keep the lists in order.
use azalea.Prelude.{ℕ, ◌≤◌, ◌<◌, ◌≡◌, refl, ap, true, Bool-cases, inl, inr, ◌==◌, ==_iff, arith}
use azalea.Thread.State.{
  ThreadState, notalloc, created, running, ready, blocked, exited, Tcb, Sched, set_tcb,
}
use azalea.Thread.Lists.{take_out, put_in, times}
use azalea.Thread.Placed.{
  processors, free_at, work_at, wait_at, is_listed, in_free, in_work, in_wait, IsPlaced, IsSched,
  take_out-IsCounted, put_in-IsCounted, times-take_out, times-put_in, sum-update, times-le-sum,
  update-IsCounted,
}
use azalea.Thread.Select.{block_thread, migrate_out}
use azalea.Thread.Switch.{make_ready, unblock_thread, migrate_in}

-- What it says of a thread to stand in a list of those that may run.
pub record IsWork (s : Sched) (t : ℕ) : Type 0 where
  pub listed : is_listed t ≡ true
  pub free : free_at s t ≡ 0
  pub work : work_at s t ≡ 1
  pub wait : wait_at s t ≡ 0

in_work-one :
    (st : ThreadState) → 1 ≤ in_work st → (in_free st ≡ 0) × (in_work st ≡ 1) × (in_wait st ≡ 0)
in_work-one running h = (refl, refl, refl)
in_work-one ready h = (refl, refl, refl)
in_work-one notalloc h = absurd (omega arith)
in_work-one created h = absurd (omega arith)
in_work-one blocked h = absurd (omega arith)
in_work-one exited h = absurd (omega arith)

pub worked-IsWork : (s : Sched) (t : ℕ) → IsPlaced s t → 1 ≤ work_at s t → IsWork s t
worked-IsWork s t p h = elim (Bool-cases (is_listed t)) [
  | inl e ↦
      let o = in_work-one (s.tcb t).state (ground (arith, p.work)) in
      record {
        listed = e;
        free = ground (arith, p.free, o);
        work = ground (arith, p.work, o);
        wait = ground (arith, p.wait, o);
      }
  | inr e ↦ absurd (ground (arith, p.work))
]

pub runnable-IsWork :
    (s : Sched) (cpu t : ℕ)
    → cpu < processors
    → IsSched s
    → 1 ≤ times t (s.runnable_list cpu).tcb_list
    → IsWork s t
runnable-IsWork s cpu t hc i h =
    worked-IsWork s t (i.placed t)
      (omega (arith, times-le-sum s.runnable_list cpu t processors hc, h))

-- What it says of a thread to be blocked, and to stand in no list.
pub record IsWait (s : Sched) (t : ℕ) : Type 0 where
  pub listed : is_listed t ≡ true
  pub free : free_at s t ≡ 0
  pub work : work_at s t ≡ 0
  pub wait : wait_at s t ≡ 1

pub record IsNowhere (s : Sched) (t : ℕ) : Type 0 where
  pub free : free_at s t ≡ 0
  pub work : work_at s t ≡ 0
  pub wait : wait_at s t ≡ 0

pub outside-IsNowhere :
    (s : Sched) (t : ℕ)
    → in_free (s.tcb t).state ≡ 0
    → in_work (s.tcb t).state ≡ 0
    → in_wait (s.tcb t).state ≡ 0
    → IsPlaced s t
    → IsNowhere s t
outside-IsNowhere s t f w b p = elim (Bool-cases (is_listed t)) [
  | inl e ↦ record {
    free = ground (arith, p.free);
    work = ground (arith, p.work);
    wait = ground (arith, p.wait);
  }
  | inr e ↦ record {
    free = ground (arith, p.free);
    work = ground (arith, p.work);
    wait = ground (arith, p.wait);
  }
]

pub exited-IsNowhere : (s : Sched) (t : ℕ) → (s.tcb t).state ≡ exited → IsPlaced s t → IsNowhere s t
exited-IsNowhere s t e p = outside-IsNowhere s t (ap in_free e) (ap in_work e) (ap in_wait e) p

in_wait-one :
    (st : ThreadState) → 1 ≤ in_wait st → (in_free st ≡ 0) × (in_work st ≡ 0) × (in_wait st ≡ 1)
in_wait-one blocked h = (refl, refl, refl)
in_wait-one running h = absurd (omega arith)
in_wait-one ready h = absurd (omega arith)
in_wait-one notalloc h = absurd (omega arith)
in_wait-one created h = absurd (omega arith)
in_wait-one exited h = absurd (omega arith)

pub blocked-IsWait :
    (s : Sched) (cpu t : ℕ)
    → cpu < processors
    → IsSched s
    → 1 ≤ times t (s.blocked_list cpu).tcb_list
    → IsWait s t
blocked-IsWait s cpu t hc i h =
    let p = i.placed t in
    let at = times-le-sum s.blocked_list cpu t processors hc in
    elim (Bool-cases (is_listed t)) [
      | inl e ↦
          let o = in_wait-one (s.tcb t).state (ground (arith, p.wait, at)) in
          record {
            listed = e;
            free = ground (arith, p.free, o);
            work = ground (arith, p.work, o);
            wait = ground (arith, p.wait, o);
          }
      | inr e ↦ absurd (ground (arith, p.wait, at))
    ]

-- A state that puts a thread in the same lists may take the place of another.
pub set_tcb-IsSched :
    (s : Sched) (t : ℕ) (tcb : Tcb)
    → in_free tcb.state ≡ in_free (s.tcb t).state
    → in_work tcb.state ≡ in_work (s.tcb t).state
    → in_wait tcb.state ≡ in_wait (s.tcb t).state
    → IsSched s
    → IsSched (set_tcb s t tcb)
set_tcb-IsSched s t tcb hf hw hb i = record {
  placed = λ u. elim (Bool-cases (u == t)) [
    | inl e ↦ record {
      free = ground (arith, i.placed u, hf, ==_iff u t);
      work = ground (arith, i.placed u, hw, ==_iff u t);
      wait = ground (arith, i.placed u, hb, ==_iff u t);
    }
    | inr e ↦ record {
      free = ground (arith, i.placed u);
      work = ground (arith, i.placed u);
      wait = ground (arith, i.placed u);
    }
  ];
  runnable = i.runnable;
  blocked = i.blocked;
  local = i.local;
  global = i.global;
  migrating = i.migrating;
}

block_thread-IsPlaced :
    (cpu : ℕ) (s : Sched) (t : ℕ)
    → cpu < processors
    → IsSched s
    → 1 ≤ times t (s.runnable_list cpu).tcb_list
    → (u : ℕ) → IsPlaced (block_thread cpu s t) u
unfolding block_thread
block_thread-IsPlaced cpu s t hc i h u =
    let w = runnable-IsWork s cpu t hc i h in
    let out = times-take_out t u (s.runnable_list cpu) h in
    let put = times-put_in t u (s.blocked_list cpu) in
    let r = sum-update s.runnable_list cpu (take_out t (s.runnable_list cpu)) u processors hc in
    let b = sum-update s.blocked_list cpu (put_in t (s.blocked_list cpu)) u processors hc in
    elim (Bool-cases (u == t)) [
      | inl e ↦ record {
        free = ground (arith, w.free, i.placed u);
        work = ground (arith, w.work, out, r, ==_iff u t);
        wait = ground (arith, w.wait, put, b);
      }
      | inr e ↦ record {
        free = ground (arith, (i.placed u).free);
        work = ground (arith, (i.placed u).work);
        wait = ground (arith, (i.placed u).wait);
      }
    ]

pub block_thread-IsSched :
    (cpu : ℕ) (s : Sched) (t : ℕ)
    → cpu < processors
    → IsSched s
    → 1 ≤ times t (s.runnable_list cpu).tcb_list
    → IsSched (block_thread cpu s t)
unfolding block_thread
block_thread-IsSched cpu s t hc i h = record {
  placed = block_thread-IsPlaced cpu s t hc i h;
  runnable =
      update-IsCounted s.runnable_list cpu (take_out t (s.runnable_list cpu)) i.runnable
        (take_out-IsCounted t (s.runnable_list cpu) h (i.runnable cpu));
  blocked =
      update-IsCounted s.blocked_list cpu (put_in t (s.blocked_list cpu)) i.blocked
        (put_in-IsCounted t (s.blocked_list cpu) (i.blocked cpu));
  local = i.local;
  global = i.global;
  migrating = i.migrating;
}

unblock_thread-IsPlaced :
    (cpu : ℕ) (s : Sched) (t : ℕ)
    → cpu < processors
    → IsSched s
    → 1 ≤ times t (s.blocked_list cpu).tcb_list
    → (u : ℕ) → IsPlaced (unblock_thread cpu s t) u
unfolding unblock_thread make_ready
unblock_thread-IsPlaced cpu s t hc i h u =
    let w = blocked-IsWait s cpu t hc i h in
    let out = times-take_out t u (s.blocked_list cpu) h in
    let put = times-put_in t u (s.runnable_list cpu) in
    let b = sum-update s.blocked_list cpu (take_out t (s.blocked_list cpu)) u processors hc in
    let r = sum-update s.runnable_list cpu (put_in t (s.runnable_list cpu)) u processors hc in
    elim (Bool-cases (u == t)) [
      | inl e ↦ record {
        free = ground (arith, w.free, i.placed u);
        work = ground (arith, w.work, put, r);
        wait = ground (arith, w.wait, out, b, ==_iff u t);
      }
      | inr e ↦ record {
        free = ground (arith, (i.placed u).free);
        work = ground (arith, (i.placed u).work);
        wait = ground (arith, (i.placed u).wait);
      }
    ]

pub unblock_thread-IsSched :
    (cpu : ℕ) (s : Sched) (t : ℕ)
    → cpu < processors
    → IsSched s
    → 1 ≤ times t (s.blocked_list cpu).tcb_list
    → IsSched (unblock_thread cpu s t)
unfolding unblock_thread make_ready
unblock_thread-IsSched cpu s t hc i h = record {
  placed = unblock_thread-IsPlaced cpu s t hc i h;
  runnable =
      update-IsCounted s.runnable_list cpu (put_in t (s.runnable_list cpu)) i.runnable
        (put_in-IsCounted t (s.runnable_list cpu) (i.runnable cpu));
  blocked =
      update-IsCounted s.blocked_list cpu (take_out t (s.blocked_list cpu)) i.blocked
        (take_out-IsCounted t (s.blocked_list cpu) h (i.blocked cpu));
  local = i.local;
  global = i.global;
  migrating = i.migrating;
}

pub migrate_out-IsSched :
    (cpu : ℕ) (s : Sched) (t : ℕ)
    → cpu < processors
    → IsSched s
    → 1 ≤ times t (s.runnable_list cpu).tcb_list
    → IsSched (migrate_out cpu s t)
unfolding migrate_out
migrate_out-IsSched cpu s t hc i h = record {
  placed = λ u.
      let out = times-take_out t u (s.runnable_list cpu) h in
      let put = times-put_in t u s.migrating_list in
      let r = sum-update s.runnable_list cpu (take_out t (s.runnable_list cpu)) u processors hc in
      record {
        free = (i.placed u).free;
        work = ground (arith, (i.placed u).work);
        wait = (i.placed u).wait;
      };
  runnable =
      update-IsCounted s.runnable_list cpu (take_out t (s.runnable_list cpu)) i.runnable
        (take_out-IsCounted t (s.runnable_list cpu) h (i.runnable cpu));
  blocked = i.blocked;
  local = i.local;
  global = i.global;
  migrating = put_in-IsCounted t s.migrating_list i.migrating;
}

migrate_in-IsPlaced :
    (cpu cid : ℕ) (s : Sched) (t : ℕ)
    → cpu < processors
    → IsSched s
    → 1 ≤ times t s.migrating_list.tcb_list
    → (u : ℕ) → IsPlaced (migrate_in cpu cid s t) u
unfolding migrate_in
migrate_in-IsPlaced cpu cid s t hc i h u =
    let out = times-take_out t u s.migrating_list h in
    let put = times-put_in t u (s.runnable_list cpu) in
    let r = sum-update s.runnable_list cpu (put_in t (s.runnable_list cpu)) u processors hc in
    elim (Bool-cases (u == t)) [
      | inl e ↦ record {
        free = ground (arith, (i.placed u).free, ==_iff u t);
        work = ground (arith, (i.placed u).work, ==_iff u t);
        wait = ground (arith, (i.placed u).wait, ==_iff u t);
      }
      | inr e ↦ record {
        free = ground (arith, (i.placed u).free);
        work = ground (arith, (i.placed u).work);
        wait = ground (arith, (i.placed u).wait);
      }
    ]

pub migrate_in-IsSched :
    (cpu cid : ℕ) (s : Sched) (t : ℕ)
    → cpu < processors
    → IsSched s
    → 1 ≤ times t s.migrating_list.tcb_list
    → IsSched (migrate_in cpu cid s t)
unfolding migrate_in
migrate_in-IsSched cpu cid s t hc i h = record {
  placed = migrate_in-IsPlaced cpu cid s t hc i h;
  runnable =
      update-IsCounted s.runnable_list cpu (put_in t (s.runnable_list cpu)) i.runnable
        (put_in-IsCounted t (s.runnable_list cpu) (i.runnable cpu));
  blocked = i.blocked;
  local = i.local;
  global = i.global;
  migrating = take_out-IsCounted t s.migrating_list h i.migrating;
}
