-- ===== src/Thread/Exits.antt =====
-- A thread in a list of kernel/thread.c that is told to exit: it leaves the list and gives its
-- reference back.
use azalea.Prelude.{
  ℕ, ◌≤◌, ◌<◌, ◌≡◌, ap, ◌∙◌, Bool, some, Bool-cases, inl, inr, ◌==◌, ==_iff, update-same, arith,
}
use azalea.Thread.State.{Sched, set_runnable, set_blocked}
use azalea.Thread.Lists.{take_out, times}
use azalea.Thread.Tcbs.{thread_exit}
use azalea.Thread.Placed.{
  processors, IsPlaced, IsSched, take_out-IsCounted, times-take_out, sum-update, update-IsCounted,
}
use azalea.Thread.Select.{exit_runnable}
use azalea.Thread.Switch.{exit_blocked}
use azalea.Thread.Ends.{put_tcb-IsSched, put_tcb-lists}
use azalea.Thread.Moves.{runnable-IsWork, blocked-IsWait}

exited-runnable :
    (cpu : ℕ) (s : Sched) (t : ℕ)
    → cpu < processors
    → IsSched s
    → 1 ≤ times t (s.runnable_list cpu).tcb_list
    → (u : ℕ) → IsPlaced (set_runnable (thread_exit s t) cpu (take_out t (s.runnable_list cpu))) u
unfolding thread_exit
exited-runnable cpu s t hc i h u =
    let w = runnable-IsWork s cpu t hc i h in
    let out = times-take_out t u (s.runnable_list cpu) h in
    let r = sum-update s.runnable_list cpu (take_out t (s.runnable_list cpu)) u processors hc in
    elim (Bool-cases (u == t)) [
      | inl e ↦ record {
        free = ground (arith, w.free, i.placed u);
        work = ground (arith, w.work, out, r, ==_iff u t);
        wait = ground (arith, w.wait, i.placed u);
      }
      | inr e ↦ record {
        free = ground (arith, (i.placed u).free);
        work = ground (arith, (i.placed u).work);
        wait = ground (arith, (i.placed u).wait);
      }
    ]

exited-blocked :
    (cpu : ℕ) (s : Sched) (t : ℕ)
    → cpu < processors
    → IsSched s
    → 1 ≤ times t (s.blocked_list cpu).tcb_list
    → (u : ℕ) → IsPlaced (set_blocked (thread_exit s t) cpu (take_out t (s.blocked_list cpu))) u
unfolding thread_exit
exited-blocked cpu s t hc i h u =
    let w = blocked-IsWait s cpu t hc i h in
    let out = times-take_out t u (s.blocked_list cpu) h in
    let r = sum-update s.blocked_list cpu (take_out t (s.blocked_list cpu)) u processors hc in
    elim (Bool-cases (u == t)) [
      | inl e ↦ record {
        free = ground (arith, w.free, i.placed u);
        work = ground (arith, w.work, i.placed u);
        wait = ground (arith, w.wait, out, r, ==_iff u t);
      }
      | inr e ↦ record {
        free = ground (arith, (i.placed u).free);
        work = ground (arith, (i.placed u).work);
        wait = ground (arith, (i.placed u).wait);
      }
    ]

pub exit_runnable-IsSched :
    (cpu : ℕ) (free : Bool) (s s' : Sched) (t : ℕ)
    → cpu < processors
    → IsSched s
    → 1 ≤ times t (s.runnable_list cpu).tcb_list
    → exit_runnable cpu free s t ≡ some s'
    → IsSched s'
unfolding exit_runnable thread_exit
exit_runnable-IsSched cpu free s s' t hc i h e =
    put_tcb-IsSched cpu free _ s' t hc (runnable-IsWork s cpu t hc i h).listed
      (record {
        placed = exited-runnable cpu s t hc i h;
        runnable =
            update-IsCounted s.runnable_list cpu (take_out t (s.runnable_list cpu)) i.runnable
              (take_out-IsCounted t (s.runnable_list cpu) h (i.runnable cpu));
        blocked = i.blocked;
        local = i.local;
        global = i.global;
        migrating = i.migrating;
      })
      e

pub exit_blocked-IsSched :
    (cpu : ℕ) (free : Bool) (s s' : Sched) (t : ℕ)
    → cpu < processors
    → IsSched s
    → 1 ≤ times t (s.blocked_list cpu).tcb_list
    → exit_blocked cpu free s t ≡ some s'
    → IsSched s'
unfolding exit_blocked thread_exit
exit_blocked-IsSched cpu free s s' t hc i h e =
    put_tcb-IsSched cpu free _ s' t hc (blocked-IsWait s cpu t hc i h).listed
      (record {
        placed = exited-blocked cpu s t hc i h;
        runnable = i.runnable;
        blocked =
            update-IsCounted s.blocked_list cpu (take_out t (s.blocked_list cpu)) i.blocked
              (take_out-IsCounted t (s.blocked_list cpu) h (i.blocked cpu));
        local = i.local;
        global = i.global;
        migrating = i.migrating;
      })
      e

pub exit_runnable-runnable :
    (cpu : ℕ) (free : Bool) (s s' : Sched) (t : ℕ)
    → exit_runnable cpu free s t ≡ some s'
    → s'.runnable_list cpu ≡ take_out t (s.runnable_list cpu)
unfolding exit_runnable thread_exit
exit_runnable-runnable cpu free s s' t e =
    ap (λ f. f cpu) (put_tcb-lists cpu free _ s' t e).0 ∙ update-same s.runnable_list cpu _

pub exit_blocked-blocked :
    (cpu : ℕ) (free : Bool) (s s' : Sched) (t : ℕ)
    → exit_blocked cpu free s t ≡ some s'
    → s'.blocked_list cpu ≡ take_out t (s.blocked_list cpu)
unfolding exit_blocked thread_exit
exit_blocked-blocked cpu free s s' t e =
    ap (λ f. f cpu) (put_tcb-lists cpu free _ s' t e).1 ∙ update-same s.blocked_list cpu _
