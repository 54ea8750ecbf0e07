-- ===== src/Thread/Switch.antt =====
-- After a context switch in kernel/thread.c: `__post_context_switch` and `post_context_switch`.
use azalea.Prelude.{
  ℕ, ◌+◌, ◌%◌, ◌^◌, Bool, true, false, not, ◌&&◌, ◌||◌, Option, none, some, List, [], ◌∷◌, ltb,
  ◌==◌, if◌then◌else◌,
}
use azalea.Thread.{core_is_allowed}
use azalea.Thread.State.{
  notalloc, exited, ready, Sched, set_tcb, set_runnable, set_blocked, set_migrating,
  intention_ready, intention_blocked, intention_exited, has_flag, without_flag, runnable_max,
}
use azalea.Thread.Lists.{take_out, put_in}
use azalea.Thread.Tcbs.{is_state, put_tcb, thread_exit}
use azalea.Thread.Select.{block_thread, exit_runnable}

-- The thread is ready again: two requests are dropped.
unfoldable pub make_ready : Sched → ℕ → Sched
make_ready s t =
    let tcb = s.tcb t in
    set_tcb s t (record tcb {
      state = ready;
      intention = without_flag tcb.intention (intention_ready + intention_blocked);
    })

-- `__post_context_switch`
unfoldable pub post_prev : ℕ → Bool → Sched → ℕ → Option Sched
post_prev cpu free s prev =
    let tcb = s.tcb prev in
    if is_state tcb.state exited || is_state tcb.state notalloc
    then some s
    else if has_flag tcb.intention intention_ready
    then some (make_ready s prev)
    else if has_flag tcb.intention intention_blocked
    then some (block_thread cpu s prev)
    else if has_flag tcb.intention intention_exited && not (s.running_thread cpu == prev)
    then exit_runnable cpu free s prev
    else some s

-- `get_cid_of_min_thread`: `ISONLY_CORE_MASK` is 0 in this build, so that the first return is
-- always taken.
abbrev pub get_cid_of_min_thread : ℕ → ℕ → ℕ
get_cid_of_min_thread next cid = cid

-- A thread from the list of the migrating ones to that of the runnable ones.
unfoldable pub migrate_in : ℕ → ℕ → Sched → ℕ → Sched
migrate_in cpu cid s t =
    set_runnable
      (set_tcb (set_migrating s (take_out t s.migrating_list)) t
        (record (s.tcb t) { running_core = cid }))
      cpu (put_in t (s.runnable_list cpu))

-- Whether the processor's lists are as long as they may get.
abbrev pub is_full : ℕ → Sched → Bool
is_full cpu s = ((s.runnable_list cpu).count + (s.blocked_list cpu).count) % 2 ^ 64 == runnable_max

-- The first loop over the migrating list: whether it was left early.
unfoldable pub take_bound : ℕ → ℕ → List ℕ → Sched → Bool × Sched
take_bound cpu cid [] s = (false, s)
take_bound cpu cid (t ∷ l) s =
    let s' = if (s.tcb t).running_core == cid then migrate_in cpu cid s t else s in
    let rest = take_bound cpu cid l s' in if is_full cpu s' then (true, s') else rest

-- The second loop over the migrating list, which takes one thread at most.
unfoldable pub take_allowed : ℕ → ℕ → List ℕ → Sched → Sched
take_allowed cpu cid [] s = s
take_allowed cpu cid (t ∷ l) s =
    let rest = take_allowed cpu cid l s in
    if core_is_allowed (s.tcb t).core_mask cid && (cid == get_cid_of_min_thread t cid)
    then migrate_in cpu cid s t
    else if is_full cpu s
    then s
    else rest

-- The part of `post_context_switch` for the migrating threads.
unfoldable pub take_migrating : ℕ → Bool → Sched → Sched
take_migrating cpu free s =
    let cid = (s.tcb (s.running_thread cpu)).running_core in
    let bound = take_bound cpu cid s.migrating_list.tcb_list s in
    if ltb (((s.runnable_list cpu).count + (s.blocked_list cpu).count) % 2 ^ 64) runnable_max
      && not (s.migrating_list.count == 0)
      && free
    then (if bound.0 then bound.1 else take_allowed cpu cid bound.1.migrating_list.tcb_list bound.1)
    else s

-- A blocked thread that is asked to wake up.
unfoldable pub unblock_thread : ℕ → Sched → ℕ → Sched
unblock_thread cpu s t =
    let s' = set_blocked s cpu (take_out t (s.blocked_list cpu)) in
    set_runnable (make_ready s' t) cpu (put_in t (s'.runnable_list cpu))

-- A blocked thread that is asked to exit.
unfoldable pub exit_blocked : ℕ → Bool → Sched → ℕ → Option Sched
exit_blocked cpu free s t =
    put_tcb cpu free (set_blocked (thread_exit s t) cpu (take_out t (s.blocked_list cpu))) t

-- One round of the loop over the blocked threads.
unfoldable pub wake_one : ℕ → Bool → Sched → ℕ → Option Sched
wake_one cpu free s t =
    if has_flag (s.tcb t).intention intention_exited
    then (if s.running_thread cpu == t then some s else exit_blocked cpu free s t)
    else if has_flag (s.tcb t).intention intention_ready
    then some (unblock_thread cpu s t)
    else some s

unfoldable pub wake_on : Option Sched → (Sched → Option Sched) → Option Sched
wake_on none rest = none
wake_on (some s) rest = rest s

-- The loop over the blocked threads.
unfoldable pub wake_all : ℕ → (ℕ → Bool) → List ℕ → Sched → Option Sched
wake_all cpu free [] s = some s
wake_all cpu free (t ∷ l) s = wake_on (wake_one cpu (free t) s t) (λ s. wake_all cpu free l s)

-- `post_context_switch` after `__post_context_switch`.
unfoldable pub post_rest : ℕ → (ℕ → Bool) → Bool → Option Sched → Option Sched
post_rest cpu free lock none = none
post_rest cpu free lock (some s) =
    let s' = take_migrating cpu lock s in
    if (s'.blocked_list cpu).count == 0
    then some s'
    else wake_all cpu free (s'.blocked_list cpu).tcb_list s'

-- `post_context_switch`; `lock` tells whether it gets the lock of the migrating list.
unfoldable pub post_context_switch : ℕ → (ℕ → Bool) → Bool → Sched → ℕ → Option Sched
post_context_switch cpu free lock s prev =
    post_rest cpu free lock (post_prev cpu (free prev) s prev)
