-- ===== src/Thread/Select.antt =====
-- Time slices and `select_next_thread` of kernel/thread.c.
use azalea.Prelude.{
  ℕ, zero, suc, ◌+◌, ◌%◌, ◌^◌, Bool, true, false, not, ◌&&◌, Option, none, some, List, [], ◌∷◌, ℤ,
  pos, negsuc, sub_nat, is_positive, leb, ◌==◌, if◌then◌else◌, update,
}
use azalea.Thread.{core_is_allowed}
use azalea.Thread.State.{
  ready, running, blocked, Tcb, Sched, set_tcb, set_runnable, set_blocked, set_migrating,
  intention_blocked, intention_exited, has_flag, without_flag, infinite_time_quantum,
}
use azalea.Thread.Lists.{take_out, put_in}
use azalea.Thread.Tcbs.{is_state, put_tcb, thread_exit}

-- The new quantum; a negative one halts.
abbrev pub refill_quantum : Tcb → ℤ → Option Tcb
refill_quantum tcb (pos q) =
    some (record tcb { remaining_time_quantum = pos q; remaining_time_slice = pos tcb.time_slice })
refill_quantum tcb (negsuc q) = none

-- `refill_time_slice`
unfoldable pub refill_time_slice : Tcb → Option Tcb
refill_time_slice tcb =
    if is_positive tcb.remaining_time_slice
    then some tcb
    else if tcb.time_quantum == infinite_time_quantum
    then some (record tcb { remaining_time_slice = pos tcb.time_slice })
    else refill_quantum tcb (sub_nat tcb.remaining_time_quantum tcb.time_slice)

-- Refills the slice of a thread.
unfoldable pub refill : Sched → ℕ → Option Sched
refill s t = elim (refill_time_slice (s.tcb t)) [ none ↦ none | some tcb ↦ some (set_tcb s t tcb) ]

-- `adjust_time_slice`, given what the timer tells: the slices and ticks used, and the ticks of a
-- millisecond.
unfoldable pub adjust_time_slice : Tcb → ℕ → ℕ → ℕ → ℕ × Tcb
adjust_time_slice curr slices ticks per_ms =
    let sum = (curr.acc_ltc + ticks) % 2 ^ 64 in
    if slices == 0
    then (if leb per_ms sum
        then (1, record curr { acc_ltc = 0 })
        else (0, record curr { acc_ltc = sum }))
    else (slices, curr)

-- `decrease_remaining_time_slice`
unfoldable pub decrease_remaining_time_slice : Tcb → ℕ → Tcb
decrease_remaining_time_slice curr consumed = record curr {
  remaining_time_slice = sub_nat curr.remaining_time_slice consumed;
}

abbrev pub available_next : Tcb → Bool
available_next tcb = is_positive tcb.remaining_time_slice && is_state tcb.state ready

-- What becomes of a thread that is asked to block: from the list of the runnable ones to that of
-- the blocked ones.
unfoldable pub block_thread : ℕ → Sched → ℕ → Sched
block_thread cpu s t =
    let tcb = s.tcb t in
    set_blocked
      (set_tcb (set_runnable s cpu (take_out t (s.runnable_list cpu))) t
        (record tcb { state = blocked; intention = without_flag tcb.intention intention_blocked }))
      cpu (put_in t (s.blocked_list cpu))

-- A thread that is asked to exit leaves the list of the runnable ones.
unfoldable pub exit_runnable : ℕ → Bool → Sched → ℕ → Option Sched
exit_runnable cpu free s t =
    put_tcb cpu free (set_runnable (thread_exit s t) cpu (take_out t (s.runnable_list cpu))) t

-- A thread that this core may not run goes to the list of the migrating ones.
unfoldable pub migrate_out : ℕ → Sched → ℕ → Sched
migrate_out cpu s t =
    set_migrating (set_runnable s cpu (take_out t (s.runnable_list cpu)))
      (put_in t s.migrating_list)

-- The thread that is picked.
unfoldable pub pick_thread : ℕ → Sched → ℕ → Sched
pick_thread cid s t = record (set_tcb s t (record (s.tcb t) { state = running })) {
  running_thread_list = update s.running_thread_list cid (some t);
}

-- The first loop of `select_next_thread` ends at once with the idle thread, or goes on.
pub data Scan : Type 0 where
  idle : Sched → Scan
  go_on : Option ℕ → Sched → Scan

-- One round of the loop for a thread that has no such request.
unfoldable pub consider : ℕ → ℕ → Bool → Option ℕ → Sched → ℕ → Option ℕ × Sched
consider cpu cid free found s t =
    if available_next (s.tcb t)
    then (if core_is_allowed (s.tcb t).core_mask cid
        then elim found [ none ↦ (some t, pick_thread cid s t) | some u ↦ (some u, s) ]
        else if free
        then (found, migrate_out cpu s t)
        else (found, s))
    else (found, s)

-- One round of the loop. When the thread that is asked to exit is the current one, the idle thread
-- of the core is refilled.
unfoldable pub visit : ℕ → ℕ → Bool → Option ℕ → Sched → ℕ → Option Scan
visit cpu cid free found s t =
    let after = consider cpu cid free found s t in
    if has_flag (s.tcb t).intention intention_exited
    then (if s.running_thread cpu == t
        then elim (refill s cid) [ none ↦ none | some s' ↦ some (idle s') ]
        else elim (exit_runnable cpu free s t) [ none ↦ none | some s' ↦ some (go_on found s') ])
    else if has_flag (s.tcb t).intention intention_blocked
    then some (go_on found (block_thread cpu s t))
    else some (go_on after.0 after.1)

-- The loop, over the threads that the list holds when it begins; `free t` is what
-- `spinlock_trylock` answers while thread `t` is looked at.
unfoldable pub scan_rest : Option Scan → (Option ℕ → Sched → Option Scan) → Option Scan
scan_rest none rest = none
scan_rest (some (idle s)) rest = some (idle s)
scan_rest (some (go_on found s)) rest = rest found s

unfoldable pub scan_runnable : ℕ → ℕ → (ℕ → Bool) → List ℕ → Option ℕ → Sched → Option Scan
scan_runnable cpu cid free [] found s = some (go_on found s)
scan_runnable cpu cid free (t ∷ l) found s =
    scan_rest (visit cpu cid (free t) found s t) (λ found s. scan_runnable cpu cid free l found s)

abbrev pub wants_refill : Tcb → Bool
wants_refill tcb = is_state tcb.state ready && not (is_positive tcb.remaining_time_slice)

-- The second loop: whether a thread was refilled.
unfoldable pub refill_all : List ℕ → Bool → Sched → Option (Bool × Sched)
refill_all [] refilled s = some (refilled, s)
refill_all (t ∷ l) refilled s =
    let rest = refill_all l refilled s in
    if wants_refill (s.tcb t)
    then elim (refill s t) [ none ↦ none | some s' ↦ refill_all l true s' ]
    else rest

-- `dl_list_first`
abbrev pub first : List ℕ → Option ℕ
first [] = none
first (t ∷ l) = some t

-- The end of `select_next_thread` when no thread is ready. The idle thread of a core has the
-- core's number.
unfoldable pub fall_back : ℕ → ℕ → Sched → Option ℕ
fall_back cpu cid s =
    if (s.runnable_list cpu).count == 1 then first (s.runnable_list cpu).tcb_list else some cid

-- After the second loop; `again` is the code from `retry` on.
unfoldable pub select_refilled :
    ℕ → ℕ → Option (Bool × Sched) → (Sched → Option (ℕ × Sched)) → Option (ℕ × Sched)
select_refilled cpu cid none again = none
select_refilled cpu cid (some (true, s)) again = again s
select_refilled cpu cid (some (false, s)) again = elim (fall_back cpu cid s) [
  | none ↦ none
  | some t ↦ some (t, s)
]

-- After the first loop.
unfoldable pub select_scanned :
    ℕ → ℕ → Option Scan → (Sched → Option (ℕ × Sched)) → Option (ℕ × Sched)
select_scanned cpu cid none again = none
select_scanned cpu cid (some (idle s)) again = some (cid, s)
select_scanned cpu cid (some (go_on (some t) s)) again = some (t, s)
select_scanned cpu cid (some (go_on none s)) again =
    select_refilled cpu cid (refill_all (s.runnable_list cpu).tcb_list false s) again

-- `select_next_thread` with at most `fuel` rounds of its `retry`; `free n t` is what
-- `spinlock_trylock` answers while thread `t` is looked at in the round that leaves `n` more (a
-- round tries at most one lock for a thread).
unfoldable pub select_from : ℕ → ℕ → ℕ → (ℕ → ℕ → Bool) → Sched → Option (ℕ × Sched)
select_from zero cpu cid free s = none
select_from (suc fuel) cpu cid free s =
    select_scanned cpu cid (scan_runnable cpu cid (free fuel) (s.runnable_list cpu).tcb_list none s)
      (λ s. select_from fuel cpu cid free s)

-- `select_next_thread`. Two rounds are enough: a refilled thread is ready in the second one.
unfoldable pub select_next_thread : ℕ → (ℕ → ℕ → Bool) → Sched → Option (ℕ × Sched)
select_next_thread cpu free s = select_from 2 cpu (s.tcb (s.running_thread cpu)).running_core free s
