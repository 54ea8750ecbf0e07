-- ===== src/Thread/Tcbs.antt =====
-- The TCBs of kernel/thread.c: allocation, reference counts, destruction and the requests that one
-- thread leaves in the TCB of another. None is a halt of the kernel (`debug_halt`, or a loop
-- without end); `cpu` is the processor that runs, and a `Bool` named `free` tells whether
-- `spinlock_trylock` gets the lock.
use azalea.Prelude.{
  ℕ, ◌+◌, ◌-◌, ◌*◌, ◌%◌, ◌^◌, Bool, true, false, ◌&&◌, Option, none, some, List, [], ◌∷◌, ◌++◌, pos,
  ltb, leb, ◌==◌, if◌then◌else◌, bit_or,
}
use azalea.Buddy.Api.{az_free}
use azalea.Thread.{init_core_mask}
use azalea.Thread.State.{
  ThreadState, notalloc, created, running, ready, blocked, exited, Tcb, Sched, set_tcb, set_local,
  set_global, config_tcb_size, config_stack_size, page_size_4k, max_processor_count,
  config_num_thread, default_time_slice, infinite_time_quantum, init_name, no_core, intention_ready,
  intention_blocked, intention_exited, without_flag,
}
use azalea.Thread.Lists.{take_out, put_in, empty_list}

abbrev pub is_state : ThreadState → ThreadState → Bool
is_state notalloc notalloc = true
is_state created created = true
is_state running running = true
is_state ready ready = true
is_state blocked blocked = true
is_state exited exited = true
is_state _ _ = false

-- What `alloc_tcb` writes to a TCB.
abbrev pub fresh_tcb : Tcb → Tcb
fresh_tcb tcb = record tcb {
  refc = 1;
  user_stack = 0;
  time_slice = default_time_slice;
  remaining_time_slice = pos default_time_slice;
  time_quantum = infinite_time_quantum;
  remaining_time_quantum = pos infinite_time_quantum;
  intention = 0;
  running_core = no_core;
  core_mask = init_core_mask;
  name = init_name;
  state = created;
}

-- The end of `alloc_tcb`.
unfoldable pub take_tcb : ℕ → Sched → ℕ × Sched
take_tcb t s = (t, set_tcb s t (fresh_tcb (s.tcb t)))

-- `alloc_tcb` from the list of the processor, and from the global one.
unfoldable pub alloc_local : ℕ → Sched → List ℕ → Option (ℕ × Sched)
alloc_local cpu s [] = none
alloc_local cpu s (t ∷ l) =
    if ltb 0 (s.tcb t).refc
    then none
    else some (take_tcb t (set_local s cpu (take_out t (s.local_tcb_list cpu))))

unfoldable pub alloc_global : Sched → List ℕ → Option (ℕ × Sched)
alloc_global s [] = none
alloc_global s (t ∷ l) = some (take_tcb t (set_global s (take_out t s.global_tcb_list)))

-- `alloc_tcb`
unfoldable pub alloc_tcb : ℕ → Sched → Option (ℕ × Sched)
alloc_tcb cpu s =
    if (s.local_tcb_list cpu).count == 0
    then alloc_global s s.global_tcb_list.tcb_list
    else alloc_local cpu s (s.local_tcb_list cpu).tcb_list

-- `is_idle_thread`
abbrev pub is_idle_thread : ℕ → Bool
is_idle_thread t = ltb t max_processor_count

-- `init_tcb` for `THREAD_INIT_CREATE`
unfoldable pub init_tcb_create : Sched → ℕ → ℕ → Sched
init_tcb_create s t stack = set_tcb s t (record (s.tcb t) {
  stack_base = stack + config_stack_size;
  remaining_time_slice = pos default_time_slice;
  remaining_time_quantum = pos infinite_time_quantum;
  name = init_name;
  acc_ltc = 0;
})

-- `init_tcb` for `THREAD_INIT_DESTROY`, and `gen++`
unfoldable pub init_tcb_destroy : Sched → ℕ → Sched
init_tcb_destroy s t =
    let tcb = s.tcb t in
    let address = s.tcb_base_addr + page_size_4k * (t - max_processor_count) in
    record (set_tcb s t (record tcb {
      stack = address + config_tcb_size;
      stack_base = address + config_tcb_size;
      state = notalloc;
      running_core = no_core;
      gen = (tcb.gen + 1) % 2 ^ 32;
    })) { memory = (az_free s.memory (tcb.stack_base - config_stack_size)).1 }

-- `dl_list_append` of the processor's list to the global one, with its count.
unfoldable pub append_local : ℕ → Sched → Sched
append_local cpu s =
    set_local
      (set_global s (record {
        count = (s.global_tcb_list.count + (s.local_tcb_list cpu).count) % 2 ^ 64;
        tcb_list = s.global_tcb_list.tcb_list ++ (s.local_tcb_list cpu).tcb_list;
      }))
      cpu empty_list

-- The lists part of `destroy_tcb`.
unfoldable pub file_tcb : ℕ → Bool → Sched → ℕ → Sched
file_tcb cpu free s t =
    let file = λ (s : Sched). set_local s cpu (put_in t (s.local_tcb_list cpu)) in
    if ltb 1 (s.local_tcb_list cpu).count && free
    then set_global s (put_in t s.global_tcb_list)
    else if ltb 4 (s.local_tcb_list cpu).count
    then file (append_local cpu s)
    else file s

-- `destroy_tcb`
unfoldable pub destroy_tcb : ℕ → Bool → Sched → ℕ → Sched
destroy_tcb cpu free s t =
    let s' = init_tcb_destroy (file_tcb cpu free s t) t in
    record s' {
      exit_thread_cnt = (s.exit_thread_cnt + 1) % 2 ^ 32;
      thread_cnt = (s.thread_cnt + 2 ^ 32 - 1) % 2 ^ 32;
    }

-- `get_tcb`; the result none is NULL.
unfoldable pub get_tcb : Sched → ℕ → Option Sched
get_tcb s tid =
    if leb (max_processor_count + config_num_thread) tid
    then none
    else if is_state (s.tcb tid).state notalloc
    then none
    else some (set_tcb s tid (record (s.tcb tid) { refc = ((s.tcb tid).refc + 1) % 2 ^ 32 }))

-- `atomic_dec` of the reference count
unfoldable pub drop_ref : Sched → ℕ → Sched
drop_ref s t = set_tcb s t (record (s.tcb t) { refc = ((s.tcb t).refc + 2 ^ 32 - 1) % 2 ^ 32 })

-- `put_tcb`
unfoldable pub put_tcb : ℕ → Bool → Sched → ℕ → Option Sched
put_tcb cpu free s t =
    if (s.tcb t).refc == 1
    then (if is_state (s.tcb t).state exited
        then some (destroy_tcb cpu free (drop_ref s t) t)
        else if is_state (s.tcb t).state notalloc
        then some (drop_ref s t)
        else none)
    else some (drop_ref s t)

-- `thread_exit`
unfoldable pub thread_exit : Sched → ℕ → Sched
thread_exit s t = set_tcb s t (record (s.tcb t) {
  state = exited;
  intention = without_flag (s.tcb t).intention intention_exited;
})

-- What `thread_suspend`, `thread_wake_up` and `lk_thread_set_name` do to a TCB. The first two
-- follow the NULL of a thread that does not exist; the third halts then.
unfoldable pub with_tcb : ℕ → Bool → Sched → ℕ → (Tcb → Tcb) → Option Sched
with_tcb cpu free s tid f = elim (get_tcb s tid) [
  | none ↦ none
  | some s' ↦ put_tcb cpu free (set_tcb s' tid (f (s'.tcb tid))) tid
]

unfoldable pub thread_suspend : ℕ → Bool → Sched → ℕ → Option Sched
thread_suspend cpu free s tid =
    with_tcb cpu free s tid λ tcb. record tcb { intention = bit_or tcb.intention intention_blocked }

unfoldable pub thread_wake_up : ℕ → Bool → Sched → ℕ → Option Sched
thread_wake_up cpu free s tid =
    with_tcb cpu free s tid λ tcb. record tcb { intention = bit_or tcb.intention intention_ready }

unfoldable pub lk_thread_set_name : ℕ → Bool → Sched → ℕ → ℕ → Option Sched
lk_thread_set_name cpu free s tid name = with_tcb cpu free s tid λ tcb. record tcb { name = name }

-- `sys_getpid`
abbrev pub sys_getpid : ℕ → Sched → ℕ
sys_getpid cpu s = s.running_thread cpu
