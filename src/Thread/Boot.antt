-- ===== src/Thread/Boot.antt =====
-- `sched_init` and `thread_init` of kernel/thread.c, which fill the lists and the TCBs when the
-- kernel starts.
use azalea.Prelude.{
  ℕ, zero, suc, ◌+◌, ◌*◌, ◌%◌, ◌^◌, Option, none, some, ◌==◌, if◌then◌else◌, update, pos,
}
use azalea.Buddy.Api.{Memory, az_alloc}
use azalea.Thread.{init_core_mask}
use azalea.Thread.State.{
  notalloc, created, Tcb, Sched, set_tcb, set_runnable, set_blocked, set_local, set_global,
  set_migrating, config_tcb_size, page_size_4k, max_processor_count, config_num_thread,
  default_time_slice, infinite_time_quantum, init_name, no_core,
}
use azalea.Thread.Lists.{empty_list, put_in}

-- `THREAD_IDLE_THREAD_TIME_SLICE`, and `IDLE_THREAD_ADDRESS_VA`
abbrev pub idle_thread_time_slice : ℕ
idle_thread_time_slice = 10

abbrev pub idle_thread_address : ℕ
idle_thread_address = 0x800000 + 0xFFFF8000C0000000

-- NULL, which is the id of no TCB.
abbrev pub no_thread : ℕ
no_thread = max_processor_count + config_num_thread

-- The loop of `sched_init` over the processors.
unfoldable pub sched_init_from : ℕ → Sched → Sched
sched_init_from zero s = s
sched_init_from (suc i) s =
    let s' = sched_init_from i s in
    record (set_blocked (set_runnable s' i empty_list) i empty_list) {
      running_thread = update s'.running_thread i no_thread;
    }

-- `sched_init`
unfoldable pub sched_init : Sched → Sched
sched_init s = set_migrating (sched_init_from max_processor_count s) empty_list

-- A free TCB whose address is `tcb`, and the TCB of the idle thread of core `i`.
abbrev pub free_tcb : ℕ → Tcb
free_tcb tcb = record {
  stack = tcb + config_tcb_size;
  user_stack = 0;
  stack_base = tcb + config_tcb_size;
  gen = 0;
  running_core = no_core;
  state = notalloc;
  intention = 0;
  name = init_name;
  signal_flag = 0;
  signal_handler = 0;
  time_slice = default_time_slice;
  remaining_time_slice = pos default_time_slice;
  time_quantum = infinite_time_quantum;
  remaining_time_quantum = pos infinite_time_quantum;
  acc_ltc = 0;
  core_mask = init_core_mask;
  refc = 0;
}

abbrev pub idle_tcb : ℕ → Tcb
idle_tcb i =
    let tcb = (idle_thread_address + config_tcb_size * i) % 2 ^ 64 in
    record {
      stack = tcb + config_tcb_size;
      user_stack = 0;
      stack_base = tcb + config_tcb_size;
      gen = 0;
      running_core = i;
      state = created;
      intention = 0;
      name = 0;
      signal_flag = 0;
      signal_handler = 0;
      time_slice = idle_thread_time_slice;
      remaining_time_slice = pos idle_thread_time_slice;
      time_quantum = infinite_time_quantum;
      remaining_time_quantum = pos infinite_time_quantum;
      acc_ltc = 0;
      core_mask = init_core_mask;
      refc = 0;
    }

-- The three loops of `thread_init`: over the processors, the TCBs and the idle threads.
unfoldable pub init_local_lists : ℕ → Sched → Sched
init_local_lists zero s = s
init_local_lists (suc i) s =
    let s' = init_local_lists i s in
    record (set_local s' i empty_list) {
      running_thread_list = update s'.running_thread_list i none;
    }

unfoldable pub init_tcbs : ℕ → Sched → Sched
init_tcbs zero s = s
init_tcbs (suc i) s =
    let s' = init_tcbs i s in
    let t = max_processor_count + i in
    set_global (set_tcb s' t (free_tcb (s'.tcb_base_addr + page_size_4k * i)))
      (put_in t s'.global_tcb_list)

unfoldable pub init_idle_threads : ℕ → Sched → Sched
init_idle_threads zero s = s
init_idle_threads (suc i) s = set_tcb (init_idle_threads i s) i (idle_tcb i)

-- `thread_init`; none is the halt when there is no memory for the TCBs.
unfoldable pub thread_init : Sched → Option Sched
thread_init s =
    let s' = init_local_lists max_processor_count (set_global s empty_list) in
    let r = az_alloc s'.memory (page_size_4k * config_num_thread) in
    if r.0 == 0
    then none
    else some (
        init_idle_threads max_processor_count
          (init_tcbs config_num_thread (record s' { tcb_base_addr = r.0; memory = r.1 })))

-- The globals before that: every list is empty, as zeroed memory is.
abbrev pub zeroed : (ℕ → Tcb) → Memory → Sched
zeroed tcbs m = record {
  tcb = tcbs;
  runnable_list = λ c. empty_list;
  blocked_list = λ c. empty_list;
  local_tcb_list = λ c. empty_list;
  global_tcb_list = empty_list;
  migrating_list = empty_list;
  running_thread = λ c. no_thread;
  running_thread_list = λ c. none;
  tcb_base_addr = 0;
  thread_cnt = 0;
  exit_thread_cnt = 0;
  memory = m;
}
