-- ===== src/Thread/State.antt =====
-- The data of kernel/thread.h and the globals of kernel/thread.c. A thread is named by its id, the
-- index of its TCB; a list is the sequence of the ids of its TCBs.
use azalea.Prelude.{ℕ, ◌-◌, ◌^◌, Bool, not, Option, List, ℤ, ◌==◌, update, bit_and}
use azalea.Buddy.Api.{Memory}
use azalea.Thread.{CoreSet}

-- `enum thread_state_enum`
pub data ThreadState : Type 0 where
  notalloc : ThreadState
  created : ThreadState
  running : ThreadState
  ready : ThreadState
  blocked : ThreadState
  exited : ThreadState

abbrev pub intention_ready : ℕ
intention_ready = 8

abbrev pub intention_blocked : ℕ
intention_blocked = 16

abbrev pub intention_exited : ℕ
intention_exited = 32

-- `i & f`, and `i & ~f`
abbrev pub has_flag : ℕ → ℕ → Bool
has_flag i f = not (bit_and i f == 0)

abbrev pub without_flag : ℕ → ℕ → ℕ
without_flag i f = bit_and i (2 ^ 32 - 1 - f)

-- `TCB`. Its lock is empty in this build, and no code reads `flags`; an atomic counter is the
-- word that it holds.
pub record Tcb : Type 0 where
  pub stack : ℕ
  pub user_stack : ℕ
  pub stack_base : ℕ
  pub gen : ℕ
  pub running_core : ℕ  -- WORD
  pub state : ThreadState
  pub intention : ℕ
  pub name : ℕ
  pub signal_flag : ℕ
  pub signal_handler : ℕ
  pub time_slice : ℕ
  pub remaining_time_slice : ℤ
  pub time_quantum : ℕ
  pub remaining_time_quantum : ℤ
  pub acc_ltc : ℕ
  pub core_mask : CoreSet
  pub refc : ℕ

-- `struct thread_list`
pub record ThreadList : Type 0 where
  pub count : ℕ
  pub tcb_list : List ℕ

abbrev pub max_processor_count : ℕ
max_processor_count = 288

abbrev pub config_num_thread : ℕ
config_num_thread = 32767

abbrev pub config_tcb_size : ℕ
config_tcb_size = 0x1000

abbrev pub config_stack_size : ℕ
config_stack_size = 0x10000

abbrev pub page_size_4k : ℕ
page_size_4k = 0x1000

abbrev pub runnable_max : ℕ
runnable_max = 2048

abbrev pub default_time_slice : ℕ
default_time_slice = 10

abbrev pub infinite_time_quantum : ℕ
infinite_time_quantum = 0

-- `~0x0`, an `int` that is made a QWORD
abbrev pub init_name : ℕ
init_name = 2 ^ 64 - 1

-- A WORD of -1.
abbrev pub no_core : ℕ
no_core = 2 ^ 16 - 1

-- The globals of kernel/thread.c, with the memory that stacks are taken from. What is kept per
-- processor is indexed by its number.
pub record Sched : Type 0 where
  pub tcb : ℕ → Tcb
  pub runnable_list : ℕ → ThreadList
  pub blocked_list : ℕ → ThreadList
  pub local_tcb_list : ℕ → ThreadList
  pub global_tcb_list : ThreadList
  pub migrating_list : ThreadList
  pub running_thread : ℕ → ℕ
  pub running_thread_list : ℕ → Option ℕ
  pub tcb_base_addr : ℕ
  pub thread_cnt : ℕ
  pub exit_thread_cnt : ℕ
  pub memory : Memory

abbrev pub set_tcb : Sched → ℕ → Tcb → Sched
set_tcb s t tcb = record s { tcb = update s.tcb t tcb }

abbrev pub set_runnable : Sched → ℕ → ThreadList → Sched
set_runnable s cpu l = record s { runnable_list = update s.runnable_list cpu l }

abbrev pub set_blocked : Sched → ℕ → ThreadList → Sched
set_blocked s cpu l = record s { blocked_list = update s.blocked_list cpu l }

abbrev pub set_local : Sched → ℕ → ThreadList → Sched
set_local s cpu l = record s { local_tcb_list = update s.local_tcb_list cpu l }

abbrev pub set_global : Sched → ThreadList → Sched
set_global s l = record s { global_tcb_list = l }

abbrev pub set_migrating : Sched → ThreadList → Sched
set_migrating s l = record s { migrating_list = l }
