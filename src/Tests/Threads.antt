-- ===== src/Tests/Threads.antt =====
-- A state of kernel/thread.c with one thread that may run on processor 0, one free TCB in the list
-- of that processor, and the other TCBs in the global list.
use azalea.Prelude.{
  bit_or, ℕ, zero, suc, ◌+◌, ◌*◌, ◌^◌, ◌≤◌, ◌<◌, ◌≡◌, ◌≢◌, refl, true, false, ◌&&◌, none, some, ◌⊎◌,
  inl, inr, List, [], ◌∷◌, ◌==◌, ltb, leb, if◌then◌else◌, b2n, arith,
}
use azalea.Buddy.Total.{sum}
use azalea.Buddy.{
  align_buddy_block, align_from, page_shl, block_list_index, index_from, alloc_buddy_block,
  find_level, find_free_block, scan, load64, take_block, split, set_bitmap_flag,
}
use azalea.Buddy.Bits.{test_bit}
use azalea.Prelude.Words.{int_count, extend_int}
use azalea.Buddy.Api.{Memory, az_alloc, serve, finish, hand_out}
use azalea.Thread.{core_is_allowed}
use azalea.Thread.State.{
  intention_blocked, intention_ready, ready, Tcb, ThreadList, Sched, set_local, config_num_thread,
  page_size_4k, config_stack_size,
}
use azalea.Thread.Lists.{times, length, empty_list, take_out, without}
use azalea.Thread.Tcbs.{thread_suspend, thread_wake_up, alloc_tcb, alloc_local, take_tcb}
use azalea.Thread.Requests.{IsAlive, IsAsked, thread_suspend-IsAsked}
use azalea.Thread.Select.{
  select_next_thread, select_from, select_scanned, scan_runnable, scan_rest, visit, consider,
  pick_thread,
}
use azalea.Thread.Switch.{post_context_switch}
use azalea.Thread.Create.{Code, create_thread}
use azalea.Thread.Placed.{processors, IsSched}
use azalea.Thread.Scans.{IsUnlimited}
use azalea.Thread.Picks.{first_that_may_run, may_run, IsExiting, select_next_thread-first}
use azalea.Thread.Chosen.{select_next_thread-some}
use azalea.Thread.Wakes.{IsPrev, post_context_switch-IsSched}
use azalea.Thread.Clones.{IsCreated, create_thread-ready}
use azalea.Thread.Boot.{free_tcb, idle_tcb, zeroed, sched_init, thread_init}
use azalea.Thread.Booted.{IsBooted, thread_init-IsBooted}

ids : ℕ → ℕ → List ℕ
ids first zero = []
ids first (suc n) = first ∷ ids (first + 1) n

times-ids : (t first n : ℕ) → times t (ids first n) ≡ b2n (leb first t && ltb t (first + n))
unfolding ids
times-ids t first zero = ground arith
times-ids t first (suc n) = ground (arith, times-ids t (first + 1) n)

length-ids : (first n : ℕ) → length (ids first n) ≡ n
unfolding ids
length-ids first zero = refl
length-ids first (suc n) = omega (arith, length-ids (first + 1) n)

-- A pool of 2 ^ 15 pages, free as one block.
abbrev memory : Memory
memory = record {
  free_memory = record {
    max_level = 16;
    smallest_block = 2 ^ 15;
    used_size = 0;
    start_addr = 4096;
    end_addr = 4096 + 4096 * 2 ^ 15;
    block_index = λ a. 255;
    bitmap = λ l. record {
      bitmap = λ j. if l == 15 && j == 0 then 1 else 0;
      bitmap_count = if l == 15 then 1 else 0;
    };
    mm_spl = false;
  };
  alloc_count = 0;
  free_count = 0;
  ram = λ a. 0;
}

abbrev tcbs : ℕ → Tcb
tcbs t =
    if t == 288
    then record (free_tcb 0) { state = ready; refc = 1; running_core = 0 }
    else if ltb t 288
    then idle_tcb t
    else free_tcb (4096 * t)

abbrev the_thread : ℕ
the_thread = 288

abbrev at_first : ThreadList → ℕ → ThreadList
at_first l c = if c == 0 then l else empty_list

abbrev one_thread : Sched
one_thread = record (zeroed tcbs memory) {
  runnable_list = at_first (record { count = 1; tcb_list = 288 ∷ [] });
  local_tcb_list = at_first (record { count = 1; tcb_list = 289 ∷ [] });
  global_tcb_list = record { count = 32765; tcb_list = ids 290 32765 };
  running_thread = λ c. c;
}

sum-at_first :
    (t u n : ℕ)
    → 1 ≤ n
    → sum (λ c. times t (at_first (record { count = 1; tcb_list = u ∷ [] }) c).tcb_list) n
      ≡ b2n (u == t)
sum-at_first t u zero h = absurd (omega arith)
sum-at_first t u (suc zero) h = omega arith
sum-at_first t u (suc (suc n)) h = ground (arith, sum-at_first t u (suc n))

sum-none : (t n : ℕ) → sum (λ c. times t empty_list.tcb_list) n ≡ 0
sum-none t zero = refl
sum-none t (suc n) = omega (arith, sum-none t n)

some_processors : 5 < processors
unfolding processors
some_processors = omega arith

one_thread-IsSched : IsSched one_thread
one_thread-IsSched = record {
  placed = λ t.
      let n : 1 ≤ processors = omega (arith, some_processors) in
      let r = sum-at_first t 288 processors n in
      let l = sum-at_first t 289 processors n in
      let g = times-ids t 290 32765 in
      let b = sum-none t processors in
      record { free = ground (arith, l, g); work = ground (arith, r); wait = ground (arith, b) };
  runnable = λ c. ground arith;
  blocked = λ c. refl;
  local = λ c. ground arith;
  global = rw (length-ids 290 32765) refl;
  migrating = refl;
}

one_thread-IsUnlimited : IsUnlimited one_thread
unfolding IsUnlimited
one_thread-IsUnlimited t = ground arith

select_next_thread-some_example :
    (t : ℕ) × (s : Sched) × (select_next_thread 0 (λ n t. true) one_thread ≡ some (t, s))
    × IsSched s
select_next_thread-some_example =
    select_next_thread-some 0 (λ n t. true) one_thread (omega (arith, some_processors))
      one_thread-IsSched one_thread-IsUnlimited

-- The thread that is ready.
picked : first_that_may_run 0 one_thread (288 ∷ []) ≡ some 288
unfolding first_that_may_run may_run core_is_allowed
picked = refl

chosen : select_next_thread 0 (λ n t. true) one_thread ≡ some (288, pick_thread 0 one_thread 288)
unfolding select_next_thread select_from select_scanned scan_runnable scan_rest visit consider
    core_is_allowed pick_thread
chosen = refl

select_next_thread-first_example :
    (the_thread ≡ 288) ⊎ ((the_thread ≡ 0) × (x : ℕ) × IsExiting 0 one_thread x)
select_next_thread-first_example =
    select_next_thread-first 0 288 288 (λ n t. true) one_thread (pick_thread 0 one_thread 288)
      (omega (arith, some_processors)) one_thread-IsSched picked chosen

in_list : IsPrev 0 one_thread 288
unfolding IsPrev
in_list = inr (inl (omega arith))

post_context_switch-IsSched_example :
    (s : Sched) × (post_context_switch 0 (λ t. true) true one_thread 288 ≡ some s) × IsSched s
post_context_switch-IsSched_example =
    post_context_switch-IsSched 0 (λ t. true) true one_thread 288 (omega (arith, some_processors))
      one_thread-IsSched in_list

abbrev code : Code
code = record { elf_load_entry = 0x200000; exit_address = 0x1000; return_address = 0x2000 }

-- The TCB of the processor's list is taken.
abbrev taken : Sched
taken = (take_tcb 289 (set_local one_thread 0 (take_out 289 (one_thread.local_tcb_list 0)))).1

taken_first : alloc_tcb 0 one_thread ≡ some (289, taken)
unfolding alloc_tcb alloc_local take_tcb take_out without
taken_first = refl

-- The pool has memory for a stack, and for all TCBs.
stack_allocated : (az_alloc memory config_stack_size).0 ≡ 4096
unfolding az_alloc serve finish hand_out align_buddy_block align_from page_shl block_list_index
    index_from alloc_buddy_block find_level find_free_block scan load64 take_block split
    set_bitmap_flag int_count extend_int test_bit
stack_allocated = refl

tcbs_allocated : (az_alloc memory (page_size_4k * config_num_thread)).0 ≡ 4096
unfolding az_alloc serve finish hand_out align_buddy_block align_from page_shl block_list_index
    index_from alloc_buddy_block find_level find_free_block scan load64 take_block split
    set_bitmap_flag int_count extend_int test_bit
tcbs_allocated = refl

stack_taken : (az_alloc taken.memory config_stack_size).0 ≢ 0
unfolding take_tcb
stack_taken = omega (arith, stack_allocated)

create_thread-ready_example :
    (s : Sched) × (create_thread code 0 true one_thread 0 7 none ≡ some (289, s))
    × IsCreated one_thread 289 ((az_alloc taken.memory config_stack_size).0) s
create_thread-ready_example =
    create_thread-ready code 0 true one_thread taken 289 0 7 none (omega (arith, some_processors))
      one_thread-IsSched taken_first stack_taken

thread_init-IsBooted_example :
    (s : Sched) × (thread_init (sched_init (zeroed tcbs memory)) ≡ some s) × IsBooted s
thread_init-IsBooted_example = thread_init-IsBooted tcbs memory (omega (arith, tcbs_allocated))

ready-IsAlive : IsAlive one_thread 288
unfolding IsAlive
ready-IsAlive = (omega arith, refl, omega arith, omega arith)

thread_suspend-IsAsked_example :
    ((s : Sched) × (thread_suspend 0 true one_thread 288 ≡ some s)
      × IsAsked one_thread 288 (bit_or 0 intention_blocked) s)
    × ((s : Sched) × (thread_wake_up 0 true one_thread 288 ≡ some s)
        × IsAsked one_thread 288 (bit_or 0 intention_ready) s)
thread_suspend-IsAsked_example = thread_suspend-IsAsked 0 true one_thread 288 ready-IsAlive
