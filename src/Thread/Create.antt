-- ===== src/Thread/Create.antt =====
-- `create_thread` and `sys_clone` of kernel/thread.c.
use azalea.Prelude.{
  ℕ, ◌+◌, ◌-◌, ◌*◌, ◌%◌, ◌^◌, Bool, Option, none, some, List, [], ◌∷◌, ◌==◌, if◌then◌else◌,
}
use azalea.Utility.{Ram, store64}
use azalea.Buddy.Api.{az_alloc}
use azalea.Thread.{set_core}
use azalea.Thread.State.{ready, Sched, set_tcb, set_migrating, config_stack_size, no_core}
use azalea.Thread.Lists.{put_in}
use azalea.Thread.Tcbs.{alloc_tcb, init_tcb_create, get_tcb, put_tcb}

-- `*(--kstack) = value`, for each of the values: the stack pointer and the memory.
unfoldable pub push : List ℕ → ℕ → Ram → ℕ × Ram
push [] kstack ram = (kstack, ram)
push (v ∷ l) kstack ram = push l (kstack - 8) (store64 ram (kstack - 8) v)

-- The words that `setup_thread` pushes up to RIP, after that, and below the general registers.
abbrev pub user_context : ℕ → ℕ → List ℕ
user_context stack_address entrypoint =
    0x10 ∷ (stack_address + config_stack_size - 8) ∷ 0x3200 ∷ 0x08 ∷ entrypoint ∷ []

abbrev pub segments : List ℕ
segments = 0x10 ∷ 0x10 ∷ 0x10 ∷ 0x10 ∷ []

abbrev pub kernel_context : ℕ → List ℕ
kernel_context return_address = return_address ∷ 0 ∷ 0 ∷ 0 ∷ 0 ∷ 0 ∷ 0 ∷ []

-- `setup_thread`: the stack pointer of the thread, and the memory. The addresses of
-- `__thread_exit` and `return_from_setup_thread` are given.
unfoldable pub setup_thread : ℕ → ℕ → ℕ → ℕ → ℕ → ℕ → Ram → ℕ × Ram
setup_thread exit_address return_address stack entrypoint stack_address param ram =
    let top = stack_address + config_stack_size in
    let user =
      push (user_context stack_address entrypoint) stack (store64 ram (top - 8) exit_address) in
    let params = store64 (store64 user.1 (user.0 - 6 * 8) param) (user.0 - 7 * 8) param in
    let rbp = push (top ∷ []) user.0 params in
    let frame = push segments (rbp.0 - 14 * 8) rbp.1 in
    push (kernel_context return_address) frame.0 frame.1

-- What `create_thread` is told about the code: the entry of the loaded program, and two addresses.
pub record Code : Type 0 where
  pub elf_load_entry : ℕ
  pub exit_address : ℕ
  pub return_address : ℕ

-- The core mask that `create_thread` is given: none is -1.
abbrev pub core_word : Option ℕ → ℕ
core_word none = no_core
core_word (some core) = core % 2 ^ 16

-- `create_thread` up to the lists: the thread gets a stack, a mask and a context.
unfoldable pub prepare : Code → Sched → ℕ → ℕ → ℕ → Option ℕ → Sched
prepare code s t ip argv core =
    let r = az_alloc s.memory config_stack_size in
    let s' = init_tcb_create (record s { memory = r.1 }) t (r.0) in
    let tcb = record (s'.tcb t) { running_core = core_word core; core_mask = set_core core } in
    let entry = if ip == 0 then code.elf_load_entry else ip in
    let context =
      setup_thread code.exit_address code.return_address tcb.stack entry (r.0) argv r.1.ram in
    record (set_tcb s' t (record tcb { stack = context.0 })) {
      memory = record r.1 { ram = context.1 };
    }

-- The end of `create_thread`: the thread is ready, in the list of the migrating ones.
unfoldable pub enlist : Sched → ℕ → Sched
enlist s t =
    set_tcb (set_migrating s (put_in t s.migrating_list)) t (record (s.tcb t) { state = ready })

-- `create_thread`: the id of the thread.
unfoldable pub create_taken :
    Code → ℕ → Bool → ℕ → ℕ → Option ℕ → Option (ℕ × Sched) → Option (ℕ × Sched)
create_taken code cpu free ip argv core none = none
create_taken code cpu free ip argv core (some (t, s)) = elim (get_tcb s t) [
  | none ↦ none
  | some s' ↦ elim (put_tcb cpu free (enlist (prepare code s' t ip argv core) t) t) [
    | none ↦ none
    | some s'' ↦ some (t, record s'' { thread_cnt = (s''.thread_cnt + 1) % 2 ^ 32 })
  ]
]

unfoldable pub create_thread : Code → ℕ → Bool → Sched → ℕ → ℕ → Option ℕ → Option (ℕ × Sched)
create_thread code cpu free s ip argv core =
    create_taken code cpu free ip argv core (alloc_tcb cpu s)

-- `sys_clone`, for a place that the id is written to.
unfoldable pub sys_clone : Code → ℕ → Bool → Sched → ℕ → ℕ → Option (ℕ × Sched)
sys_clone code cpu free s ep argv = create_thread code cpu free s ep argv none
