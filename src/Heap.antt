-- ===== src/Heap.antt =====
-- The program break of kernel/memory.c: `sys_sbrk` and `sys_brk`, on unsigned 64-bit words.
pub mod Break
use azalea.Prelude.{
  ℕ, ◌+◌, ◌-◌, ◌%◌, ◌^◌, Bool, true, false, Option, none, some, ◌&&◌, ltb, leb, if◌then◌else◌,
}

abbrev pub heap_start : ℕ
heap_start = 0x40000000

abbrev pub heap_size : ℕ
heap_size = 0x280000000

pub record Heap : Type 0 where
  pub heap_end : ℕ
  pub heap_lock : Bool

-- What `free_mem_init` sets.
abbrev pub init_heap : Heap
init_heap = record { heap_end = heap_start; heap_lock = false }

-- The guard of both calls.
abbrev pub in_heap : ℕ → Bool
in_heap p = leb heap_start p && ltb p (heap_start + heap_size)

-- `sys_sbrk` by the word `incr`; none stands for -ENOMEM.
unfoldable pub sys_sbrk : Heap → ℕ → Option ℕ × Heap
sys_sbrk h incr =
    if in_heap h.heap_end
    then (some h.heap_end, record { heap_end = (h.heap_end + incr) % 2 ^ 64; heap_lock = false })
    else (none, record h { heap_lock = false })

-- `sys_brk`; whether it succeeds.
unfoldable pub sys_brk : Heap → ℕ → Bool × Heap
sys_brk h val =
    if in_heap h.heap_end
    then (true, record { heap_end = val; heap_lock = false })
    else (false, record h { heap_lock = false })
