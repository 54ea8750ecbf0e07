-- ===== src/Tests/Breaks.antt =====
-- The calls of kernel/memory.c on the program break, at small numbers.
use azalea.Prelude.{◌+◌, ◌-◌, ◌%◌, ◌^◌, ◌≡◌, refl, false, some, arith}
use azalea.Heap.{Heap, init_heap, heap_start, sys_sbrk}
use azalea.Heap.Break.{sbrk-shrink}

sbrk-shrink_example :
    ((sys_sbrk init_heap 4096).0 ≡ some heap_start)
    × (sys_sbrk (sys_sbrk init_heap 4096).1 ((2 ^ 64 - 4096) % 2 ^ 64)
        ≡ (some (heap_start + 4096), init_heap))
sbrk-shrink_example = sbrk-shrink init_heap 4096 refl (omega arith) (omega arith)

-- A heap whose break was moved below its start.
abbrev below : Heap
below = record { heap_end = 100; heap_lock = false }
