-- ===== src/Heap/Break.antt =====
-- What the calls on the program break in kernel/memory.c do in sequence.
use azalea.Prelude.{
  ℕ, ◌+◌, ◌-◌, ◌%◌, ◌^◌, ◌≤◌, ◌<◌, ◌≡◌, refl, sym, true, false, some, List, [], ◌∷◌, ltb,
  Bool-cases, inl, inr, arith,
}
use azalea.Heap.{Heap, heap_start, heap_size, in_heap, sys_sbrk, sys_brk}

-- A call on the break.
pub data Call : Type 0 where
  sbrk : ℕ → Call
  brk : ℕ → Call

-- What a sequence of calls leaves.
abbrev pub run : Heap → List Call → Heap
run h [] = h
run h (sbrk incr ∷ rest) = run (sys_sbrk h incr).1 rest
run h (brk val ∷ rest) = run (sys_brk h val).1 rest

-- Growing the heap by `n` bytes, with the new break in the heap as well, returns the old break;
-- shrinking it by as much returns the new one and brings the heap back.
pub sbrk-shrink :
    (h : Heap) (n : ℕ)
    → h.heap_lock ≡ false
    → heap_start ≤ h.heap_end
    → h.heap_end + n < heap_start + heap_size
    → ((sys_sbrk h n).0 ≡ some h.heap_end)
      × (sys_sbrk (sys_sbrk h n).1 ((2 ^ 64 - n) % 2 ^ 64) ≡ (some (h.heap_end + n), h))
unfolding sys_sbrk
sbrk-shrink h n u lo hi = rw now (
  refl,
  rw (moved, later) λ i. (some (h.heap_end + n), record { heap_end = back i; heap_lock = lock i }),
)
  where
    now : in_heap h.heap_end ≡ true
    now = ground arith

    moved : (h.heap_end + n) % 2 ^ 64 ≡ h.heap_end + n
    moved = omega arith

    later : in_heap (h.heap_end + n) ≡ true
    later = ground arith

    back : (h.heap_end + n + (2 ^ 64 - n) % 2 ^ 64) % 2 ^ 64 ≡ h.heap_end
    back = elim (Bool-cases (ltb 0 n)) [ inl pos ↦ ground arith | inr z ↦ ground arith ]

    lock : false ≡ h.heap_lock
    lock = λ i. sym u i
