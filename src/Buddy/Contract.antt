-- ===== src/Buddy/Contract.antt =====
-- What `az_alloc` and `az_free` do, from any state that satisfies the invariant.
use azalea.Prelude.{
  ℕ, ◌+◌, ◌*◌, ◌/◌, ◌%◌, ◌^◌, ◌≤◌, ◌<◌, ◌≡◌, refl, sym, ap, inl, inr, true, false, Bool-cases, ltb,
  ltb→lt, if◌then◌else◌, update, update-same, arith,
}
use azalea.Prelude.Words.{int_count, int_count-small}
use azalea.Utility.{lk_memset}
use azalea.Utility.Fill.{within, lk_memset_lem}
use azalea.Buddy.{Mm, shl, page_min_size, align_buddy_block, block_list_index, index_from}
use azalea.Buddy.Api.{Memory, lock, fail, hand_out}
use azalea.Buddy.Cover.{hit}
use azalea.Buddy.Counts.{pages, shl-eq-mul, bits_below_pos, pages-le-units}
use azalea.Buddy.Lists.{IsWellFormed, Frame, room, free_at, free_units, is_free}
use azalea.Buddy.Search.{IsClear}
use azalea.Buddy.Size.{IsFit, pages-le, top_level}
use azalea.Buddy.Take.{IsTaken}
use azalea.Buddy.Held.{held_at, block_inside}
use azalea.Buddy.Free.{IsOwned}
use azalea.Buddy.Sound.{IsSound, assigned, assigned-IsSound, assigned-held}

-- The block `o` of list `l` was handed out: it fits the request, its pages went from free to
-- held and no other page changed, and its bytes are zero.
pub record IsAllocated (m : Memory) (size l o : ℕ) (r : ℕ × Memory) : Type 0 where
  pub fit : IsFit m.free_memory size l
  pub inside : o < room m.free_memory l
  pub address : r.0 ≡ m.free_memory.start_addr + page_min_size * shl o l
  pub sound : IsSound r.1.free_memory
  pub free : (p : ℕ) → free_at r.1.free_memory p + hit l p o ≡ free_at m.free_memory p
  pub held : (p : ℕ) → held_at r.1.free_memory p ≡ held_at m.free_memory p + hit l p o
  pub owned : IsOwned r.1.free_memory l o r.0
  pub zeroed : (j : ℕ) → r.1.ram j ≡ (if within r.0 (page_min_size * pages l) j then 0 else m.ram j)

-- No block that could serve the request is free.
abbrev pub IsExhausted : Mm → ℕ → Type 0
IsExhausted mm size =
    (l : ℕ)
    → l < mm.max_level
    → size ≤ page_min_size * pages l
    → IsClear (mm.bitmap l).bitmap 0 (room mm l)

-- A failure leaves everything as it was.
pub fail_locked :
    (m : Memory)
    → IsSound m.free_memory
    → fail (record m { free_memory = lock m.free_memory }) ≡ (0, m)
fail_locked m s =
    λ i. (0, record m { free_memory = record (m.free_memory) { mm_spl = sym s.unlocked i } })

-- The state that `hand_out` leaves, with its arithmetic done.
handed : Memory → ℕ → ℕ → Mm → ℕ × Memory
handed m l o mm =
    let address = m.free_memory.start_addr + page_min_size * shl o l in
    (
      address,
      record m {
        free_memory = assigned m.free_memory l o mm;
        ram = lk_memset m.ram address 0 (page_min_size * pages l);
        alloc_count = (m.alloc_count + 1) % 2 ^ 64;
      },
    )

module _ (m : Memory) (size l o : ℕ) (mm : Mm) (s : IsSound m.free_memory)
    (fit : IsFit m.free_memory size l) (t : IsTaken m.free_memory l (o, mm)) where
  in_pool : shl o l + pages l ≤ m.free_memory.smallest_block
  in_pool = block_inside m.free_memory.smallest_block l o t.inside

  units_fit : mm.used_size + page_min_size * pages l ≤ page_min_size * m.free_memory.smallest_block
  units_fit = omega (arith, s.used, t.units, t.frame.used)

  offset_lem : page_min_size * pages l * o % 2 ^ 64 ≡ page_min_size * shl o l
  offset_lem = omega (arith, shl-eq-mul o l, in_pool, s.lists.small)

  hand_out-eq :
      hand_out (record m { free_memory = lock m.free_memory }) (page_min_size * pages l) l o mm
      ≡ handed m l o mm
  unfolding hand_out handed
  hand_out-eq = λ i. (
    address i,
    record m {
      free_memory = record mm {
        block_index = update mm.block_index (index i) (level i);
        used_size = used i;
        mm_spl = false;
      };
      ram = lk_memset m.ram (address i) 0 (bytes i);
      alloc_count = (m.alloc_count + 1) % 2 ^ 64;
    },
  )
    where
      address :
          (page_min_size * pages l * o % 2 ^ 64 + mm.start_addr) % 2 ^ 64
          ≡ m.free_memory.start_addr + page_min_size * shl o l
      address = omega (arith, offset_lem, in_pool, s.placed, s.reach, t.frame.start)

      index : page_min_size * pages l * o % 2 ^ 64 / page_min_size ≡ shl o l
      index = omega (arith, offset_lem)

      bytes : int_count (page_min_size * pages l) ≡ page_min_size * pages l
      bytes =
          int_count-small (page_min_size * pages l) (omega (arith, pages-le l top_level fit.low))

      level : l % 256 ≡ l
      level = omega (arith, fit.low)

      used :
          (mm.used_size + page_min_size * pages l) % 2 ^ 64 ≡ mm.used_size + page_min_size * pages l
      used = omega (arith, units_fit, s.lists.small)

  pub hand_out-IsAllocated :
      IsAllocated m size l o
        (hand_out (record m { free_memory = lock m.free_memory }) (page_min_size * pages l) l o mm)
  hand_out-IsAllocated = rw hand_out-eq (
      unfold handed in
      record {
        fit = fit;
        inside = t.inside;
        address = refl;
        sound = assigned-IsSound m.free_memory l o mm s t fit.level fit.low;
        free = t.at;
        held = assigned-held m.free_memory l o mm s t fit.level fit.low;
        owned = record {
          level = omega (arith, fit.level, t.frame.levels);
          low = fit.low;
          inside = rw t.frame.blocks t.inside;
          entry = update-same mm.block_index (shl o l) l;
          at_least = omega (arith, t.frame.start);
          first_page = omega (arith, t.frame.start);
        };
        zeroed = λ j.
            lk_memset_lem m.ram (m.free_memory.start_addr + page_min_size * shl o l) 0
              (page_min_size * pages l) j (omega arith);
      })

pub align-lock : (mm : Mm) (size : ℕ) → align_buddy_block (lock mm) size ≡ align_buddy_block mm size
unfolding align_buddy_block
align-lock mm size = refl

pub index-Frame :
    (a b : Mm) (size : ℕ) → Frame a b → block_list_index b size ≡ block_list_index a size
unfolding block_list_index
index-Frame a b size f = ap (λ n. index_from size n 0) f.levels

pub index-lock : (mm : Mm) (size : ℕ) → block_list_index (lock mm) size ≡ block_list_index mm size
unfolding block_list_index
index-lock mm size = refl

-- The invariant's lists do not depend on the lock.
pub lock-IsWellFormed : (mm : Mm) → IsWellFormed mm → IsWellFormed (lock mm)
lock-IsWellFormed mm w = record {
  bytes = w.bytes;
  counts = w.counts;
  pad = w.pad;
  height = w.height;
  small = w.small;
}

pub lock-IsTaken : (mm : Mm) (l : ℕ) (r : ℕ × Mm) → IsTaken (lock mm) l r → IsTaken mm l r
lock-IsTaken mm l r t = record {
  sound = t.sound;
  frame = record {
    levels = t.frame.levels;
    blocks = t.frame.blocks;
    used = t.frame.used;
    start = t.frame.start;
    last = t.frame.last;
    index = t.frame.index;
  };
  inside = t.inside;
  at = t.at;
  units = t.units;
}

-- A set bit of a list contradicts that nothing as large is left.
pub free_fits :
    (mm : Mm) (k j : ℕ)
    → IsWellFormed mm
    → k < mm.max_level
    → j < room mm k
    → is_free mm k j ≡ true
    → pages k ≤ free_units mm
free_fits mm k j w hk hj on =
    pages-le-units mm.bitmap mm.max_level 0 k k (omega arith) hk
      (ground (arith, w.counts k hk, bits_below_pos (mm.bitmap k).bitmap j (room mm k) hj, on))

-- Only the lists from the fitting one up can serve the request.
pub IsExhausted-above :
    (mm : Mm) (size l : ℕ)
    → IsFit mm size l
    → ((k : ℕ) → l ≤ k → k < mm.max_level → IsClear (mm.bitmap k).bitmap 0 (room mm k))
    → IsExhausted mm size
IsExhausted-above mm size l fit h k hk big = elim (Bool-cases (ltb k l)) [
  | inl lt ↦ absurd (omega (arith, fit.tight k (ltb→lt k l lt)))
  | inr ge ↦ h k (ground arith) hk
]
