-- ===== src/Buddy/Free.antt =====
-- `az_free` of kernel/memory.c meets its contract.
use native.Mathlib.Nat.{div-eq_of_lt-le}
use azalea.Prelude.{
  ℕ, zero, suc, ◌⊎◌, ◌+◌, ◌-◌, ◌*◌, ◌/◌, ◌%◌, ◌^◌, ◌≤◌, ◌<◌, ◌≡◌, refl, sym, ◌∙◌, ap, Bool, true,
  false, ◌==◌, arith, inl, inr, ==_refl,
}
use azalea.Prelude.Words.{extend_int, extend_int-small}
use azalea.Buddy.{Mm, shl, page_min_size, page_shl, free_buddy_block}
use azalea.Buddy.Api.{Memory, lock, unlock, az_free, give_back, reclaim}
use azalea.Buddy.Cover.{hit}
use azalea.Buddy.Counts.{pages, shl-eq-mul}
use azalea.Buddy.Lists.{room, free_at}
use azalea.Buddy.Size.{top_level, page_shl-eq, pages-le}
use azalea.Buddy.Merge.{IsFreed}
use azalea.Buddy.Held.{unassigned, held_at, block_inside}
use azalea.Buddy.Sound.{IsSound, free_unassigned}
use azalea.Buddy.Release.{cleared, released, freed, released-held, released-IsSound, units_fit}

-- The address lies in the first page of the block `o` of list `l`, and that block is handed out.
pub record IsOwned (mm : Mm) (l o address : ℕ) : Type 0 where
  pub level : l < mm.max_level
  pub low : l ≤ top_level
  pub inside : o < room mm l
  pub entry : mm.block_index (shl o l) ≡ l
  pub at_least : mm.start_addr + page_min_size * shl o l ≤ address
  pub first_page : address < mm.start_addr + page_min_size * shl o l + page_min_size

-- The block was taken back: its pages went from held to free, and no other page changed.
pub record IsReleased (m : Memory) (l o : ℕ) (r : Bool × Memory) : Type 0 where
  pub success : r.0 ≡ true
  pub sound : IsSound r.1.free_memory
  pub free : (p : ℕ) → free_at r.1.free_memory p ≡ free_at m.free_memory p + hit l p o
  pub held : (p : ℕ) → held_at r.1.free_memory p + hit l p o ≡ held_at m.free_memory p
  pub ram : r.1.ram ≡ m.ram
  pub start : r.1.free_memory.start_addr ≡ m.free_memory.start_addr
  pub entry : r.1.free_memory.block_index (shl o l) ≡ unassigned

shl-ge : (o l : ℕ) → o ≤ shl o l
shl-ge o zero = omega arith
shl-ge o (suc l) = omega (arith, shl-ge o l)

module _ (m : Memory) (l o address : ℕ) (s : IsSound m.free_memory)
    (w : IsOwned m.free_memory l o address) where
  mm : Mm
  mm = m.free_memory

  in_pool : shl o l + pages l ≤ mm.smallest_block
  unfolding mm
  in_pool = block_inside m.free_memory.smallest_block l o w.inside

  -- Both offsets fit an `int`.
  low_offset : extend_int o ≡ o
  unfolding mm
  low_offset = extend_int-small o (omega (arith, shl-ge o l, pages-le 0 l, s.lists.small, in_pool))

  low_index : extend_int (shl o l) ≡ shl o l
  unfolding mm
  low_index = extend_int-small (shl o l) (omega (arith, s.lists.small, in_pool, pages-le 0 l))

  rel : ℕ
  rel = (address + 2 ^ 64 - m.free_memory.start_addr) % 2 ^ 64

  rel_eq : rel ≡ address - m.free_memory.start_addr
  unfolding rel mm
  rel_eq =
      omega
        (arith, w.at_least, w.first_page, in_pool, pages-le 0 l (omega arith), s.placed, s.reach)

  page_eq : rel / page_min_size ≡ shl o l
  page_eq = omega (arith, rel_eq, w.at_least, w.first_page)

  size_eq : page_shl l ≡ page_min_size * pages l
  size_eq = page_shl-eq l w.low

  offset_eq : rel / (page_min_size * pages l) ≡ o
  offset_eq =
      div-eq_of_lt-le (page_min_size * pages l)
        (omega
          (arith, rel_eq, w.at_least, w.first_page, shl-eq-mul o l, pages-le 0 l (omega arith)))
        (omega
          (arith, rel_eq, w.at_least, w.first_page, shl-eq-mul o l, pages-le 0 l (omega arith)))

  -- The state when `az_free` has reset the block's entry.
  opened : Memory
  opened = record m { free_memory = cleared m.free_memory l o }

  done : Bool × Memory
  done = (
    true,
    record m {
      free_memory = released l (free_buddy_block (cleared m.free_memory l o) l o);
      free_count = (m.free_count + 1) % 2 ^ 64;
    },
  )

  give_back-eq : (r : ℕ) → r / (page_min_size * pages l) ≡ o → give_back opened r l ≡ done
  unfolding give_back opened done
  give_back-eq r e =
      rw (size_eq, e, low_offset, nonzero)
        (λ i. (
          true,
          record m {
            free_memory = record after { used_size = fits i; mm_spl = false };
            free_count = (m.free_count + 1) % 2 ^ 64;
          },
        ))
    where
      after : Mm
      after = free_buddy_block (cleared m.free_memory l o) l o

      f : IsFreed (cleared m.free_memory l o) l o after
      f = freed m.free_memory l o s w.level w.low w.inside w.entry

      nonzero : (page_min_size * pages l == 0) ≡ false
      nonzero = ground (arith, pages-le 0 l)

      fits :
          (after.used_size + 2 ^ 64 - page_min_size * pages l) % 2 ^ 64
          ≡ after.used_size - page_min_size * pages l
      fits = omega (
        arith,
        f.frame.used,
        s.used,
        s.lists.small,
        units_fit m.free_memory l o s w.level w.low w.inside w.entry after f,
      )

  reclaim-eq :
      (r : ℕ)
      → r / page_min_size ≡ shl o l
      → r / (page_min_size * pages l) ≡ o
      → reclaim (record m { free_memory = lock m.free_memory }) r ≡ done
  unfolding reclaim
  reclaim-eq r e e' =
      rw (e, low_index, w.entry, assigned_entry) (unfold opened in give_back-eq r e')
    where
      assigned_entry : (l == unassigned) ≡ false
      assigned_entry = ground (arith, w.low)

  -- What `az_free` computes, with its arithmetic done.
  az_free-eq : az_free m address ≡ done
  unfolding az_free rel
  az_free-eq = rw nonzero (reclaim-eq rel page_eq offset_eq)
    where
      nonzero : (address == 0) ≡ false
      nonzero = ground (arith, w.at_least, s.above_null)

-- `az_free` of an address in the first page of a handed-out block takes that block back, and no
-- other page changes.
pub az_free-IsReleased :
    (m : Memory) (l o address : ℕ)
    → IsSound m.free_memory
    → IsOwned m.free_memory l o address
    → IsReleased m l o (az_free m address)
unfolding done
az_free-IsReleased m l o address s w = rw (az_free-eq m l o address s w) (record {
  success = refl;
  sound = released-IsSound m.free_memory l o s w.level w.low w.inside w.entry after f;
  free = f.at;
  held = released-held m.free_memory l o s w.level w.low w.inside w.entry after f;
  ram = refl;
  start = f.frame.start;
  entry = ap (λ g. g (shl o l)) f.frame.index ∙ written;
})
  where
    after : Mm
    after = free_buddy_block (cleared m.free_memory l o) l o

    f : IsFreed (cleared m.free_memory l o) l o after
    f = freed m.free_memory l o s w.level w.low w.inside w.entry

    written : (cleared m.free_memory l o).block_index (shl o l) ≡ unassigned
    written = rw (==_refl (shl o l))

-- The lock that is taken is released.
unlocked-same :
    (m : Memory)
    → IsSound m.free_memory
    → ◌≡◌ {A = Bool × Memory}
        (false, record m { free_memory = unlock (lock m.free_memory) })
        (false, m)
unlocked-same m s =
    λ i. (false, record m { free_memory = record (m.free_memory) { mm_spl = sym s.unlocked i } })

-- NULL, or an address in a page of the pool that is free.
unfoldable pub IsNotHeld : Mm → ℕ → Type 0
IsNotHeld mm address =
    (address ≡ 0)
    ⊎ ((mm.start_addr ≤ address)
        × ((address - mm.start_addr) / page_min_size < mm.smallest_block)
        × (1 ≤ free_at mm ((address - mm.start_addr) / page_min_size)))

-- From a sound state, `az_free` of NULL, or of an address in a page of the pool that is free, as
-- after a block was given back before, fails and changes nothing.
pub az_free-refuses :
    (m : Memory) (address : ℕ)
    → IsSound m.free_memory
    → IsNotHeld m.free_memory address
    → az_free m address ≡ (false, m)
unfolding az_free reclaim IsNotHeld
az_free-refuses m address s (inl null) = rw null (unlocked-same m s)
az_free-refuses m address s (inr (lo, hi, free)) = rw (given, rel, index, entry) (unlocked-same m s)
  where
    given : address == 0 ≡ false
    given = ground (arith, s.above_null)

    rel :
        (address + 2 ^ 64 - m.free_memory.start_addr) % 2 ^ 64 ≡ address - m.free_memory.start_addr
    rel = omega (arith, s.placed, s.reach)

    index :
        extend_int ((address - m.free_memory.start_addr) / page_min_size)
        ≡ (address - m.free_memory.start_addr) / page_min_size
    index = extend_int-small _ (omega (arith, s.lists.small))

    entry :
        m.free_memory.block_index ((address - m.free_memory.start_addr) / page_min_size)
        ≡ unassigned
    entry =
        free_unassigned m.free_memory ((address - m.free_memory.start_addr) / page_min_size) s hi
          free
