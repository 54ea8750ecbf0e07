-- ===== src/Buddy.antt =====
-- The buddy allocator of kernel/memory.c and kernel/memory.h. The functions that return an `int`
-- or -1 return an option. Each array of bytes is a function of the index.
pub mod Bits
pub mod Api
pub mod Cover
pub mod Lists
pub mod Search
pub mod Split
pub mod Size
pub mod Take
pub mod Merge
pub mod Held
pub mod Total
pub mod Sound
pub mod Release
pub mod Contract
pub mod Alloc
pub mod Free
pub mod Restore
pub mod Init
pub mod Fresh
pub mod Start
pub mod Counts
use Bits.{test_bit, put}
use azalea.Prelude.{
  ℕ, zero, suc, ◌+◌, ◌-◌, ◌*◌, ◌/◌, ◌%◌, ◌^◌, Bool, true, false, not, ◌&&◌, Option, none, some, ltb,
  leb, ◌==◌, if◌then◌else◌, b2n, update,
}
use azalea.Utility.{Ram, lk_memset}

-- `BITMAP`
pub record Bitmap : Type 0 where
  pub bitmap : ℕ → ℕ  -- BYTE*
  pub bitmap_count : ℕ  -- QWORD

-- `MM`
pub record Mm : Type 0 where
  pub max_level : ℕ
  pub smallest_block : ℕ
  pub used_size : ℕ
  pub start_addr : ℕ
  pub end_addr : ℕ
  pub block_index : ℕ → ℕ  -- BYTE*
  pub bitmap : ℕ → Bitmap  -- BITMAP*
  pub mm_spl : Bool  -- whether the spinlock is held

abbrev pub page_min_size : ℕ
page_min_size = 4096

abbrev pub mm_true : ℕ
mm_true = 1

abbrev pub mm_false : ℕ
mm_false = 0

-- `x >> k`
abbrev pub shr : ℕ → ℕ → ℕ
shr x zero = x
shr x (suc k) = shr x k / 2

-- `x << k`, where no bit is lost
abbrev pub shl : ℕ → ℕ → ℕ
shl x zero = x
shl x (suc k) = shl x k * 2

-- `(QWORD) (PAGE_MIN_SIZE << i)`: the shift is one of 32-bit integers, and its result is sign
-- extended.
unfoldable pub page_shl : ℕ → ℕ
page_shl i =
    let v = shl page_min_size i % 2 ^ 32 in if ltb v (2 ^ 31) then v else v + (2 ^ 64 - 2 ^ 32)

-- The QWORD that a `QWORD*` to byte `j` reads.
unfoldable pub load64 : (ℕ → ℕ) → ℕ → ℕ
load64 bm j =
    bm j
    + 2 ^ 8 * bm (j + 1)
    + 2 ^ 16 * bm (j + 2)
    + 2 ^ 24 * bm (j + 3)
    + 2 ^ 32 * bm (j + 4)
    + 2 ^ 40 * bm (j + 5)
    + 2 ^ 48 * bm (j + 6)
    + 2 ^ 56 * bm (j + 7)

-- `set_bitmap_flag`
unfoldable pub set_bitmap_flag : Mm → ℕ → ℕ → ℕ → Mm
set_bitmap_flag mm level offset flag = record mm { bitmap = update mm.bitmap level written }
  where
    entry : Bitmap
    entry = mm.bitmap level

    was : Bool
    was = test_bit (entry.bitmap (offset / 8)) (offset % 8)

    written : Bitmap
    written =
        if flag == mm_true
        then (record {
          bitmap = put entry.bitmap offset true;
          bitmap_count = if was then entry.bitmap_count else (entry.bitmap_count + 1) % 2 ^ 64;
        })
        else (record {
          bitmap = put entry.bitmap offset false;
          bitmap_count =
              if was then (entry.bitmap_count + 2 ^ 64 - 1) % 2 ^ 64 else entry.bitmap_count;
        })

-- `get_bitmap_flag`
unfoldable pub get_bitmap_flag : Mm → ℕ → ℕ → ℕ
get_bitmap_flag mm level offset =
    if test_bit ((mm.bitmap level).bitmap (offset / 8)) (offset % 8) then mm_true else mm_false

-- The loop of `find_free_block` from bit `i` on.
unfoldable pub scan : (ℕ → ℕ) → ℕ → ℕ → ℕ → Option ℕ
scan bm max_count zero i = none
scan bm max_count (suc fuel) i =
    let skip = scan bm max_count fuel (i + 64) in
    let next = scan bm max_count fuel (i + 1) in
    if ltb i max_count
    then (if ltb 0 ((max_count - i) / 64) && load64 bm (i / 8) == 0
        then skip
        else if test_bit (bm (i / 8)) (i % 8)
        then some i
        else next)
    else none

-- `find_free_block`; the loop makes at most `max_count` rounds.
unfoldable pub find_free_block : Mm → ℕ → Option ℕ
find_free_block mm level =
    if (mm.bitmap level).bitmap_count == 0
    then none
    else scan (mm.bitmap level).bitmap max_count max_count 0
  where
    max_count : ℕ
    max_count = shr mm.smallest_block level

-- The loops of `align_buddy_block` and `block_list_index`, with `n` rounds left.
unfoldable pub align_from : ℕ → ℕ → ℕ → ℕ
align_from size zero i = 0
align_from size (suc n) i = if leb size (page_shl i) then page_shl i else align_from size n (i + 1)

unfoldable pub align_buddy_block : Mm → ℕ → ℕ
align_buddy_block mm size = align_from size mm.max_level 0

unfoldable pub index_from : ℕ → ℕ → ℕ → Option ℕ
index_from size zero i = none
index_from size (suc n) i = if leb size (page_shl i) then some i else index_from size n (i + 1)

unfoldable pub block_list_index : Mm → ℕ → Option ℕ
block_list_index mm aligned_size = index_from aligned_size mm.max_level 0

-- The search of `alloc_buddy_block`, with `n` levels left from level `i` on: the level and offset.
unfoldable pub find_level : Mm → ℕ → ℕ → Option (ℕ × ℕ)
find_level mm zero i = none
find_level mm (suc n) i =
    let rest = find_level mm n (i + 1) in
    elim (find_free_block mm i) [ none ↦ rest | some offset ↦ some (i, offset) ]

-- The splitting loop of `alloc_buddy_block`, at level `level + n`.
unfoldable pub split : Mm → ℕ → ℕ → ℕ → ℕ × Mm
split mm level zero offset = (offset, mm)
split mm level (suc n) offset =
    split
      (set_bitmap_flag (set_bitmap_flag mm (level + n) (offset * 2) mm_false) (level + n)
        (offset * 2 + 1) mm_true)
      level n (offset * 2)

-- What `alloc_buddy_block` does with the block that it found.
unfoldable pub take_block : Mm → ℕ → ℕ × ℕ → ℕ × Mm
take_block mm level (i, offset) =
    split (set_bitmap_flag mm i offset mm_false) level (i - level) offset

-- `alloc_buddy_block`
unfoldable pub alloc_buddy_block : Mm → ℕ → Option (ℕ × Mm)
alloc_buddy_block mm aligned_size = elim (block_list_index mm aligned_size) [
  | none ↦ none
  | some level ↦ elim (find_level mm (mm.max_level - level) level) [
    | none ↦ none
    | some found ↦ some (take_block mm level found)
  ]
]

unfoldable pub buddy_of : ℕ → ℕ
buddy_of offset = if offset % 2 == 0 then offset + 1 else offset - 1

-- The loop of `free_buddy_block`, with `n` levels left from level `i` on.
unfoldable pub merge : Mm → ℕ → ℕ → ℕ → Mm
merge mm zero i offset = mm
merge mm (suc n) i offset =
    let freed = set_bitmap_flag mm i offset mm_true in
    let rest =
      merge (set_bitmap_flag (set_bitmap_flag freed i (buddy_of offset) mm_false) i offset mm_false)
        n (i + 1) (offset / 2) in
    if get_bitmap_flag freed i (buddy_of offset) == mm_false then freed else rest

-- `free_buddy_block`, which returns TRUE always
unfoldable pub free_buddy_block : Mm → ℕ → ℕ → Mm
free_buddy_block mm level offset = merge mm (mm.max_level - level) level offset
