-- ===== src/Thread.antt =====
-- The core mask of a thread in kernel/thread.c and kernel/thread.h: a set bit forbids a core.
pub mod Mask
pub mod State
pub mod Lists
pub mod Tcbs
pub mod Placed
pub mod Moves
pub mod Ends
pub mod Exits
pub mod Visits
pub mod Scans
pub mod Chosen
pub mod Picks
pub mod Wakes
pub mod Requests
pub mod Starts
pub mod Clones
pub mod Boot
pub mod Booted
pub mod Select
pub mod Switch
pub mod Create
use azalea.Prelude.{ℕ, ◌-◌, ◌/◌, ◌%◌, ◌^◌, Bool, not, Option, none, some, ◌==◌, update, bit_and}

-- `core_set_t`: the eight DWORDs of the mask, which stand for 256 cores. The code checks no bound.
abbrev pub CoreSet : Type 0
CoreSet = ℕ → ℕ

-- `FILL_CORE_MASK` and `INIT_CORE_MASK`, which set every byte of the mask.
abbrev pub fill_core_mask : CoreSet
fill_core_mask i = 2 ^ 32 - 1

abbrev pub init_core_mask : CoreSet
init_core_mask i = 0

-- `CLEAR_CORE_MASK`
unfoldable pub clear_core_mask : CoreSet → ℕ → CoreSet
clear_core_mask mask i = update mask (i / 32) (bit_and (mask (i / 32)) (2 ^ 32 - 1 - 2 ^ (i % 32)))

-- `core_is_allowed`, with `ISSET_CORE_MASK`
unfoldable pub core_is_allowed : CoreSet → ℕ → Bool
core_is_allowed mask cid = bit_and (mask (cid / 32)) (2 ^ (cid % 32)) == 0

-- `set_core`: the mask that the thread gets; none is the core -1.
unfoldable pub set_core : Option ℕ → CoreSet
set_core none = init_core_mask
set_core (some core) = clear_core_mask fill_core_mask core
