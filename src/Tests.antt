-- ===== src/Tests.antt =====
-- Concrete runs of the kernel's code: the theorems of the other files at small states.
pub mod Pools
pub mod Buffers
pub mod Channels
pub mod Threads
pub mod Breaks
pub mod Regions
pub mod Strings
pub mod Messages
pub mod Calls
