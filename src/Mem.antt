-- ===== src/Mem.antt =====
-- The memory cache (src/mem/cache.c): namespaces of blocks, with statistics.
pub mod Examples
pub mod DoubleFree
pub mod Accounts
pub mod Programs
pub mod Leaks
pub mod Calls
pub mod Tracked
pub mod Balance
pub mod Counts
pub mod Blocks
pub mod Namespace
pub mod Cache
