-- ===== src/Memory.antt =====
-- src/memory: the arena allocator and the cache-aligned data structures.
pub mod Arena
pub mod OrderBook
pub mod AmmPool
