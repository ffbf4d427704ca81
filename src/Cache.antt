-- ===== src/Cache.antt =====
-- The tile cache: the memory tier, the disk tier and the stack of both (internal/cache).
pub mod Memory
pub mod Disk
pub mod Tiered
