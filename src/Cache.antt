-- ===== src/Cache.antt =====
-- src/cache/: the local cache and the two-level cache manager over it.
pub mod Lru
pub mod Redis
pub mod Manager
