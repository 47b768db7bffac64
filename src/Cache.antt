-- ===== src/Cache.antt =====
-- src/cache.rs: the bounded stores of sessions and clients that the proxy reuses.
pub mod HashMap
pub mod Lru
pub mod Sharded
