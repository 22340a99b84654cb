-- ===== src/Cache.antt =====
-- cache/: the caches of descriptions behind the interface of Base/Caches.
pub mod Lru
pub mod Sqlite
pub mod TwoTier
