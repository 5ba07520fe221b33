-- ===== src/Cache.antt =====
-- internal/cache: the result cache and the negative cache.
pub mod Ttl
pub mod Negative
mod Tests
