-- ===== src/Cache.antt =====
-- The caches of upstream responses: that of pings, legacy_ping_cache.go.
pub mod Ping
