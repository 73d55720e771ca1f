-- ===== src/Cache.antt =====
-- src/cache/cache.go: the interface that the handlers use, and its drivers "memory" and "none".
pub mod Memory
pub mod Driver
