-- ===== src/Handler.antt =====
-- src/handler/paste.go: the paste handlers over a database and an optional cache. A request reads the
-- clock once: all its calls of `time.Now()` give the instant `now`.
pub mod Codes
pub mod Serve
pub mod Cached
pub mod Request
pub mod Create
pub mod Raw
pub mod Compat
