-- ===== src/Database/Tokens.antt =====
-- src/database/database.go, the API tokens. `now` is the instant of `time.Now()`.
pub mod Laws
pub mod Ops
