-- ===== src/Database/Pastes.antt =====
-- src/database/database.go, the paste operations. `now` is the instant that `time.Now()` returns.
pub mod Burn
pub mod Rows
pub mod Calls
pub mod Listing
pub mod Ops
