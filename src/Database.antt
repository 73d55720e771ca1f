-- ===== src/Database.antt =====
-- src/database/database.go: the tables that `SQLiteDB` keeps, and how a statement or a transaction
-- runs on them. A statement of the engine succeeds, or fails with an error of the driver and changes
-- nothing: `faults` says, for the statements to come, which of them fail; when it is used up, none.
pub mod Pastes
pub mod Tokens
pub mod Tasks
pub mod State
