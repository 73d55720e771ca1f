-- ===== src/Task.antt =====
-- src/task: the tasks of the scheduler; here the backups that they keep.
pub mod Retention
pub mod Order
pub mod SizeCap
