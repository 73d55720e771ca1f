-- ===== src/Scheduler/Cron.antt =====
-- src/scheduler/cron.go: schedules, in a location without shifts of its clock, as UTC.
pub mod Next
pub mod Field
