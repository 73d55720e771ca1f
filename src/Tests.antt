-- ===== src/Tests.antt =====
-- Concrete states, and what the operations compute on them.
mod Data
mod Pastes
mod Access
mod Creating
mod Compat
mod Backups
mod Schedules
mod Caching
mod Serving
mod Requests
mod Monitoring
mod Scheduling
mod Web
mod Logs
mod Reports
