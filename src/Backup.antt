-- ===== src/Backup.antt =====
-- internal/backup/retention.go: which backups are kept and which are deleted.
pub mod Calendar
pub mod Retention
pub mod Greedy
pub mod Sorting
pub mod Chosen
pub mod Policy
mod Scenarios
