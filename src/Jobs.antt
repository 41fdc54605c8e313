-- ===== src/Jobs.antt =====
-- internal/jobs/jobs.go, with the job tables of internal/db/db.go.
pub mod Table
pub mod Manager
pub mod Worker
pub mod Schedule
pub mod Unique
pub mod Sound
pub mod Fifo
pub mod Lifecycle
pub mod Interleaving
pub mod Claimed
pub mod Exclusion
pub mod Requests
pub mod Janitor
pub mod Recovery
mod Scenarios
