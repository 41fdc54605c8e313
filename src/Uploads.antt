-- ===== src/Uploads.antt =====
-- internal/server/chunked_upload.go: uploads that arrive in chunks, and the file that is made of them.
pub mod Sessions
pub mod Handlers
pub mod Finalize
pub mod Rows
pub mod Sound
pub mod Counting
pub mod Opening
pub mod Closing
pub mod Preserve
pub mod Assembly
pub mod Delivery
pub mod AutoFinish
pub mod Finishing
pub mod Completion
pub mod Once
pub mod Race
mod Scenarios
