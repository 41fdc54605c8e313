-- ===== src/Live.antt =====
-- internal/server/live.go: live updates to the clients of the users, and messages between their devices.
pub mod Hub
pub mod Messages
pub mod Isolation
pub mod Overflow
mod Scenarios
