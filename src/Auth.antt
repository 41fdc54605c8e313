-- ===== src/Auth.antt =====
-- internal/server/auth.go and internal/db/auth.go: logins, sessions and what they open.
pub mod Sessions
pub mod Lifetime
pub mod Granted
mod Scenarios
