-- ===== src/Media.antt =====
-- internal/media/service.go: the files of notes, the references to them, and their replicas.
pub mod Tables
pub mod Replicas
pub mod Service
pub mod Rows
pub mod Consistent
pub mod Reconcile
pub mod Saved
pub mod Named
pub mod Deletion
pub mod Creation
pub mod Lifecycle
pub mod Inline
pub mod Shared
mod Deleted
mod Scenarios
