-- ===== src/TaskOverview.antt =====
-- pkg/notetype/taskoverview: the dashboard of tasks, its scores and its daily selection.
pub mod Types
pub mod TimeText
pub mod Scoring
pub mod Stats
pub mod Daily
pub mod Selection
pub mod Latest
pub mod Generations
pub mod History
mod Scenarios
