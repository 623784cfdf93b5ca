-- ===== src/Work.antt =====
-- Work management (backend/app/services/work.py): projects, milestones, sprints and tasks.
pub mod State
pub mod Tasks
pub mod Changes
pub mod Calls
pub mod Links
pub mod Found
pub mod Kept
pub mod Notes
pub mod Writes
pub mod Refs
pub mod Tests
