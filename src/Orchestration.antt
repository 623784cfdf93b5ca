-- ===== src/Orchestration.antt =====
-- The orchestration of AI work (backend/app/services/orchestration.py).
pub mod State
pub mod Prompt
pub mod Attempts
pub mod Threads
pub mod Runs
pub mod Stage
pub mod Calls
pub mod Failover
pub mod Requests
pub mod Gate
pub mod Numbers
pub mod Memory
pub mod Stored
pub mod Ends
pub mod Refusals
pub mod Numbering
pub mod Answers
mod Tests
