-- ===== src/Jobs.antt =====
-- The durable job queue and its worker.
pub mod State
pub mod Row
pub mod Queue
pub mod Valid
pub mod Guards
pub mod Reach
pub mod Attempts
pub mod Idempotency
pub mod Claims
pub mod Serving
pub mod Backoff
pub mod Worker
mod Tests
