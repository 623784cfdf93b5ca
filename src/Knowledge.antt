-- ===== src/Knowledge.antt =====
-- The knowledge base: documents, their versions and their reviews.
pub mod State
pub mod Slug
pub mod Slugs
pub mod Documents
pub mod Versions
pub mod Writes
pub mod Edits
pub mod History
pub mod Consistency
pub mod Reach
mod Tests
