-- ===== src/Devops.antt =====
-- Delivery: deployments, rollbacks and the pipeline that leads to them.
pub mod State
pub mod Deploy
pub mod Pipeline
pub mod Run
pub mod Outcomes
pub mod Approval
pub mod Stages
pub mod Gate
pub mod Once
pub mod Trail
pub mod Recorded
mod Tests
