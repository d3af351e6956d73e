-- ===== src/Pipeline.antt =====
-- The knowledge pipeline: src/domain/pipeline*.ts.
pub mod Scheduler
pub mod Transitions
pub mod Evidence
pub mod Limits
pub mod Tasks
