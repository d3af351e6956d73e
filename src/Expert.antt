-- ===== src/Expert.antt =====
-- Expert tasks: src/domain/tasks.ts, src/domain/researcher.ts and the worker's part of
-- src/domain/publication.ts. The children share the tables of Store.
pub mod Store
pub mod Rows
pub mod Lifecycle
pub mod Researcher
pub mod Client
pub mod Worker
pub mod Claims
pub mod Steps
pub mod Leases
pub mod Maintenance
pub mod Access
pub mod Idempotence
pub mod Races
pub mod Exclusive
pub mod Milestones
mod Tests
