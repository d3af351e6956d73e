-- ===== src/Pipeline/Tasks.antt =====
-- The task queue of the learning pipeline: the table pipeline_tasks and what hangs on its rows.
pub mod Tables
pub mod Columns
pub mod Queue
pub mod Runs
pub mod Recover
pub mod Lease
pub mod Messages
pub mod Fail
pub mod FailTask
pub mod Circuits
pub mod AgentRuns
pub mod Select
pub mod Claim
pub mod ClaimTask
pub mod Choice
pub mod Mechanical
pub mod Rows
pub mod Writes
pub mod Steps
pub mod Invariant
pub mod Ended
pub mod Recovered
pub mod RunEnds
pub mod Settled
pub mod Taken
pub mod Unblocked
pub mod Eligible
pub mod Outranked
pub mod Handout
pub mod Stalled
pub mod Results
pub mod Execution
pub mod Saved
mod Tests
