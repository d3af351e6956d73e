-- ===== src/Release.antt =====
-- Knowledge releases: publishKnowledgeBatch, publishCompensatingChanges and
-- activateKnowledgeRelease of src/domain/publication.ts with the tables they work on. A uuid is a
-- number. The rows of `releases` are the newest first: a release's parent is active when it is
-- inserted, so it is an older row.
pub mod Tables
pub mod Publish
pub mod Activate
pub mod Replay
pub mod Keeps
pub mod Restore
pub mod Distinct
pub mod History
pub mod Restored
pub mod Sets
mod Tests
