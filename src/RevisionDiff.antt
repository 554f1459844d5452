-- ===== src/RevisionDiff.antt =====
-- packages/deeprun-backend/src/agent/graph-revision-diff.ts.
pub mod Model
pub mod Changes
pub mod Keys
pub mod Exact
mod Tests
