-- ===== src/RunLocks.antt =====
-- packages/deeprun-backend/src/lib/project-store.ts: the execution locks of agent runs.
pub mod Model
pub mod Exclusion
mod Tests
