-- ===== src/RunJobs.antt =====
-- packages/deeprun-backend/src/lib/project-store.ts: the queue of run jobs, of which a run has at
-- most one that is active.
pub mod Model
pub mod Unique
pub mod Moves
pub mod Statuses
mod Tests
