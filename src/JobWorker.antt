-- ===== src/JobWorker.antt =====
-- packages/deeprun-backend/src/governance/governance-worker.ts.
pub mod Model
pub mod Settling
pub mod Losing
mod Tests
