-- ===== src/Jobs.antt =====
-- packages/deeprun-backend/src/governance/governance-store.ts: the queue of governance jobs, which
-- workers claim under a lease with a generation.
pub mod Model
pub mod Calls
pub mod Candidate
pub mod Rows
pub mod Fence
pub mod Stale
pub mod Claiming
mod Tests
