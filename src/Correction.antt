-- ===== src/Correction.antt =====
-- packages/deeprun-backend/src/agent/correction/policy-engine.ts.
pub mod Metadata
pub mod Paths
pub mod Policy
pub mod Prefixes
pub mod Allowed
pub mod Resolved
pub mod Passing
mod Tests
