-- ===== src/Decision.antt =====
-- packages/deeprun-backend/src/governance/decision.ts and agent/graph-governance.ts beside it.
pub mod Model
pub mod Accepting
pub mod Passing
pub mod Graphs
pub mod Canonical
pub mod Reordered
mod Tests
