-- ===== src/GraphIdentity.antt =====
-- packages/deeprun-backend/src/agent/graph-identity.ts.
pub mod Model
pub mod Repeats
pub mod Walks
pub mod Degrees
pub mod Release
pub mod Kahn
pub mod Acyclic
pub mod Identity
pub mod Order
pub mod Unordered
mod Tests
