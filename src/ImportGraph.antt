-- ===== src/ImportGraph.antt =====
-- packages/deeprun-backend/src/agent/validation/graph-builder.ts: the cycles of the graph of imports.
pub mod Model
pub mod Sets
pub mod Walks
pub mod Search
pub mod Cycles
mod Tests
