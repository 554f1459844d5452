-- ===== src/Runs.antt =====
-- packages/deeprun-backend/src/agent/run-service.ts and the lifecycle methods of
-- lib/project-store.ts that it calls.
pub mod Db
pub mod Store
pub mod Effects
pub mod Tests
pub mod Correcting
pub mod Creation
pub mod Transitions
pub mod Worker
pub mod Limits
pub mod Paths
pub mod Execute
pub mod Answer
pub mod Answered
pub mod Processed
pub mod Recorded
pub mod Stages
pub mod Service
pub mod Step
