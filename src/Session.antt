-- ===== src/Session.antt =====
-- packages/deeprun-backend/src/agent/fs: a session that stages file changes, applies them to the
-- working tree, and commits, aborts or restores them.
pub mod Paths
pub mod Model
pub mod Validator
pub mod Diff
pub mod Disk
pub mod Staging
pub mod Applying
pub mod Restore
pub mod Backups
pub mod Writing
pub mod Transaction
pub mod Captures
pub mod Whole
pub mod Undo
pub mod Commit
pub mod Acceptance
mod Tests
