-- ===== src/Snapshot.antt =====
-- internal/application/publisher/apply.go: the snapshots of a target.
pub mod Types
pub mod Load
pub mod Exact
pub mod Cleanup
pub mod Needed
pub mod Kept
pub mod Left
pub mod Bounds
mod Examples
