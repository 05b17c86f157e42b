-- ===== src/ChangeSet.antt =====
-- delivery_changes.go: the record of what a run wants to commit.
pub mod Types
pub mod Normalize
pub mod Merge
pub mod Paths
pub mod Apply
pub mod Recorded
