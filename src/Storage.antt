-- ===== src/Storage.antt =====
-- crates/cleanup-core/src/storage, with the paths of crates/cleanup-core/src/filesystem.rs.
pub mod Paths
pub mod Types
pub mod Requests
pub mod Evidence
pub mod Records
pub mod Duplicates
pub mod Keeping
pub mod Snapshots
pub mod Builder
pub mod PageRows
pub mod Indexing
pub mod LargeFiles
pub mod Collecting
pub mod Finish
pub mod Selecting
pub mod Places
pub mod Enumeration
pub mod Pages
pub mod Retention
pub mod Resolution
