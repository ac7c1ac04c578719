-- ===== src/Contract.antt =====
-- crates/cleanup-core/src/system_change.rs.
pub mod Ids
pub mod Types
pub mod Changes
pub mod Plans
pub mod Journal
pub mod Trimming
pub mod Inverse
pub mod IdLaws
pub mod Entries
pub mod Outcomes
pub mod HostsEdit
