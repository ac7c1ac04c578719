-- ===== src/HostsFile.antt =====
-- crates/windows-platform/src/hosts.
pub mod Document
pub mod Edit
pub mod RoundTrip
pub mod Lines
pub mod Restoring
pub mod Canonical
pub mod Rollback
pub mod Report
pub mod Findings
