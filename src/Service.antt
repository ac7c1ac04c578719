-- ===== src/Service.antt =====
-- crates/windows-platform/src/system_change/mod.rs.
pub mod Types
pub mod Plans
pub mod Execution
pub mod Planning
pub mod Recovery
pub mod WriteAhead
pub mod WriteAheadRun
pub mod PlanChecks
pub mod PlanLaws
pub mod Soundness
pub mod SoundnessRun
pub mod Reports
pub mod Confirmation
pub mod Lifecycle
pub mod Reachable
pub mod Batch
pub mod Execute
