-- ===== src/Tests.antt =====
-- Tests and examples.
mod Evaluate
mod Contracts
mod Updates
mod Walks
mod Packs
mod Sessions
mod Hosts
mod Snapshots
