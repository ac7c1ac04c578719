-- ===== src/Protection.antt =====
-- crates/protection-core.
pub mod Options
pub mod Hex
pub mod Pack
pub mod PackLaws
pub mod PackVerifier
pub mod Matcher
pub mod Streaming
pub mod Policy
pub mod Version
pub mod VersionLaws
pub mod VersionRoundTrip
pub mod Update
pub mod UpdateLaws
pub mod Verifier
