-- ===== src/Protection/Policy.antt =====
-- crates/protection-core/src/policy.rs: the network opt-ins and the capabilities that they mint.
use supa_diska_klinah.Base.{◌≡◌, ◌↔◌, ◌⊎◌, inl, inr, Bool, true, false, Option, none, some, arith}

pub record ProtectionNetworkPolicy : Type 0 where
  pub rule_download : Bool
  pub password_breach_check : Bool

pub data NetworkPurpose : Type 0 where
  rule_download_purpose password_breach_purpose update_check : NetworkPurpose

-- Its private field keeps other modules from building one.
pub record NetworkCapability : Type 0 where
  pub purpose : NetworkPurpose

unfoldable pub allows : ProtectionNetworkPolicy → NetworkPurpose → Bool
allows policy rule_download_purpose = policy.rule_download
allows policy password_breach_purpose = policy.password_breach_check
allows policy update_check = false

abbrev then_some : Bool → NetworkPurpose → Option NetworkCapability
then_some true purpose = some (record { purpose = purpose })
then_some false purpose = none

unfoldable pub protection_capability :
    ProtectionNetworkPolicy → NetworkPurpose → Option NetworkCapability
unfolding allows
protection_capability policy purpose = then_some (allows policy purpose) purpose

pub record UpdateCheckPolicy : Type 0 where
  pub enabled : Bool

unfoldable pub update_capability : UpdateCheckPolicy → Option NetworkCapability
update_capability policy = then_some policy.enabled update_check

abbrev pub default_policy : ProtectionNetworkPolicy
default_policy = record { rule_download = false; password_breach_check = false }

-- The opt-in that stands for each purpose.
abbrev pub OptedIn : ProtectionNetworkPolicy → UpdateCheckPolicy → NetworkPurpose → Type 0
OptedIn p u rule_download_purpose = p.rule_download ≡ true
OptedIn p u password_breach_purpose = p.password_breach_check ≡ true
OptedIn p u update_check = u.enabled ≡ true

-- The ways to get a capability for a purpose.
abbrev pub CanMint : ProtectionNetworkPolicy → UpdateCheckPolicy → NetworkPurpose → Type 0
CanMint p u purpose =
    ((asked : NetworkPurpose) × (protection_capability p asked
        ≡ some (record { purpose = purpose })))
    ⊎ (update_capability u ≡ some (record { purpose = purpose }))

minted :
    (p : ProtectionNetworkPolicy) (u : UpdateCheckPolicy) (purpose : NetworkPurpose)
    → CanMint p u purpose
    → OptedIn p u purpose
unfolding protection_capability update_capability
minted p u purpose (inl (asked, h)) = ground arith
minted p u purpose (inr h) = ground arith

mints :
    (p : ProtectionNetworkPolicy) (u : UpdateCheckPolicy) (purpose : NetworkPurpose)
    → OptedIn p u purpose
    → CanMint p u purpose
unfolding protection_capability update_capability
mints p u rule_download_purpose h = inl (rule_download_purpose, ground arith)
mints p u password_breach_purpose h = inl (password_breach_purpose, ground arith)
mints p u update_check h = inr (ground arith)

-- A capability for a purpose can be minted from the two policies exactly if the opt-in of that
-- very purpose is on, the update check's being that of the update policy.
pub capability_iff :
    (p : ProtectionNetworkPolicy) (u : UpdateCheckPolicy) (purpose : NetworkPurpose)
    → CanMint p u purpose ↔ OptedIn p u purpose
capability_iff p u purpose = (minted p u purpose, mints p u purpose)
