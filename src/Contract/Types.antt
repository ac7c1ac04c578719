-- ===== src/Contract/Types.antt =====
-- The closed data model of crates/cleanup-core/src/system_change.rs: changes, the state that is
-- observed before one, and their properties. `u8`, `u32` and `u64` fields are natural numbers.
use supa_diska_klinah.Base.{ℕ, Bool, Option, List, Text, ℕ_discrete}
use supa_diska_klinah.Contract.Ids.{
  CatalogId, EntryName, DriverPackageName, ScheduleId, Sha256Digest, PowerSchemeId,
  ChangeDescription,
}

pub data SystemModule : Type 0 where
  startup services drivers firewall hosts privacy power restore updates scheduler : SystemModule

pub data StartupScope : Type 0 where
  user machine : StartupScope

pub data StartupLocation : Type 0 where
  run run32 startup_folder : StartupLocation

pub record StartupEntryRef : Type 0 where
  pub scope : StartupScope
  pub location : StartupLocation
  pub name : EntryName

pub data ServiceStartType : Type 0 where
  automatic manual disabled : ServiceStartType

pub data ServiceStartState : Type 0 where
  boot system automatic manual disabled : ServiceStartState

pub data FirewallProfile : Type 0 where
  domain private public : FirewallProfile

pub data HostsLineAction : Type 0 where
  disable restore_line : HostsLineAction

pub record HostsLineOp : Type 0 where
  pub line : ℕ
  pub action : HostsLineAction

pub data Weekday : Type 0 where
  monday tuesday wednesday thursday friday saturday sunday : Weekday

pub data ScheduleCadence : Type 0 where
  daily : (hour minute : ℕ) → ScheduleCadence
  weekly : (day : Weekday) (hour minute : ℕ) → ScheduleCadence

pub data SystemChange : Type 0 where
  set_startup_entry : (entry : StartupEntryRef) (enabled : Bool) → SystemChange
  set_service_start_type : (catalog_id : CatalogId) (start_type : ServiceStartType) → SystemChange
  set_user_setting : (setting_id : CatalogId) (value : Option ℕ) → SystemChange
  set_machine_setting : (setting_id : CatalogId) (value : Option ℕ) → SystemChange
  set_system_task_enabled : (catalog_id : CatalogId) (enabled : Bool) → SystemChange
  set_windows_update_policy : (setting_id : CatalogId) (value : Option ℕ) → SystemChange
  set_firewall_rule_enabled : (rule_name : EntryName) (enabled : Bool) → SystemChange
  set_firewall_profile_enabled : (profile : FirewallProfile) (enabled : Bool) → SystemChange
  set_hibernation : (enabled : Bool) → SystemChange
  set_active_power_scheme : (scheme : PowerSchemeId) → SystemChange
  delete_driver_package : (published_name : DriverPackageName) → SystemChange
  edit_hosts : (line_ops : List HostsLineOp) → SystemChange
  create_restore_point : (description : ChangeDescription) → SystemChange
  upsert_scan_schedule : (schedule_id : ScheduleId) (cadence : ScheduleCadence) → SystemChange
  remove_scan_schedule : (schedule_id : ScheduleId) → SystemChange

pub data Privilege : Type 0 where
  standard helper : Privilege

pub data Reversibility : Type 0 where
  reversible reversible_with_backup : Reversibility
  irreversible : (reason : Text) → Reversibility

pub data PriorState : Type 0 where
  enabled_state : (enabled : Bool) → PriorState
  service_start : (start : ServiceStartState) → PriorState
  registry_value : (value : Option ℕ) → PriorState
  power_scheme : (scheme : PowerSchemeId) → PriorState
  driver_package : (present : Bool) → PriorState
  hosts_file : (sha256 : Sha256Digest) → PriorState
  schedule : (cadence : Option ScheduleCadence) → PriorState
  not_applicable : PriorState

pub data InverseError : Type 0 where
  irreversible_change prior_mismatch prior_not_writable : InverseError

pub data RiskLevel : Type 0 where
  low medium high : RiskLevel

pub data RestartRequirement : Type 0 where
  no_restart sign_out reboot : RestartRequirement

pub record ImpactSummary : Type 0 where
  pub component : Text
  pub effect : Text
  pub restart : RestartRequirement
  pub risk : RiskLevel

unfoldable pub ServiceStartState-discrete : Discrete ServiceStartState
ServiceStartState-discrete = hlevel

unfoldable pub SystemModule-discrete : Discrete SystemModule
SystemModule-discrete = hlevel

unfoldable pub OptionValue-discrete : Discrete (Option ℕ)
OptionValue-discrete = hlevel ℕ_discrete

unfoldable pub PowerSchemeId-discrete : Discrete PowerSchemeId
PowerSchemeId-discrete = hlevel ℕ_discrete

unfoldable pub OptionCadence-discrete : Discrete (Option ScheduleCadence)
OptionCadence-discrete = hlevel ℕ_discrete

unfoldable pub Bool-discrete : Discrete Bool
Bool-discrete = hlevel

unfoldable pub Privilege-discrete : Discrete Privilege
Privilege-discrete = hlevel

unfoldable pub SystemChange-discrete : Discrete SystemChange
SystemChange-discrete = hlevel ℕ_discrete

unfoldable pub PriorState-discrete : Discrete PriorState
PriorState-discrete = hlevel ℕ_discrete
