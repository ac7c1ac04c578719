-- ===== src/Contract/Changes.antt =====
-- The methods of `SystemChange` and of its parts in crates/cleanup-core/src/system_change.rs:
-- module, privilege, reversibility, validation, satisfaction and inversion.
use supa_diska_klinah.Base.{
  ℕ, Bool, true, false, not, ◌&&◌, ◌||◌, Option, none, some, List, [], ◌∷◌, map, Result, ok, err,
  ◌>>=◌, Text, codes, length, is_empty, leb, ltb, ◌==◌, if◌then◌else◌, same, ok_or,
}
use supa_diska_klinah.Contract.Ids.{
  ContractError, invalid_schedule, too_many_line_ops, empty_line_ops, duplicate_line,
}
use supa_diska_klinah.Contract.Types.{
  SystemModule, startup, services, drivers, firewall, hosts, privacy, power, restore, updates,
  scheduler, StartupScope, user, machine, ServiceStartType, ServiceStartState, HostsLineAction,
  disable, restore_line, HostsLineOp, ScheduleCadence, daily, weekly, SystemChange,
  set_startup_entry, set_service_start_type, set_user_setting, set_machine_setting,
  set_system_task_enabled, set_windows_update_policy, set_firewall_rule_enabled,
  set_firewall_profile_enabled, set_hibernation, set_active_power_scheme, delete_driver_package,
  edit_hosts, create_restore_point, upsert_scan_schedule, remove_scan_schedule, Privilege, standard,
  helper, Reversibility, reversible, reversible_with_backup, irreversible, PriorState,
  enabled_state, service_start, registry_value, power_scheme, driver_package, hosts_file, schedule,
  InverseError, irreversible_change, prior_mismatch, prior_not_writable, ServiceStartState-discrete,
  OptionValue-discrete, PowerSchemeId-discrete, OptionCadence-discrete, Bool-discrete,
}

abbrev pub max_hosts_line_ops : ℕ
max_hosts_line_ops = 64

-- `From<ServiceStartType> for ServiceStartState`.
unfoldable pub start_state : ServiceStartType → ServiceStartState
start_state ServiceStartType.automatic = ServiceStartState.automatic
start_state ServiceStartType.manual = ServiceStartState.manual
start_state ServiceStartType.disabled = ServiceStartState.disabled

unfoldable pub writable : ServiceStartState → Option ServiceStartType
writable ServiceStartState.automatic = some ServiceStartType.automatic
writable ServiceStartState.manual = some ServiceStartType.manual
writable ServiceStartState.disabled = some ServiceStartType.disabled
writable ServiceStartState.boot = none
writable ServiceStartState.system = none

unfoldable pub inverse_action : HostsLineAction → HostsLineAction
inverse_action disable = restore_line
inverse_action restore_line = disable

abbrev in_day : ℕ → ℕ → Result ContractError (Unit {0})
in_day hour minute = if ltb hour 24 && ltb minute 60 then ok tt else err invalid_schedule

unfoldable pub validate_cadence : ScheduleCadence → Result ContractError (Unit {0})
validate_cadence (daily hour minute) = in_day hour minute
validate_cadence (weekly _ hour minute) = in_day hour minute

unfoldable pub module_of : SystemChange → SystemModule
module_of (set_startup_entry _ _) = startup
module_of (set_service_start_type _ _) = services
module_of (set_user_setting _ _) = privacy
module_of (set_machine_setting _ _) = privacy
module_of (set_system_task_enabled _ _) = privacy
module_of (set_windows_update_policy _ _) = updates
module_of (set_firewall_rule_enabled _ _) = firewall
module_of (set_firewall_profile_enabled _ _) = firewall
module_of (set_hibernation _) = power
module_of (set_active_power_scheme _) = power
module_of (delete_driver_package _) = drivers
module_of (edit_hosts _) = hosts
module_of (create_restore_point _) = restore
module_of (upsert_scan_schedule _ _) = scheduler
module_of (remove_scan_schedule _) = scheduler

abbrev scope_privilege : StartupScope → Privilege
scope_privilege user = standard
scope_privilege machine = helper

unfoldable pub privilege : SystemChange → Privilege
privilege (set_startup_entry entry _) = scope_privilege entry.scope
privilege (set_user_setting _ _) = standard
privilege (set_active_power_scheme _) = standard
privilege (upsert_scan_schedule _ _) = standard
privilege (remove_scan_schedule _) = standard
privilege _ = helper

abbrev pub driver_reason : Text
driver_reason =
    codes
      "Windows removes the driver package from the driver store; reinstalling requires the original installer."

abbrev pub restore_point_reason : Text
restore_point_reason = codes "Creates a new restore point; Windows manages its retention."

unfoldable pub reversibility : SystemChange → Reversibility
reversibility (delete_driver_package _) = irreversible driver_reason
reversibility (create_restore_point _) = irreversible restore_point_reason
reversibility (edit_hosts _) = reversible_with_backup
reversibility _ = reversible

unfoldable pub is_reversible : Reversibility → Bool
is_reversible reversible = true
is_reversible reversible_with_backup = true
is_reversible (irreversible _) = false

-- `sort_unstable` on numbers, whose sorted order is unique.
unfoldable pub insert_sorted : ℕ → List ℕ → List ℕ
insert_sorted x [] = x ∷ []
insert_sorted x (y ∷ ys) = if leb x y then x ∷ y ∷ ys else y ∷ insert_sorted x ys

unfoldable pub sort_unstable : List ℕ → List ℕ
unfolding insert_sorted
sort_unstable [] = []
sort_unstable (x ∷ xs) = insert_sorted x (sort_unstable xs)

-- `windows(2).any(|pair| pair[0] == pair[1])`.
unfoldable pub any_adjacent_equal : List ℕ → Bool
any_adjacent_equal [] = false
any_adjacent_equal (x ∷ []) = false
any_adjacent_equal (x ∷ y ∷ ys) = (x == y) || any_adjacent_equal (y ∷ ys)

abbrev pub op_lines : List HostsLineOp → List ℕ
op_lines = map (λ op. op.line)

unfoldable pub validate_hosts : List HostsLineOp → Result ContractError (Unit {0})
unfolding sort_unstable any_adjacent_equal
validate_hosts line_ops =
    if is_empty line_ops
    then err empty_line_ops
    else if ltb max_hosts_line_ops (length line_ops)
    then err too_many_line_ops
    else if any_adjacent_equal (sort_unstable (op_lines line_ops))
    then err duplicate_line
    else ok tt

unfoldable pub validate : SystemChange → Result ContractError (Unit {0})
validate (edit_hosts line_ops) = validate_hosts line_ops
validate (upsert_scan_schedule _ cadence) = validate_cadence cadence
validate _ = ok tt

abbrev is_none : {A : Type 0} → Option A → Bool
is_none none = true
is_none (some _) = false

unfoldable pub is_satisfied_by : SystemChange → PriorState → Option Bool
unfolding start_state
is_satisfied_by (set_startup_entry _ e) (enabled_state current) =
    some (same Bool-discrete e current)
is_satisfied_by (set_system_task_enabled _ e) (enabled_state current) =
    some (same Bool-discrete e current)
is_satisfied_by (set_firewall_rule_enabled _ e) (enabled_state current) =
    some (same Bool-discrete e current)
is_satisfied_by (set_firewall_profile_enabled _ e) (enabled_state current) =
    some (same Bool-discrete e current)
is_satisfied_by (set_hibernation e) (enabled_state current) = some (same Bool-discrete e current)
is_satisfied_by (set_service_start_type _ start_type) (service_start start) =
    some (same ServiceStartState-discrete (start_state start_type) start)
is_satisfied_by (set_user_setting _ value) (registry_value current) =
    some (same OptionValue-discrete value current)
is_satisfied_by (set_machine_setting _ value) (registry_value current) =
    some (same OptionValue-discrete value current)
is_satisfied_by (set_windows_update_policy _ value) (registry_value current) =
    some (same OptionValue-discrete value current)
is_satisfied_by (set_active_power_scheme scheme) (power_scheme current) =
    some (same PowerSchemeId-discrete scheme current)
is_satisfied_by (delete_driver_package _) (driver_package present) = some (not present)
is_satisfied_by (upsert_scan_schedule _ cadence) (schedule current) =
    some (same OptionCadence-discrete current (some cadence))
is_satisfied_by (remove_scan_schedule _) (schedule cadence) = some (is_none cadence)
is_satisfied_by _ _ = none

abbrev pub inverse_op : HostsLineOp → HostsLineOp
inverse_op op = record { line = op.line; action = inverse_action op.action }

-- The `match (self, prior)` of `inverse`, reached by the reversible changes.
unfoldable pub inverse_of : SystemChange → PriorState → Result InverseError (Option SystemChange)
unfolding writable
inverse_of (set_startup_entry entry _) (enabled_state e) = ok (some (set_startup_entry entry e))
inverse_of (set_service_start_type catalog_id _) (service_start start) = do
  start_type ← ok_or (writable start) prior_not_writable
  ok (some (set_service_start_type catalog_id start_type))
inverse_of (set_user_setting setting_id _) (registry_value value) =
    ok (some (set_user_setting setting_id value))
inverse_of (set_machine_setting setting_id _) (registry_value value) =
    ok (some (set_machine_setting setting_id value))
inverse_of (set_windows_update_policy setting_id _) (registry_value value) =
    ok (some (set_windows_update_policy setting_id value))
inverse_of (set_system_task_enabled catalog_id _) (enabled_state e) =
    ok (some (set_system_task_enabled catalog_id e))
inverse_of (set_firewall_rule_enabled rule_name _) (enabled_state e) =
    ok (some (set_firewall_rule_enabled rule_name e))
inverse_of (set_firewall_profile_enabled profile _) (enabled_state e) =
    ok (some (set_firewall_profile_enabled profile e))
inverse_of (set_hibernation _) (enabled_state e) = ok (some (set_hibernation e))
inverse_of (set_active_power_scheme _) (power_scheme scheme) =
    ok (some (set_active_power_scheme scheme))
inverse_of (edit_hosts line_ops) (hosts_file _) = ok (some (edit_hosts (map inverse_op line_ops)))
inverse_of (upsert_scan_schedule schedule_id _) (schedule (some cadence)) =
    ok (some (upsert_scan_schedule schedule_id cadence))
inverse_of (upsert_scan_schedule schedule_id _) (schedule none) =
    ok (some (remove_scan_schedule schedule_id))
inverse_of (remove_scan_schedule schedule_id) (schedule (some cadence)) =
    ok (some (upsert_scan_schedule schedule_id cadence))
inverse_of (remove_scan_schedule schedule_id) (schedule none) = ok none
inverse_of _ _ = err prior_mismatch

unfoldable pub inverse : SystemChange → PriorState → Result InverseError (Option SystemChange)
unfolding inverse_of reversibility is_reversible
inverse change prior =
    if is_reversible (reversibility change)
    then inverse_of change prior
    else err irreversible_change
