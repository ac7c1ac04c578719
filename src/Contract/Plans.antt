-- ===== src/Contract/Plans.antt =====
-- Planned changes and outcomes of crates/cleanup-core/src/system_change.rs.
use supa_diska_klinah.Base.{
  Bool, true, false, Option, List, [], ◌++◌, Result, ok, ◌>>◌, ok_flatten, Text, codes, all,
  if◌then◌else◌, same,
}
use supa_diska_klinah.Contract.Ids.{ContractError}
use supa_diska_klinah.Contract.Types.{
  SystemChange, SystemModule, Privilege, helper, Reversibility, reversible, reversible_with_backup,
  irreversible, ImpactSummary, PriorState, RestartRequirement, no_restart, sign_out, reboot,
  Privilege-discrete,
}
use supa_diska_klinah.Contract.Changes.{inverse, module_of, privilege, reversibility, validate}

pub record PlannedChange : Type 0 where
  pub change : SystemChange
  pub system_module : SystemModule
  pub needs : Privilege
  pub undoing : Reversibility
  pub impact : ImpactSummary
  pub expected_prior : PriorState
  pub inverse_change : Option SystemChange

-- `PlannedChange::new`.
unfoldable pub new_planned :
    SystemChange → ImpactSummary → PriorState → Result ContractError PlannedChange
new_planned change impact expected_prior = do
  validate change
  let inverse_change = ok_flatten (inverse change expected_prior)
  ok (record {
    change = change;
    system_module = module_of change;
    needs = privilege change;
    undoing = reversibility change;
    impact = impact;
    expected_prior = expected_prior;
    inverse_change = inverse_change;
  })

abbrev undoing_text : Reversibility → Text
undoing_text reversible = codes "can be undone"
undoing_text reversible_with_backup = codes "can be undone from a backup"
undoing_text (irreversible reason) = codes "CANNOT be undone: " ++ reason

abbrev restart_text : RestartRequirement → Text
restart_text no_restart = []
restart_text sign_out = codes "; sign-out required"
restart_text reboot = codes "; restart required"

abbrev admin_text : Privilege → Text
admin_text p = if same Privilege-discrete p helper then codes "; needs administrator" else []

unfoldable pub summary_line : PlannedChange → Text
summary_line planned =
    planned.impact.component
    ++ codes ": "
    ++ planned.impact.effect
    ++ codes " ("
    ++ undoing_text planned.undoing
    ++ restart_text planned.impact.restart
    ++ admin_text planned.needs
    ++ codes ")"

pub data UnsupportedReason : Type 0 where
  api_unavailable os_version edition_unsupported managed_device not_present : UnsupportedReason

pub data FailureCode : Type 0 where
  system_error helper_unavailable timeout invalid_request interrupted not_attempted : FailureCode

pub data ChangeOutcome : Type 0 where
  applied already_applied state_changed denied : ChangeOutcome
  unsupported : (reason : UnsupportedReason) → ChangeOutcome
  failed : (failure : FailureCode) → ChangeOutcome

unfoldable pub ChangeOutcome-discrete : Discrete ChangeOutcome
ChangeOutcome-discrete = hlevel

unfoldable pub modified_system : ChangeOutcome → Bool
modified_system applied = true
modified_system _ = false

pub record ChangeResult : Type 0 where
  pub change : SystemChange
  pub outcome : ChangeOutcome
  pub journal_entry_id : Option Text

pub record ExecutionReport : Type 0 where
  pub plan_id : Text
  pub results : List ChangeResult

abbrev pub succeeded : ChangeOutcome → Bool
succeeded applied = true
succeeded already_applied = true
succeeded _ = false

unfoldable pub all_succeeded : ExecutionReport → Bool
all_succeeded report = all (λ (r : ChangeResult). succeeded r.outcome) report.results
