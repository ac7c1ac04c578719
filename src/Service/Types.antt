-- ===== src/Service/Types.antt =====
-- The types of crates/windows-platform/src/system_change/mod.rs, and what the service calls:
-- adapters, helper, journal store, clocks and random identifiers, as an environment over a world.
use supa_diska_klinah.Base.{ℕ, ◌*◌, Bool, Option, List, Result, Text}
use supa_diska_klinah.Contract.Types.{SystemChange, SystemModule, ImpactSummary, PriorState}
use supa_diska_klinah.Contract.Plans.{
  PlannedChange, UnsupportedReason, FailureCode, ChangeOutcome, unsupported, denied, failed,
  system_error,
}
use supa_diska_klinah.Contract.Journal.{Journal, JournalEntry, RollbackStatus}

-- `PLAN_LIFETIME`, in nanoseconds. An `Instant` is a number of nanoseconds, and `duration_since`
-- stops at zero, as `-` does.
abbrev pub plan_lifetime : ℕ
plan_lifetime = 60 * 1000000000

abbrev pub plan_lifetime_seconds : ℕ
plan_lifetime_seconds = 60

abbrev pub max_plan_changes : ℕ
max_plan_changes = 32

pub data AdapterError : Type 0 where
  adapter_unsupported : UnsupportedReason → AdapterError
  adapter_denied adapter_failed : AdapterError

unfoldable pub outcome_of : AdapterError → ChangeOutcome
outcome_of (adapter_unsupported reason) = unsupported reason
outcome_of adapter_denied = denied
outcome_of adapter_failed = failed system_error

pub record HelperItemResult : Type 0 where
  pub prior : PriorState
  pub outcome : ChangeOutcome

pub data HelperClientError : Type 0 where
  helper_denied indeterminate : HelperClientError
  not_started : FailureCode → HelperClientError

pub data SystemChangeError : Type 0 where
  empty_plan too_many_changes duplicate_change unknown_module unsupported_change : SystemChangeError
  invalid_change observation_failed plan_not_found plan_expired not_confirmed : SystemChangeError
  confirmation_declined window_unavailable journal_unavailable : SystemChangeError
  rollback_unavailable busy : SystemChangeError

pub record PlanTicket : Type 0 where
  pub plan_id : Text
  pub changes : List PlannedChange
  pub requires_helper : Bool
  pub expires_in_seconds : ℕ

pub record JournalView : Type 0 where
  pub entry : JournalEntry
  pub rollback : RollbackStatus

pub record StoredPlan : Type 0 where
  pub changes : List PlannedChange
  pub rollback_of : List (Option Text)
  pub created : ℕ
  pub confirmed_at : Option ℕ

-- `trait SystemAdapter`. A call may find the world changed by others, so each returns a world;
-- is_satisfied only reads it, as the adapter of the hosts file does.
pub record Adapter (W : Type 0) : Type 0 where
  pub describe : SystemChange → W → Result AdapterError ImpactSummary × W
  pub observe : SystemChange → W → Result AdapterError PriorState × W
  pub apply : SystemChange → W → Result AdapterError (Unit {0}) × W
  pub is_satisfied : SystemChange → PriorState → W → Bool

-- What the service is built with (`adapters`, `os`, `helper`, `journal`) and what it calls outside:
-- `random_id`, `unix_now`, `now`, and the size test of a helper batch.
pub record Env (W : Type 0) : Type 0 where
  pub adapter : SystemModule → Option (Adapter W)
  pub is_supported : Bool
  pub helper_apply :
      List (SystemChange × PriorState) → W → Result HelperClientError (List HelperItemResult) × W
  pub load : W → Option Journal × W
  pub save : Journal → W → Bool × W
  pub random_id : W → Option Text × W
  pub unix_now : W → ℕ × W
  pub now : W → ℕ × W
  pub batch_fits : List (SystemChange × PriorState) → Bool

-- What the service does to the system and to the journal file, for the record.
pub data Event : Type 0 where
  saved : Journal → Event
  applied_change : SystemChange → Event
  called_helper : List (SystemChange × PriorState) → Event

-- `SystemChangeService`, with the world and the events so far, the latest first.
pub record Service (W : Type 0) : Type 0 where
  pub world : W
  pub plans : List (Text × StoredPlan)
  pub running : Bool
  pub events : List Event
