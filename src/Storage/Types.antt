-- ===== src/Storage/Types.antt =====
-- The storage contracts of crates/cleanup-core/src/storage/mod.rs: limits, completeness, errors.
use supa_diska_klinah.Base.{
  ℕ, ◌*◌, Bool, not, ◌&&◌, ◌||◌, List, [], ◌∷◌, ◌++◌, Text, as_bytes, same, length, all, any,
  is_empty, is_ascii_digit, is_control, leb, ltb, ◌==◌, if◌then◌else◌, Result, ok, err,
}

abbrev pub max_workers : ℕ
max_workers = 4

abbrev pub max_visited_entries : ℕ
max_visited_entries = 1000000

abbrev pub max_records : ℕ
max_records = 100000

abbrev pub max_diagnostics : ℕ
max_diagnostics = 1000

abbrev pub max_depth : ℕ
max_depth = 64

abbrev pub default_page_size : ℕ
default_page_size = 100

abbrev pub max_page_size : ℕ
max_page_size = 200

abbrev pub max_completed_snapshots : ℕ
max_completed_snapshots = 2

-- `Duration::from_secs(SNAPSHOT_IDLE_SECONDS)`, in nanoseconds.
abbrev pub snapshot_idle_nanos : ℕ
snapshot_idle_nanos = 600 * 1000000000

abbrev pub max_selection : ℕ
max_selection = 1000

abbrev pub max_request_bytes : ℕ
max_request_bytes = 64 * 1024

pub data StorageModule : Type 0 where
  cleaner disk_analyzer large_files duplicates empty_folders browser uninstaller drives :
      StorageModule

unfoldable pub StorageModule-discrete : Discrete StorageModule
StorageModule-discrete = hlevel

pub record StorageLimits : Type 0 where
  pub workers : ℕ
  pub visited_entries : ℕ
  pub retained_records : ℕ
  pub diagnostics : ℕ
  pub depth : ℕ

abbrev pub default_limits : StorageLimits
default_limits = record {
  workers = max_workers;
  visited_entries = max_visited_entries;
  retained_records = max_records;
  diagnostics = max_diagnostics;
  depth = max_depth;
}

pub data StorageError : Type 0 where
  invalid_request invalid_evidence unsupported_scope limit_reached invalid_cursor
        snapshot_unavailable entropy_failed :
      StorageError

-- `(low..=high).contains(&n)`.
abbrev pub within : ℕ → ℕ → ℕ → Bool
within low high n = leb low n && leb n high

unfoldable pub validate_limits : StorageLimits → Result StorageError (Unit {0})
validate_limits limits =
    if not (within 1 max_workers limits.workers)
      || not (within 1 max_visited_entries limits.visited_entries)
      || not (within 1 max_records limits.retained_records)
      || not (within 1 max_diagnostics limits.diagnostics)
      || ltb max_depth limits.depth
    then err invalid_request
    else ok tt

pub data PartialReason : Type 0 where
  cancelled entry_limit record_limit diagnostic_limit depth_limit unreadable changed link_like
        protected excluded missing_identity :
      PartialReason

unfoldable pub PartialReason-discrete : Discrete PartialReason
PartialReason-discrete = hlevel

pub record Completeness : Type 0 where
  pub reasons : List PartialReason

abbrev pub no_reasons : Completeness
no_reasons = record { reasons = [] }

unfoldable pub is_complete : Completeness → Bool
is_complete completeness = is_empty completeness.reasons

unfoldable pub mark : Completeness → PartialReason → Completeness
mark completeness reason =
    if any (λ r. same PartialReason-discrete r reason) completeness.reasons
    then completeness
    else record { reasons = completeness.reasons ++ reason ∷ [] }

pub data CandidateEligibility : Type 0 where
  read_only : CandidateEligibility
  ineligible : (reason : PartialReason) → CandidateEligibility
  eligible : (candidate_id : Text) → CandidateEligibility

-- An ASCII hexadecimal digit that is not upper case.
abbrev pub is_id_byte : ℕ → Bool
is_id_byte b = is_ascii_digit b || (leb b'a' b && leb b b'f')

unfoldable pub valid_storage_id : Text → Bool
valid_storage_id value = (length (as_bytes value) == 32) && all is_id_byte (as_bytes value)

unfoldable pub bounded_storage_text : Text → Bool
bounded_storage_text value =
    not (is_empty value) && leb (length (as_bytes value)) 1024 && not (any is_control value)
