-- ===== src/Storage/Requests.antt =====
-- The requests of crates/cleanup-core/src/storage: scans, selections, pages and the file filter of
-- large_files.rs, and `decode_request`. The JSON decoder is a parameter.
use supa_diska_klinah.Base.{
  ℕ, Bool, true, false, not, ◌&&◌, ◌||◌, Option, none, some, List, [], ◌∷◌, Text, Text-discrete,
  as_bytes, same, length, all, any, is_empty, is_ascii_digit, is_ascii_lowercase, ltb,
  if◌then◌else◌, Result, ok, err, ◌>>=◌, ◌>>◌, map_err,
}
use supa_diska_klinah.Storage.Types.{
  StorageModule, cleaner, disk_analyzer, large_files, duplicates, empty_folders, browser,
  uninstaller, drives, StorageModule-discrete, StorageLimits, StorageError, invalid_request,
  limit_reached, validate_limits, valid_storage_id, bounded_storage_text, within, max_page_size,
  max_selection, max_request_bytes,
}

pub data FileSort : Type 0 where
  size_sort modified_sort path_sort : FileSort

pub data FileCategory : Type 0 where
  any_category documents images audio video archives other : FileCategory

pub record FileFilter : Type 0 where
  pub minimum_bytes : ℕ
  pub maximum_bytes : Option ℕ
  pub extensions : List Text
  pub category : FileCategory
  pub sort : FileSort
  pub descending : Bool

abbrev below_minimum : Option ℕ → ℕ → Bool
below_minimum none minimum = false
below_minimum (some maximum) minimum = ltb maximum minimum

abbrev bad_extension : Text → Bool
bad_extension ext =
    is_empty ext
    || ltb 32 (length (as_bytes ext))
    || not (all (λ b. is_ascii_lowercase b || is_ascii_digit b) (as_bytes ext))

unfoldable pub validate_filter : FileFilter → Result StorageError (Unit {0})
validate_filter filter =
    if below_minimum filter.maximum_bytes filter.minimum_bytes
      || ltb 64 (length filter.extensions)
      || any bad_extension filter.extensions
    then err invalid_request
    else ok tt

pub data StorageOptions : Type 0 where
  cleaner_options : (catalog_id : Text) → StorageOptions
  disk_analyzer_options : (displayed_depth : ℕ) → StorageOptions
  large_files_options : (filter : FileFilter) → StorageOptions
  duplicates_options : (filter : FileFilter) → StorageOptions
  empty_folders_options : StorageOptions
  browser_options : (browser_id : Text) (service_worker_opt_in : Bool) → StorageOptions
  uninstaller_options : StorageOptions
  drives_options : StorageOptions

pub record StorageScanRequest : Type 0 where
  pub root_id : Text
  pub limits : StorageLimits
  pub options : StorageOptions

unfoldable pub validate_options : StorageOptions → StorageLimits → Result StorageError (Unit {0})
unfolding bounded_storage_text validate_filter
validate_options (cleaner_options catalog_id) limits =
    if not (bounded_storage_text catalog_id) then err invalid_request else ok tt
validate_options (browser_options browser_id _) limits =
    if not (bounded_storage_text browser_id) then err invalid_request else ok tt
validate_options (disk_analyzer_options displayed_depth) limits =
    if ltb limits.depth displayed_depth then err invalid_request else ok tt
validate_options (large_files_options filter) limits = validate_filter filter
validate_options (duplicates_options filter) limits = validate_filter filter
validate_options _ limits = ok tt

unfoldable pub validate_scan : StorageScanRequest → Result StorageError (Unit {0})
unfolding validate_limits valid_storage_id validate_options
validate_scan request = do
  validate_limits request.limits
  if not (valid_storage_id request.root_id)
      then err invalid_request
      else validate_options request.options request.limits

pub record StorageSelection : Type 0 where
  pub snapshot_id : Text
  pub storage_module : StorageModule
  pub candidate_ids : List Text

abbrev pub contains_text : Text → List Text → Bool
contains_text id seen = any (λ other. same Text-discrete other id) seen

-- `any(|id| !valid_id(id) || !seen.insert(id))`.
abbrev bad_or_repeated : List Text → List Text → Bool
bad_or_repeated seen [] = false
bad_or_repeated seen (id ∷ ids) =
    not (valid_storage_id id) || contains_text id seen || bad_or_repeated (id ∷ seen) ids

unfoldable pub validate_selection : StorageSelection → Result StorageError (Unit {0})
unfolding valid_storage_id
validate_selection selection =
    if not (valid_storage_id selection.snapshot_id)
      || is_empty selection.candidate_ids
      || ltb max_selection (length selection.candidate_ids)
      || bad_or_repeated [] selection.candidate_ids
    then err invalid_request
    else ok tt

pub data PageCollection : Type 0 where
  files tree extensions_collection duplicate_groups duplicate_members empty_folders_collection
        drives_collection programs :
      PageCollection

unfoldable pub PageCollection-discrete : Discrete PageCollection
PageCollection-discrete = hlevel

pub record PageRequest : Type 0 where
  pub snapshot_id : Text
  pub storage_module : StorageModule
  pub collection : PageCollection
  pub parent_id : Option Text
  pub cursor : Option Text
  pub page_size : ℕ

abbrev is_module : StorageModule → StorageModule → Bool
is_module = same StorageModule-discrete

unfoldable pub holds_files : StorageModule → Bool
holds_files cleaner = true
holds_files large_files = true
holds_files browser = true
holds_files uninstaller = true
holds_files _ = false

unfoldable pub collection_allowed : StorageModule → PageCollection → Bool
unfolding holds_files
collection_allowed storage_module files = holds_files storage_module
collection_allowed storage_module tree = is_module storage_module disk_analyzer
collection_allowed storage_module extensions_collection = is_module storage_module disk_analyzer
collection_allowed storage_module duplicate_groups = is_module storage_module duplicates
collection_allowed storage_module duplicate_members = is_module storage_module duplicates
collection_allowed storage_module empty_folders_collection = is_module storage_module empty_folders
collection_allowed storage_module drives_collection = is_module storage_module drives
collection_allowed storage_module programs = is_module storage_module uninstaller

abbrev pub bad_id : Option Text → Bool
bad_id none = false
bad_id (some id) = not (valid_storage_id id)

abbrev takes_parent : PageCollection → Bool
takes_parent tree = true
takes_parent duplicate_members = true
takes_parent _ = false

abbrev is_given : Option Text → Bool
is_given none = false
is_given (some _) = true

unfoldable pub validate_page : PageRequest → Result StorageError (Unit {0})
unfolding collection_allowed valid_storage_id
validate_page request =
    if not (collection_allowed request.storage_module request.collection)
      || not (valid_storage_id request.snapshot_id)
      || not (within 1 max_page_size request.page_size)
      || bad_id request.parent_id
      || bad_id request.cursor
      || (is_given request.parent_id && not (takes_parent request.collection))
      || (same PageCollection-discrete request.collection duplicate_members
          && not (is_given request.parent_id))
    then err invalid_request
    else ok tt

-- `decode_request`, for a kind of request with its decoder and its validator.
unfoldable pub decode_request :
    {E R : Type 0}
    → (List ℕ → Result E R)
    → (R → Result StorageError (Unit {0}))
    → List ℕ
    → Result StorageError R
decode_request from_slice validate bytes =
    if ltb max_request_bytes (length bytes) then err limit_reached else (do
      request ← map_err (λ _. invalid_request) (from_slice bytes)
      validate request
      ok request)
