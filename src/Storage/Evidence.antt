-- ===== src/Storage/Evidence.antt =====
-- Evidence for storage candidates, in crates/cleanup-core/src/storage/evidence.rs.
use supa_diska_klinah.Base.{
  ℕ, ◌/◌, ◌-◌, Bool, not, ◌&&◌, ◌||◌, Option, List, Text, Text-discrete, same, leb, ltb, ◌==◌,
  if◌then◌else◌, Result, ok, err, ◌>>=◌, ◌>>◌,
}
use supa_diska_klinah.Storage.Paths.{
  FileIdentity, EntryKind, file_kind, directory_kind, link_like_kind, EntryKind-discrete,
  PathLibrary, case_insensitive, equivalent, contains_path, is_local_storage_path,
}
use supa_diska_klinah.Storage.Types.{
  StorageModule, cleaner, large_files, duplicates, empty_folders, browser, uninstaller,
  StorageError, invalid_evidence, within, valid_storage_id, bounded_storage_text,
}

abbrev pub same_identity : FileIdentity → FileIdentity → Bool
same_identity left right = (left.volume == right.volume) && (left.file == right.file)

abbrev is_kind : EntryKind → EntryKind → Bool
is_kind = same EntryKind-discrete

pub record RootAuthorization (P : Type 0) : Type 0 where
  pub snapshot_id : Text
  pub root_id : Text
  pub canonical_path : P
  pub identity : FileIdentity

pub record ObservedEntry (P : Type 0) : Type 0 where
  pub canonical_path : P
  pub identity : FileIdentity
  pub kind : EntryKind
  pub logical_bytes : ℕ
  pub allocated_bytes : Option ℕ
  pub modified_unix_nanos : ℕ

pub record CatalogEvidence : Type 0 where
  pub catalog_id : Text
  pub revision : Text
  pub target_id : Text
  pub rule_version : ℕ
  pub minimum_age_seconds : ℕ
  pub newest_descendant_unix_nanos : ℕ
  pub observed_at_unix_nanos : ℕ

unfoldable pub catalog_valid : CatalogEvidence → Bool
unfolding bounded_storage_text
catalog_valid catalog =
    bounded_storage_text catalog.catalog_id
    && bounded_storage_text catalog.revision
    && bounded_storage_text catalog.target_id
    && ltb 0 catalog.rule_version
    && (leb catalog.newest_descendant_unix_nanos catalog.observed_at_unix_nanos
        && leb catalog.minimum_age_seconds
            ((catalog.observed_at_unix_nanos - catalog.newest_descendant_unix_nanos) / 1000000000))

pub record KeeperEvidence (P : Type 0) : Type 0 where
  pub group_id : Text
  pub keeper_root : RootAuthorization P
  pub keeper : ObservedEntry P
  pub full_sha256 : List ℕ
  pub independent_copies : ℕ

pub data RegistryView : Type 0 where
  current_user32 current_user64 local_machine32 local_machine64 : RegistryView

pub data StorageEvidence (P : Type 0) : Type 0 where
  catalog_target :
      (root : RootAuthorization P) (entry : ObservedEntry P) (catalog : CatalogEvidence)
      → StorageEvidence P
  user_selected_file : (root : RootAuthorization P) (entry : ObservedEntry P) → StorageEvidence P
  duplicate_member :
      (root : RootAuthorization P) (entry : ObservedEntry P) (keeper : KeeperEvidence P)
      → StorageEvidence P
  empty_folder :
      (root : RootAuthorization P) (entry : ObservedEntry P) (complete_subtree : Bool)
      (descendant_directories : ℕ)
      → StorageEvidence P
  browser_cache :
      (root : RootAuthorization P) (entry : ObservedEntry P) (catalog : CatalogEvidence)
      (browser_id profile_id : Text) (profile : ObservedEntry P)
      (activity_checked_at_unix_nanos : ℕ)
      (browser_inactive service_worker service_worker_opt_in : Bool)
      → StorageEvidence P
  confirmed_application_leftover :
      (root : RootAuthorization P) (entry : ObservedEntry P) (program_id registry_key : Text)
      (registry_view : RegistryView) (uninstall_confirmation_id : Text)
      (uninstall_completed_at_unix_nanos : ℕ) (exact_application_root : ObservedEntry P)
      → StorageEvidence P

module _ {P : Type 0} where
  unfoldable pub evidence_module : StorageEvidence P → StorageModule
  evidence_module (catalog_target _ _ _) = cleaner
  evidence_module (user_selected_file _ _) = large_files
  evidence_module (duplicate_member _ _ _) = duplicates
  evidence_module (empty_folder _ _ _ _) = empty_folders
  evidence_module (browser_cache _ _ _ _ _ _ _ _ _ _) = browser
  evidence_module (confirmed_application_leftover _ _ _ _ _ _ _ _) = uninstaller

  unfoldable pub root_of : StorageEvidence P → RootAuthorization P
  root_of (catalog_target root _ _) = root
  root_of (user_selected_file root _) = root
  root_of (duplicate_member root _ _) = root
  root_of (empty_folder root _ _ _) = root
  root_of (browser_cache root _ _ _ _ _ _ _ _ _) = root
  root_of (confirmed_application_leftover root _ _ _ _ _ _ _) = root

  unfoldable pub entry_of : StorageEvidence P → ObservedEntry P
  entry_of (catalog_target _ entry _) = entry
  entry_of (user_selected_file _ entry) = entry
  entry_of (duplicate_member _ entry _) = entry
  entry_of (empty_folder _ entry _ _) = entry
  entry_of (browser_cache _ entry _ _ _ _ _ _ _ _) = entry
  entry_of (confirmed_application_leftover _ entry _ _ _ _ _ _) = entry

module _ (paths : PathLibrary) where
  open paths use {PathBuf}

  unfoldable pub validate_root : RootAuthorization PathBuf → Result StorageError (Unit {0})
  unfolding valid_storage_id
  validate_root root =
      if not (valid_storage_id root.snapshot_id)
        || not (valid_storage_id root.root_id)
        || not (is_local_storage_path paths root.canonical_path)
      then err invalid_evidence
      else ok tt

  unfoldable pub validate_under :
      ObservedEntry PathBuf → RootAuthorization PathBuf → Result StorageError (Unit {0})
  validate_under entry root =
      if not (is_local_storage_path paths entry.canonical_path)
        || is_kind entry.kind link_like_kind
        || equivalent paths case_insensitive root.canonical_path entry.canonical_path
        || not (contains_path paths case_insensitive root.canonical_path entry.canonical_path)
        || not (root.identity.volume == entry.identity.volume)
      then err invalid_evidence
      else ok tt

  abbrev keeper_valid :
      RootAuthorization PathBuf → ObservedEntry PathBuf → KeeperEvidence PathBuf → Bool
  keeper_valid root entry keeper =
      is_kind entry.kind file_kind
      && is_kind keeper.keeper.kind file_kind
      && valid_storage_id keeper.group_id
      && within 2 100000 keeper.independent_copies
      && same Text-discrete keeper.keeper_root.snapshot_id root.snapshot_id
      && not (same_identity keeper.keeper.identity entry.identity)
      && (keeper.keeper.logical_bytes == entry.logical_bytes)
      && not (equivalent paths case_insensitive keeper.keeper.canonical_path entry.canonical_path)

  abbrev validate_keeper :
      RootAuthorization PathBuf
      → ObservedEntry PathBuf
      → KeeperEvidence PathBuf
      → Result StorageError Bool
  validate_keeper root entry keeper = do
    validate_root keeper.keeper_root
    validate_under keeper.keeper keeper.keeper_root
    ok (keeper_valid root entry keeper)

  -- The `match` of `validate`.
  unfoldable pub validate_kind : StorageEvidence PathBuf → Result StorageError Bool
  unfolding catalog_valid validate_root validate_under valid_storage_id bounded_storage_text
  validate_kind (catalog_target root entry catalog) = ok (catalog_valid catalog)
  validate_kind (user_selected_file root entry) = ok (is_kind entry.kind file_kind)
  validate_kind (duplicate_member root entry keeper) = validate_keeper root entry keeper
  validate_kind (empty_folder root entry complete_subtree descendant_directories) = ok (
      is_kind entry.kind directory_kind
      && (entry.logical_bytes == 0)
      && complete_subtree
      && leb descendant_directories 100000)
  validate_kind
        (browser_cache root entry catalog browser_id profile_id profile _ browser_inactive
          service_worker opt_in) =
      ok (
        is_local_storage_path paths profile.canonical_path
        && is_kind profile.kind directory_kind
        && catalog_valid catalog
        && bounded_storage_text browser_id
        && valid_storage_id profile_id
        && browser_inactive
        && (not service_worker || opt_in)
        && (profile.identity.volume == root.identity.volume)
        && contains_path paths case_insensitive root.canonical_path profile.canonical_path
        && contains_path paths case_insensitive profile.canonical_path entry.canonical_path
        && not (equivalent paths case_insensitive profile.canonical_path entry.canonical_path))
  validate_kind
        (confirmed_application_leftover root entry program_id registry_key _ confirmation _
          application) =
      ok (
        valid_storage_id program_id
        && valid_storage_id confirmation
        && bounded_storage_text registry_key
        && is_kind application.kind directory_kind
        && is_local_storage_path paths application.canonical_path
        && (application.identity.volume == root.identity.volume)
        && contains_path paths case_insensitive root.canonical_path application.canonical_path
        && contains_path paths case_insensitive application.canonical_path entry.canonical_path)

  unfoldable pub validate_evidence : StorageEvidence PathBuf → Result StorageError (Unit {0})
  unfolding root_of entry_of validate_root validate_under validate_kind
  validate_evidence evidence = do
    validate_root (root_of evidence)
    validate_under (entry_of evidence) (root_of evidence)
    valid ← validate_kind evidence
    if valid then ok tt else err invalid_evidence
