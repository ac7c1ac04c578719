-- ===== src/Tests/Snapshots.antt =====
-- Concrete snapshots for the laws of crates/cleanup-core/src/storage.
use supa_diska_klinah.Base.{
  ℕ, suc, ◌≡◌, ◌%◌, refl, arith, Text, Text-discrete, ℕ_discrete, codes, none, some, List, [], ◌∷◌,
  true, Result, ok, err, replicate, keep, Any,
}
use supa_diska_klinah.Protection.Hex.{to_hex, digit}
use supa_diska_klinah.Storage.Paths.{PathLibrary, file_kind}
use supa_diska_klinah.Storage.Types.{
  StorageModule-discrete, drives, large_files, StorageError, no_reasons, valid_storage_id,
  is_complete,
}
use supa_diska_klinah.Storage.Requests.{
  PageRequest, PageCollection-discrete, drives_collection, StorageSelection, validate_page,
  validate_selection, collection_allowed,
}
use supa_diska_klinah.Storage.Records.{
  drive_record, id_of, eligibility_of, parent_of, collection_of,
}
use supa_diska_klinah.Storage.Evidence.{
  RootAuthorization, ObservedEntry, KeeperEvidence, StorageEvidence, duplicate_member,
  user_selected_file, entry_of, root_of,
}
use supa_diska_klinah.Storage.Duplicates.{
  selected_identities, retain_copy, retain_all, retain_one, keep_one, rebound,
}
use supa_diska_klinah.Storage.Keeping.{AllRebind, retain_copy-IsKept}
use supa_diska_klinah.Storage.Snapshots.{
  Row, StorageSnapshot, StoragePage, OptionText-discrete, snapshot_page, page_from, start_of,
  check_parent,
}
use supa_diska_klinah.Storage.Builder.{SnapshotBuilder, sort_rows, compare_rows, index_rows, key_of}
use supa_diska_klinah.Storage.Finish.{
  finish, check_all, check_rows, check_parents, check_ancestors, collect_members, check_duplicates,
  check_group, member_count_of,
}
use supa_diska_klinah.Storage.Indexing.{FillsBuffer}
use supa_diska_klinah.Storage.Selecting.{has_key}
use supa_diska_klinah.Storage.Enumeration.{
  walk_pages, walk_pages_lem, at_cursor, key_of_request, records_of,
}
use supa_diska_klinah.Storage.Pages.{expire, resolve, resolve_in}
use supa_diska_klinah.Storage.Retention.{
  PagesCall, insert_call, expire_call, IsBounded, after_all, after_all-IsBounded,
}
use supa_diska_klinah.Storage.Resolution.{Resolves, resolve_lem}

-- Paths that are their own texts.
abbrev pub plain_paths : PathLibrary
plain_paths = record {
  PathBuf = Text;
  path_new = λ text. text;
  to_str = λ text. some text;
  to_string_lossy = λ text. text;
  is_absolute = λ text. true;
  to_lowercase = λ text. text;
}

-- A counter for a source of random bytes.
abbrev counted : ℕ → Result StorageError (List ℕ) × ℕ
counted n = (ok (n % 256 ∷ replicate 15 0), suc n)

counted-FillsBuffer : FillsBuffer counted
counted-FillsBuffer w bytes h = ground (arith, h)

abbrev drive : ℕ → Row
drive n = record {
  row_record = drive_record (record {
    drive_id = n ∷ replicate 31 b'0';
    display_mount = codes "C:";
    drive_label = [];
    filesystem = codes "NTFS";
    total_bytes = n;
    free_bytes = 0;
    used_bytes = n;
    system = none;
  });
  order = record { numeric = n; text = [] };
  cursor = [];
}

abbrev snapshot_id : Text
snapshot_id = replicate 32 b'a'

abbrev three_drives : SnapshotBuilder Text
three_drives = record {
  id = snapshot_id;
  storage_module = drives;
  rows = drive b'2' ∷ drive b'3' ∷ drive b'1' ∷ [];
  candidates = [];
  completeness = no_reasons;
  limit = 10;
}

abbrev snapshot_or :
    StorageSnapshot Text → Result StorageError (StorageSnapshot Text) → StorageSnapshot Text
snapshot_or other (ok snapshot) = snapshot
snapshot_or other (err _) = other

abbrev no_snapshot : StorageSnapshot Text
no_snapshot = record {
  id = [];
  storage_module = drives;
  rows = [];
  cursors = [];
  pages = [];
  parents = [];
  candidates = [];
  completeness = no_reasons;
}

abbrev drives_finished : Result StorageError (StorageSnapshot Text) × ℕ
drives_finished = finish plain_paths counted true three_drives 0

abbrev drives_snapshot : StorageSnapshot Text
drives_snapshot = snapshot_or no_snapshot drives_finished.0

drives_snapshot_finished : drives_finished.0 ≡ ok drives_snapshot
unfolding finish check_all check_rows check_parents check_ancestors collect_members check_duplicates
    check_group member_count_of id_of eligibility_of parent_of collection_of is_complete sort_rows
    compare_rows index_rows key_of to_hex digit Text-discrete OptionText-discrete
    PageCollection-discrete ℕ_discrete entry_of
drives_snapshot_finished = refl

abbrev two_a_page : PageRequest
two_a_page = record {
  snapshot_id = snapshot_id;
  storage_module = drives;
  collection = drives_collection;
  parent_id = none;
  cursor = none;
  page_size = 2;
}

abbrev page_or : Result StorageError StoragePage → StoragePage
page_or (ok page) = page
page_or (err _) = record {
  snapshot_id = [];
  records = [];
  next_cursor = none;
  retained_total = 0;
  completeness = no_reasons;
}

abbrev first_page : StoragePage
first_page = page_or (snapshot_page drives_snapshot (at_cursor two_a_page none))

first_page_given : snapshot_page drives_snapshot (at_cursor two_a_page none) ≡ ok first_page
unfolding finish check_all check_rows check_parents check_ancestors collect_members check_duplicates
    check_group member_count_of id_of eligibility_of parent_of collection_of is_complete sort_rows
    compare_rows index_rows key_of to_hex digit Text-discrete OptionText-discrete
    PageCollection-discrete StorageModule-discrete ℕ_discrete entry_of snapshot_page validate_page
    collection_allowed valid_storage_id check_parent start_of page_from
first_page_given = refl

walk_pages_lem_example :
    walk_pages (suc first_page.retained_total) drives_snapshot (at_cursor two_a_page none)
    ≡ ok (records_of (keep (has_key (key_of_request two_a_page)) drives_snapshot.rows))
walk_pages_lem_example =
    walk_pages_lem plain_paths counted counted-FillsBuffer true three_drives 0 drives_snapshot
      two_a_page first_page drives_snapshot_finished first_page_given

abbrev named_snapshot : ℕ → StorageSnapshot Text
named_snapshot n = record no_snapshot { id = n ∷ replicate 31 b'0' }

abbrev four_calls : List (PagesCall Text)
four_calls =
    insert_call (named_snapshot b'1') 1
    ∷ insert_call (named_snapshot b'2') 2
    ∷ insert_call (named_snapshot b'3') 3
    ∷ expire_call 600000000002
    ∷ []

after_all-IsBounded_example : IsBounded (after_all four_calls [])
after_all-IsBounded_example = after_all-IsBounded four_calls

abbrev some_root : RootAuthorization Text
some_root = record {
  snapshot_id = snapshot_id;
  root_id = replicate 32 b'b';
  canonical_path = codes "C:/data";
  identity = record { volume = 1; file = 1 };
}

abbrev entry_at : Text → ℕ → ObservedEntry Text
entry_at path n = record {
  canonical_path = path;
  identity = record { volume = 1; file = n };
  kind = file_kind;
  logical_bytes = 10;
  allocated_bytes = none;
  modified_unix_nanos = 5;
}

abbrev keeps_entry : ObservedEntry Text → KeeperEvidence Text
keeps_entry entry = record {
  group_id = replicate 32 b'c';
  keeper_root = some_root;
  keeper = entry;
  full_sha256 = replicate 32 7;
  independent_copies = 3;
}

abbrev copy_of : Text → ℕ → ℕ → StorageEvidence Text
copy_of path n kept =
    duplicate_member some_root (entry_at path n)
      (keeps_entry (entry_at (codes "C:/data/kept") kept))

-- The second copy keeps the first, which is selected; the third is not selected.
abbrev two_selected : List (StorageEvidence Text)
two_selected = copy_of (codes "C:/data/a") 11 12 ∷ copy_of (codes "C:/data/b") 12 11 ∷ []

abbrev all_copies : List (StorageEvidence Text)
all_copies = copy_of (codes "C:/data/c") 13 11 ∷ two_selected

abbrev evidence_or : Result StorageError (List (StorageEvidence Text)) → List (StorageEvidence Text)
evidence_or (ok evidence) = evidence
evidence_or (err _) = []

abbrev two_kept : List (StorageEvidence Text)
two_kept = evidence_or (retain_copy two_selected all_copies)

two_selected-kept : retain_copy two_selected all_copies ≡ ok two_kept
unfolding retain_copy retain_all retain_one keep_one rebound selected_identities entry_of root_of
    Text-discrete ℕ_discrete
two_selected-kept = refl

retain_copy-IsKept_example : AllRebind (selected_identities two_selected) two_selected two_kept
retain_copy-IsKept_example = retain_copy-IsKept two_selected all_copies two_kept two_selected-kept

abbrev candidate_id : ℕ → Text
candidate_id n = n ∷ replicate 31 b'e'

abbrev file_snapshot : StorageSnapshot Text
file_snapshot = record no_snapshot {
  id = snapshot_id;
  storage_module = large_files;
  candidates =
      (candidate_id b'1', user_selected_file some_root (entry_at (codes "C:/data/a") 11)) ∷ [];
}

abbrev one_file : StorageSelection
one_file = record {
  snapshot_id = snapshot_id;
  storage_module = large_files;
  candidate_ids = candidate_id b'1' ∷ [];
}

abbrev kept_snapshots : List (ℕ × StorageSnapshot Text)
kept_snapshots = (5, file_snapshot) ∷ []

abbrev one_proof : List (StorageEvidence Text)
one_proof = evidence_or (resolve one_file 9 kept_snapshots).0

one_file_resolved : (resolve one_file 9 kept_snapshots).0 ≡ ok one_proof
unfolding resolve resolve_in expire validate_selection valid_storage_id retain_copy retain_all
    retain_one keep_one rebound selected_identities entry_of root_of Text-discrete
    StorageModule-discrete ℕ_discrete
one_file_resolved = refl

resolve_lem_example : Any (Resolves one_file 9 one_proof) kept_snapshots
resolve_lem_example = resolve_lem one_file 9 kept_snapshots one_proof one_file_resolved
