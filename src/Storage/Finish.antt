-- ===== src/Storage/Finish.antt =====
-- `SnapshotBuilder::finish` of crates/cleanup-core/src/storage/paging.rs: the checks over all rows,
-- then the order, the cursors and the pages.
use supa_diska_klinah.Base.{
  ℕ, zero, suc, ◌+◌, Bool, true, false, not, ◌&&◌, ◌||◌, Option, none, some, List, [], ◌∷◌, map,
  Text, Text-discrete, same, length, ltb, ◌==◌, if◌then◌else◌, Result, ok, err, ◌>>=◌, ◌>>◌, guard,
  ok_or,
}
use supa_diska_klinah.Storage.Paths.{
  PathLibrary, EntryKind, file_kind, directory_kind, EntryKind-discrete, case_insensitive, key,
}
use supa_diska_klinah.Storage.Types.{
  StorageError, invalid_request, invalid_evidence, CandidateEligibility, ineligible, eligible,
  is_complete, within, max_records, max_depth,
}
use supa_diska_klinah.Storage.Requests.{contains_text}
use supa_diska_klinah.Storage.Records.{
  FileRecord, DuplicateGroup, DuplicateMember, StorageRecord, file_record, directory_record,
  group_record, member_record, empty_folder_record, collection_of, parent_of, eligibility_of, id_of,
}
use supa_diska_klinah.Storage.Evidence.{
  ObservedEntry, KeeperEvidence, StorageEvidence, duplicate_member, entry_of,
}
use supa_diska_klinah.Storage.Snapshots.{Row, StorageSnapshot, OptionText-discrete, get_text}
use supa_diska_klinah.Storage.Builder.{SnapshotBuilder, Index, empty_index, sort_rows, index_rows}

-- What a record says of the entry of its candidate: its path, its size and its kind.
abbrev expected_entry : StorageRecord → Option (Text × (Option ℕ × Option EntryKind))
expected_entry (file_record r) = some (r.display_path, (some r.logical_bytes, none))
expected_entry (member_record r) =
    some (r.file.display_path, (some r.file.logical_bytes, some file_kind))
expected_entry (empty_folder_record r) =
    if is_complete r.completeness then some (r.display_path, (none, some directory_kind)) else none
expected_entry _ = none

abbrev differs : Option ℕ → ℕ → Bool
differs none n = false
differs (some m) n = not (m == n)

abbrev differs_kind : Option EntryKind → EntryKind → Bool
differs_kind none kind = false
differs_kind (some k) kind = not (same EntryKind-discrete k kind)

abbrev already_seen : List (Text × StorageRecord) → Option Text → Bool
already_seen ids none = false
already_seen ids (some id) = elim (get_text ids id) [ none ↦ false | some _ ↦ true ]

abbrev with_id :
    List (Text × StorageRecord) → Option Text → StorageRecord → List (Text × StorageRecord)
with_id ids none r = ids
with_id ids (some id) r = (id, r) ∷ ids

abbrev parent_fits : StorageRecord → StorageRecord → Bool
parent_fits (directory_record _) (directory_record _) = true
parent_fits (member_record _) (group_record _) = true
parent_fits _ _ = false

-- The loop over the ancestors, with how many more it may visit.
unfoldable pub check_ancestors :
    List (Text × StorageRecord) → Option Text → ℕ → Option Text → Result StorageError (Unit {0})
unfolding parent_of
check_ancestors ids own left none = ok tt
check_ancestors ids own zero (some id) = err invalid_request
check_ancestors ids own (suc left) (some id) =
    if same OptionText-discrete (some id) own
    then err invalid_request
    else (ok_or (get_text ids id) invalid_request >>= λ r.
        check_ancestors ids own left (parent_of r))

abbrev check_chain :
    List (Text × StorageRecord) → StorageRecord → Text → Result StorageError (Unit {0})
check_chain ids (directory_record r) parent =
    check_ancestors ids (some r.node_id) max_depth (some parent)
check_chain ids _ parent = ok tt

abbrev check_parent_of :
    List (Text × StorageRecord) → StorageRecord → Option Text → Result StorageError (Unit {0})
check_parent_of ids r none = ok tt
check_parent_of ids r (some parent) = do
  parent_record ← ok_or (get_text ids parent) invalid_request
  guard (parent_fits r parent_record) invalid_request
  check_chain ids r parent

unfoldable pub check_parents :
    List (Text × StorageRecord) → List Row → Result StorageError (Unit {0})
unfolding check_ancestors parent_of
check_parents ids [] = ok tt
check_parents ids (row ∷ rows) =
    check_parent_of ids row.row_record (parent_of row.row_record) >> check_parents ids rows

-- `member_counts.get(group_id)`.
unfoldable pub member_count_of : List Row → Text → ℕ
member_count_of [] group_id = 0
member_count_of (row ∷ rows) group_id =
    let rest = member_count_of rows group_id in
    elim row.row_record [
      | member_record r ↦ if same Text-discrete r.group_id group_id then 1 + rest else rest
      | _ ↦ rest
    ]

unfoldable pub check_group : List Row → DuplicateGroup → Result StorageError (Unit {0})
unfolding member_count_of is_complete
check_group rows group =
    let retained = member_count_of rows group.group_id in
    if not (within 2 max_records group.member_count)
      || not (within 2 group.member_count group.independent_copies)
      || ltb group.member_count retained
      || (is_complete group.completeness && not (retained == group.member_count))
    then err invalid_evidence
    else ok tt

abbrev is_ineligible : CandidateEligibility → Bool
is_ineligible (ineligible _) = true
is_ineligible _ = false

abbrev keeper_digest_differs : Option (List ℕ) → List ℕ → Bool
keeper_digest_differs none digest = false
keeper_digest_differs (some previous) digest = not (same Text-discrete previous digest)

abbrev same_size : Option ℕ → Option ℕ → Bool
same_size none none = true
same_size (some m) (some n) = m == n
same_size _ _ = false

abbrev group_found : Option StorageRecord → Result StorageError DuplicateGroup
group_found (some (group_record group)) = ok group
group_found _ = err invalid_evidence

module _ (paths : PathLibrary) where
  open paths use {PathBuf, path_new, to_str}

  abbrev entry_matches : ObservedEntry PathBuf → Text × (Option ℕ × Option EntryKind) → Bool
  entry_matches entry (path, (bytes, kind)) =
      same OptionText-discrete (to_str entry.canonical_path) (some path)
      && not (differs bytes entry.logical_bytes)
      && not (differs_kind kind entry.kind)

  -- What is checked of a candidate, with the identifiers that are referenced after it.
  abbrev check_candidate :
      List (Text × StorageEvidence PathBuf)
      → List Text
      → StorageRecord
      → Option CandidateEligibility
      → Result StorageError (List Text)
  check_candidate candidates referenced r (some (eligible candidate_id)) = do
    evidence ← ok_or (get_text candidates candidate_id) invalid_evidence
    expected ← ok_or (expected_entry r) invalid_evidence
    if not (entry_matches (entry_of evidence) expected) || contains_text candidate_id referenced
        then err invalid_evidence
        else ok (candidate_id ∷ referenced)
  check_candidate candidates referenced r _ = ok referenced

  -- The first loop: identifiers and candidates.
  unfoldable pub check_rows :
      List (Text × StorageEvidence PathBuf)
      → List (Text × StorageRecord)
      → List Text
      → List Row
      → Result StorageError (List (Text × StorageRecord) × List Text)
  unfolding id_of eligibility_of is_complete entry_of
  check_rows candidates ids referenced [] = ok (ids, referenced)
  check_rows candidates ids referenced (row ∷ rows) =
      let id = id_of row.row_record in
      if already_seen ids id
      then err invalid_request
      else (check_candidate candidates referenced row.row_record (eligibility_of row.row_record)
          >>= λ referenced'. check_rows candidates (with_id ids id row.row_record) referenced' rows)

  abbrev get_member : List ((Text × Text) × FileRecord) → Text → Text → Option FileRecord
  get_member [] group_id path = none
  get_member ((place, file) ∷ members) group_id path =
      let rest = get_member members group_id path in
      if same Text-discrete place.0 group_id && same Text-discrete place.1 path
      then some file
      else rest

  abbrev path_key : Text → Text
  path_key display_path = key paths case_insensitive (path_new display_path)

  abbrev add_member :
      StorageRecord
      → List ((Text × Text) × FileRecord)
      → Result StorageError (List ((Text × Text) × FileRecord))
  add_member (member_record r) members =
      elim (get_member members r.group_id (path_key r.file.display_path)) [
        | some _ ↦ err invalid_evidence
        | none ↦ ok (((r.group_id, path_key r.file.display_path), r.file) ∷ members)
      ]
  add_member _ members = ok members

  unfoldable pub collect_members :
      List ((Text × Text) × FileRecord)
      → List Row
      → Result StorageError (List ((Text × Text) × FileRecord))
  unfolding key
  collect_members members [] = ok members
  collect_members members (row ∷ rows) =
      add_member row.row_record members >>= λ members'. collect_members members' rows

  abbrev keeper_of : Option (StorageEvidence PathBuf) → Result StorageError (KeeperEvidence PathBuf)
  keeper_of (some (duplicate_member _ _ keeper)) = ok keeper
  keeper_of _ = err invalid_evidence

  abbrev check_keeper :
      List ((Text × Text) × FileRecord)
      → List (Text × List ℕ)
      → DuplicateMember
      → DuplicateGroup
      → KeeperEvidence PathBuf
      → Result StorageError (List (Text × List ℕ))
  check_keeper members keepers member group keeper = do
    let keeper_path = key paths case_insensitive keeper.keeper.canonical_path
    keeper_row ← ok_or (get_member members member.group_id keeper_path) invalid_evidence
    if not (same Text-discrete keeper.group_id member.group_id)
          || not (is_complete group.completeness)
          || not (keeper.independent_copies == group.independent_copies)
          || is_ineligible keeper_row.eligibility
          || not (keeper_row.logical_bytes == keeper.keeper.logical_bytes)
          || not (same_size keeper_row.allocated_bytes keeper.keeper.allocated_bytes)
          || keeper_digest_differs (get_text keepers member.group_id) keeper.full_sha256
        then err invalid_evidence
        else ok ((member.group_id, keeper.full_sha256) ∷ keepers)

  abbrev check_eligible :
      List (Text × StorageEvidence PathBuf)
      → List ((Text × Text) × FileRecord)
      → List (Text × List ℕ)
      → DuplicateMember
      → DuplicateGroup
      → CandidateEligibility
      → Result StorageError (List (Text × List ℕ))
  check_eligible candidates members keepers member group (eligible candidate_id) =
      keeper_of (get_text candidates candidate_id) >>= check_keeper members keepers member group
  check_eligible candidates members keepers member group _ = ok keepers

  abbrev check_member :
      List (Text × StorageEvidence PathBuf)
      → List (Text × StorageRecord)
      → List ((Text × Text) × FileRecord)
      → List (Text × List ℕ)
      → DuplicateMember
      → Result StorageError (List (Text × List ℕ))
  check_member candidates ids members keepers member = do
    group ← group_found (get_text ids member.group_id)
    guard (member.file.logical_bytes == group.bytes_per_copy) invalid_evidence
    check_eligible candidates members keepers member group member.file.eligibility

  abbrev check_duplicate :
      List Row
      → List (Text × StorageEvidence PathBuf)
      → List (Text × StorageRecord)
      → List ((Text × Text) × FileRecord)
      → List (Text × List ℕ)
      → StorageRecord
      → Result StorageError (List (Text × List ℕ))
  check_duplicate all candidates ids members keepers (group_record group) =
      check_group all group >> ok keepers
  check_duplicate all candidates ids members keepers (member_record member) =
      check_member candidates ids members keepers member
  check_duplicate all candidates ids members keepers _ = ok keepers

  -- The last loop of checks: groups, and members with the copies that they keep.
  unfoldable pub check_duplicates :
      List Row
      → List (Text × StorageEvidence PathBuf)
      → List (Text × StorageRecord)
      → List ((Text × Text) × FileRecord)
      → List (Text × List ℕ)
      → List Row
      → Result StorageError (Unit {0})
  unfolding check_group key is_complete
  check_duplicates all candidates ids members keepers [] = ok tt
  check_duplicates all candidates ids members keepers (row ∷ rows) =
      check_duplicate all candidates ids members keepers row.row_record >>= λ keepers'.
      check_duplicates all candidates ids members keepers' rows

  unfoldable pub check_all :
      SnapshotBuilder PathBuf → Result StorageError (List (Text × StorageRecord))
  unfolding check_rows check_parents collect_members check_duplicates
  check_all builder = do
    seen ← check_rows builder.candidates [] [] builder.rows
    guard (length seen.1 == length builder.candidates) invalid_evidence
    check_parents seen.0 builder.rows
    members ← collect_members [] builder.rows
    check_duplicates builder.rows builder.candidates seen.0 members [] builder.rows
    ok seen.0

  module _ {W F : Type 0} (fill : W → Result F (List ℕ) × W) where
    abbrev pub snapshot_of :
        SnapshotBuilder PathBuf → List (Text × StorageRecord) → Index → StorageSnapshot PathBuf
    snapshot_of builder ids index = record {
      id = builder.id;
      storage_module = builder.storage_module;
      rows = index.rows;
      cursors = index.cursors;
      pages = index.pages;
      parents = map (λ entry. (entry.0, collection_of entry.1)) ids;
      candidates = builder.candidates;
      completeness = builder.completeness;
    }

    unfoldable pub finish :
        Bool → SnapshotBuilder PathBuf → W → Result StorageError (StorageSnapshot PathBuf) × W
    unfolding check_all sort_rows index_rows collection_of
    finish descending builder w = elim (check_all builder) [
      | err e ↦ (err e, w)
      | ok ids ↦
          let (index, w') = index_rows fill (sort_rows descending builder.rows) empty_index w in
          (index >>= λ i. ok (snapshot_of builder ids i), w')
    ]
