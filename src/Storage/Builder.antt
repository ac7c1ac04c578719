-- ===== src/Storage/Builder.antt =====
-- The builder of a snapshot, in crates/cleanup-core/src/storage/paging.rs: what it accepts, and the
-- order, cursors and pages that it gives its rows. The JSON encoder is a parameter, and random bytes
-- are read from a world.
use supa_diska_klinah.Base.{
  ℕ, Bool, true, false, not, ◌||◌, Option, none, some, List, [], ◌∷◌, ◌++◌, Text, Text-discrete,
  as_bytes, same, length, leb, ltb, if◌then◌else◌, Result, ok, err,
}
use supa_diska_klinah.Protection.Hex.{to_hex}
use supa_diska_klinah.Storage.Paths.{PathLibrary}
use supa_diska_klinah.Storage.Types.{
  StorageModule, StorageModule-discrete, StorageError, invalid_request, invalid_evidence,
  limit_reached, entropy_failed, Completeness, no_reasons, mark, PartialReason, record_limit,
  valid_storage_id, within, max_records,
}
use supa_diska_klinah.Storage.Requests.{bad_id}
use supa_diska_klinah.Storage.Records.{StorageRecord, belongs_to, id_of, parent_of, collection_of}
use supa_diska_klinah.Storage.Evidence.{
  StorageEvidence, root_of, evidence_module, validate_evidence,
}
use supa_diska_klinah.Storage.Duplicates.{compare_digest}
use supa_diska_klinah.Storage.Snapshots.{Row, RecordOrder, PageKey, same_key, get_text, page_rows}
use Prim.Native.Nat.{compare, Ordering, lt, eq, gt}

pub record SnapshotBuilder (P : Type 0) : Type 0 where
  pub id : Text
  pub storage_module : StorageModule
  pub rows : List Row
  pub candidates : List (Text × StorageEvidence P)
  pub completeness : Completeness
  pub limit : ℕ

unfoldable pub new_builder :
    {P : Type 0} → Text → StorageModule → ℕ → Result StorageError (SnapshotBuilder P)
unfolding valid_storage_id
new_builder id storage_module limit =
    if not (valid_storage_id id) || not (within 1 max_records limit)
    then err invalid_request
    else ok (record {
      id = id;
      storage_module = storage_module;
      rows = [];
      candidates = [];
      completeness = no_reasons;
      limit = limit;
    })

unfoldable pub mark_partial : {P : Type 0} → PartialReason → SnapshotBuilder P → SnapshotBuilder P
unfolding mark
mark_partial reason builder = record builder { completeness = mark builder.completeness reason }

abbrev has_candidate : {P : Type 0} → Option (StorageEvidence P) → Bool
has_candidate none = false
has_candidate (some _) = true

module _ (paths : PathLibrary) where
  open paths use {PathBuf}

  abbrev add_valid :
      Text
      → StorageEvidence PathBuf
      → SnapshotBuilder PathBuf
      → Result StorageError (Unit {0}) × SnapshotBuilder PathBuf
  add_valid id evidence builder =
      if not (valid_storage_id id)
        || not (same Text-discrete (root_of evidence).snapshot_id builder.id)
        || not (same StorageModule-discrete (evidence_module evidence) builder.storage_module)
        || has_candidate (get_text builder.candidates id)
      then (err invalid_evidence, builder)
      else if leb builder.limit (length builder.candidates)
      then (err limit_reached, mark_partial record_limit builder)
      else (ok tt, record builder { candidates = (id, evidence) ∷ builder.candidates })

  unfoldable pub add_candidate :
      Text
      → StorageEvidence PathBuf
      → SnapshotBuilder PathBuf
      → Result StorageError (Unit {0}) × SnapshotBuilder PathBuf
  unfolding validate_evidence valid_storage_id root_of evidence_module mark_partial
  add_candidate id evidence builder = elim (validate_evidence paths evidence) [
    | err e ↦ (err e, builder)
    | ok _ ↦ add_valid id evidence builder
  ]

module _ {P E : Type 0} (to_vec : StorageRecord → Result E (List ℕ)) where
  abbrev push_encoded :
      Result E (List ℕ)
      → StorageRecord
      → RecordOrder
      → SnapshotBuilder P
      → Result StorageError (Unit {0}) × SnapshotBuilder P
  push_encoded (err _) row_record order builder = (err invalid_request, builder)
  push_encoded (ok bytes) row_record order builder =
      if ltb 16384 (length bytes)
      then (err invalid_request, builder)
      else if leb builder.limit (length builder.rows)
      then (err limit_reached, mark_partial record_limit builder)
      else (
        ok tt,
        record builder {
          rows =
              builder.rows ++ record { row_record = row_record; order = order; cursor = [] } ∷ [];
        },
      )

  unfoldable pub push :
      StorageRecord
      → RecordOrder
      → SnapshotBuilder P
      → Result StorageError (Unit {0}) × SnapshotBuilder P
  unfolding belongs_to id_of parent_of mark_partial valid_storage_id
  push row_record order builder =
      if not (belongs_to row_record builder.storage_module)
        || bad_id (id_of row_record)
        || bad_id (parent_of row_record)
        || ltb 4096 (length (as_bytes order.text))
      then (err invalid_request, builder)
      else push_encoded (to_vec row_record) row_record order builder

abbrev then_with : Ordering → Ordering → Ordering
then_with lt other = lt
then_with eq other = other
then_with gt other = gt

abbrev reverse_order : Ordering → Ordering
reverse_order lt = gt
reverse_order eq = eq
reverse_order gt = lt

abbrev compare_ids : Option Text → Option Text → Ordering
compare_ids none none = eq
compare_ids none (some _) = lt
compare_ids (some _) none = gt
compare_ids (some a) (some b) = compare_digest (as_bytes a) (as_bytes b)

-- The derived order of `RecordOrder`: the number, then the bytes of the text.
abbrev compare_order : RecordOrder → RecordOrder → Ordering
compare_order a b =
    then_with (compare a.numeric b.numeric) (compare_digest (as_bytes a.text) (as_bytes b.text))

unfoldable pub compare_rows : Bool → Row → Row → Ordering
unfolding id_of
compare_rows descending a b =
    let order = compare_order a.order b.order in
    then_with (if descending then reverse_order order else order)
      (compare_ids (id_of a.row_record) (id_of b.row_record))

abbrev pub insert_row : Bool → Row → List Row → List Row
insert_row descending row [] = row ∷ []
insert_row descending row (other ∷ rows) =
    let rest = insert_row descending row rows in
    elim (compare_rows descending row other) [
      | lt ↦ row ∷ other ∷ rows
      | eq ↦ row ∷ other ∷ rows
      | gt ↦ other ∷ rest
    ]

-- `sort_by`, a stable sort.
unfoldable pub sort_rows : Bool → List Row → List Row
unfolding compare_rows
sort_rows descending [] = []
sort_rows descending (row ∷ rows) = insert_row descending row (sort_rows descending rows)

-- `pages.entry(key).or_default().push(index)`.
abbrev pub push_page : List (PageKey × List ℕ) → PageKey → ℕ → List (PageKey × List ℕ)
push_page [] key index = (key, index ∷ []) ∷ []
push_page ((other, indices) ∷ pages) key index =
    let rest = push_page pages key index in
    if same_key other key then (other, indices ++ index ∷ []) ∷ pages else (other, indices) ∷ rest

pub record Index : Type 0 where
  pub rows : List Row
  pub cursors : List (Text × (PageKey × ℕ))
  pub pages : List (PageKey × List ℕ)

abbrev pub empty_index : Index
empty_index = record { rows = []; cursors = []; pages = [] }

unfoldable pub key_of : StorageRecord → PageKey
unfolding collection_of parent_of
key_of row_record = (collection_of row_record, parent_of row_record)

-- The rest of the body of the loop, once the row has a cursor.
abbrev pub index_row : Row → Index → Option (PageKey × ℕ) → Result StorageError Index
index_row row index (some _) = err entropy_failed
index_row row index none =
    let key = key_of row.row_record in
    ok (record {
      rows = index.rows ++ row ∷ [];
      cursors = (row.cursor, (key, length (page_rows index.pages key))) ∷ index.cursors;
      pages = push_page index.pages key (length index.rows);
    })

module _ {W : Type 0} {F : Type 0} (fill : W → Result F (List ℕ) × W) where
  abbrev pub with_cursor : Row → List ℕ → Row
  with_cursor row bytes = record row { cursor = to_hex bytes }

  -- The loop over the sorted rows.
  unfoldable pub index_rows : List Row → Index → W → Result StorageError Index × W
  unfolding key_of
  index_rows [] index w = (ok index, w)
  index_rows (row ∷ rows) index w =
      let (r, w') = fill w in
      elim r [
        | err _ ↦ (err entropy_failed, w')
        | ok bytes ↦
            let named = with_cursor row bytes in
            elim (index_row named index (get_text index.cursors named.cursor)) [
              | err e ↦ (err e, w')
              | ok grown ↦ index_rows rows grown w'
            ]
      ]
