-- ===== src/Storage/Snapshots.antt =====
-- Finished snapshots and their pages, in crates/cleanup-core/src/storage/paging.rs. A hash map is
-- the list of its entries in the order in which it is iterated.
use supa_diska_klinah.Base.{
  skip, ℕ, suc, ◌+◌, min, Bool, false, ◌&&◌, Option, none, some, List, [], ◌∷◌, map, Text,
  Text-discrete, same, length, take, get_elem?, ltb, if◌then◌else◌, Result, ok, err, ◌>>=◌, ◌>>◌,
  guard, ok_or,
}
use supa_diska_klinah.Storage.Types.{
  StorageModule, StorageModule-discrete, StorageError, invalid_request, invalid_cursor,
  snapshot_unavailable, Completeness,
}
use supa_diska_klinah.Storage.Requests.{
  PageCollection, tree, duplicate_groups, PageCollection-discrete, PageRequest, validate_page,
}
use supa_diska_klinah.Storage.Records.{StorageRecord}
use supa_diska_klinah.Storage.Evidence.{StorageEvidence}

pub record RecordOrder : Type 0 where
  pub numeric : ℕ
  pub text : Text

pub record Row : Type 0 where
  pub row_record : StorageRecord
  pub order : RecordOrder
  pub cursor : Text

abbrev pub PageKey : Type 0
PageKey = PageCollection × Option Text

unfoldable pub OptionText-discrete : Discrete (Option Text)
unfolding Text-discrete
OptionText-discrete = hlevel Text-discrete

abbrev pub same_key : PageKey → PageKey → Bool
same_key left right =
    same PageCollection-discrete left.0 right.0 && same OptionText-discrete left.1 right.1

pub record StorageSnapshot (P : Type 0) : Type 0 where
  pub id : Text
  pub storage_module : StorageModule
  pub rows : List Row
  pub cursors : List (Text × (PageKey × ℕ))
  pub pages : List (PageKey × List ℕ)
  pub parents : List (Text × PageCollection)
  pub candidates : List (Text × StorageEvidence P)
  pub completeness : Completeness

pub record StoragePage : Type 0 where
  pub snapshot_id : Text
  pub records : List StorageRecord
  pub next_cursor : Option Text
  pub retained_total : ℕ
  pub completeness : Completeness

-- `map.get(key)`.
abbrev pub get_text : {V : Type 0} → List (Text × V) → Text → Option V
get_text [] id = none
get_text ((other, value) ∷ entries) id =
    let rest = get_text entries id in if same Text-discrete other id then some value else rest

-- `self.pages.get(&key)`, or no rows.
abbrev pub page_rows : List (PageKey × List ℕ) → PageKey → List ℕ
page_rows [] key = []
page_rows ((other, indices) ∷ pages) key =
    let rest = page_rows pages key in if same_key other key then indices else rest

abbrev expected_parent : PageCollection → PageCollection
expected_parent collection =
    if same PageCollection-discrete collection tree then tree else duplicate_groups

abbrev parent_matches : Option PageCollection → PageCollection → Bool
parent_matches none expected = false
parent_matches (some found) expected = same PageCollection-discrete found expected

unfoldable pub check_parent :
    List (Text × PageCollection) → PageCollection → Option Text → Result StorageError (Unit {0})
check_parent parents collection none = ok tt
check_parent parents collection (some parent) =
    guard (parent_matches (get_text parents parent) (expected_parent collection)) invalid_request

abbrev start_after : PageKey → PageKey × ℕ → Result StorageError ℕ
start_after key (cursor_key, offset) =
    if same_key cursor_key key then ok (suc offset) else err invalid_cursor

unfoldable pub start_of :
    List (Text × (PageKey × ℕ)) → PageKey → Option Text → Result StorageError ℕ
start_of cursors key none = ok 0
start_of cursors key (some cursor) =
    ok_or (get_text cursors cursor) invalid_cursor >>= start_after key

-- `indices[start..end].iter().map(|index| &self.rows[*index])`; the indices are in range.
abbrev pub rows_at : List Row → List ℕ → List Row
rows_at rows [] = []
rows_at rows (index ∷ indices) =
    let rest = rows_at rows indices in
    elim (get_elem? rows index) [ none ↦ rest | some row ↦ row ∷ rest ]

abbrev pub last_cursor : List Row → Option Text
last_cursor [] = none
last_cursor (row ∷ []) = some row.cursor
last_cursor (row ∷ next ∷ rows) = last_cursor (next ∷ rows)

module _ {P : Type 0} where
  -- The page from `start` to `end`, once the request is accepted.
  unfoldable pub page_from : StorageSnapshot P → ℕ → List ℕ → ℕ → StoragePage
  page_from snapshot size indices start =
      let total = length indices in
      let end = min (start + size) total in
      let rows = rows_at snapshot.rows (take size (skip start indices)) in
      record {
        snapshot_id = snapshot.id;
        records = map (λ row. row.row_record) rows;
        next_cursor = if ltb end total then last_cursor rows else none;
        retained_total = total;
        completeness = snapshot.completeness;
      }

  -- `StorageSnapshot::page`.
  unfoldable pub snapshot_page : StorageSnapshot P → PageRequest → Result StorageError StoragePage
  unfolding validate_page check_parent start_of page_from
  snapshot_page snapshot request = do
    validate_page request
    guard
        (same Text-discrete request.snapshot_id snapshot.id
          && same StorageModule-discrete request.storage_module snapshot.storage_module)
        snapshot_unavailable
    check_parent snapshot.parents request.collection request.parent_id
    let key : PageKey = (request.collection, request.parent_id)
    start ← start_of snapshot.cursors key request.cursor
    ok (page_from snapshot request.page_size (page_rows snapshot.pages key) start)
