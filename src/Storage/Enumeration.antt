-- ===== src/Storage/Enumeration.antt =====
-- Following the cursors from page to page.
use mathlib.Core.Path.{subst}
use supa_diska_klinah.Base.{
  bind_ok, skip, ℕ, zero, suc, ◌+◌, ◌-◌, ◌≤◌, ◌<◌, ◌≡◌, refl, sym, ap, ◌∙◌, Bool, true, false, ◌&&◌,
  Option, none, some, List, [], ◌∷◌, ◌++◌, map, Text, Text-discrete, same, length, take, keep,
  arith, Bool-cases, Result-cases, inl, inr, Result, ok, err, guard, ltb, ◌>>=◌,
}
use supa_diska_klinah.Storage.Types.{
  StorageModule-discrete, StorageError, invalid_cursor, snapshot_unavailable, valid_storage_id,
}
use supa_diska_klinah.Storage.Requests.{PageRequest, validate_page}
use supa_diska_klinah.Storage.Records.{StorageRecord}
use supa_diska_klinah.Storage.Snapshots.{
  Row, PageKey, StorageSnapshot, StoragePage, get_text, page_rows, rows_at, check_parent, start_of,
  page_from, snapshot_page,
}
use supa_diska_klinah.Storage.Builder.{SnapshotBuilder, sort_rows, Index, empty_index, index_rows}
use supa_diska_klinah.Storage.Indexing.{IsIndexed, FillsBuffer, index_rows-IsIndexed}
use supa_diska_klinah.Storage.PageRows.{same_key_refl}
use supa_diska_klinah.Storage.Paths.{PathLibrary}
use supa_diska_klinah.Storage.Finish.{finish, check_all, snapshot_of}
use supa_diska_klinah.Storage.Places.{
  last_cursor-taken, rows_at-take-skip, take_all, skip-skip, length-skip, get_elem?-skip,
  get_elem?-some, AllFound-skip, AllFound-places,
}
use supa_diska_klinah.Storage.Selecting.{AllFound, has_key, index_rows-IsSelecting}

-- The index of a snapshot.
abbrev pub index_of : {P : Type 0} → StorageSnapshot P → Index
index_of snapshot = record {
  rows = snapshot.rows;
  cursors = snapshot.cursors;
  pages = snapshot.pages;
}

abbrev pub at_cursor : PageRequest → Option Text → PageRequest
at_cursor request cursor = record request { cursor = cursor }

abbrev pub key_of_request : PageRequest → PageKey
key_of_request request = (request.collection, request.parent_id)

validate_page-at_cursor :
    (request : PageRequest) (cursor : Text)
    → validate_page request ≡ ok tt
    → valid_storage_id cursor ≡ true
    → validate_page (at_cursor request (some cursor)) ≡ ok tt
unfolding validate_page
validate_page-at_cursor request cursor h v = ground (arith, h, v)

page_size_positive :
    (request : PageRequest) → validate_page request ≡ ok tt → (m : ℕ) × (request.page_size ≡ suc m)
unfolding validate_page
page_size_positive request h = (request.page_size - 1, ground (arith, h))

start_after_place :
    (cursors : List (Text × (PageKey × ℕ))) (key : PageKey) (cursor : Text) (place : ℕ)
    → get_text cursors cursor ≡ some (key, place)
    → start_of cursors key (some cursor) ≡ ok (suc place)
unfolding start_of
start_after_place cursors key cursor place h = rw (h, same_key_refl key) refl

abbrev pub records_of : List Row → List StorageRecord
records_of = map (λ row. row.row_record)

records_of-append : (a b : List Row) → records_of (a ++ b) ≡ records_of a ++ records_of b
records_of-append [] b = refl
records_of-append (row ∷ a) b = ap (λ t. row.row_record ∷ t) (records_of-append a b)

abbrev total_of : Result StorageError StoragePage → ℕ
total_of (ok page) = page.retained_total
total_of (err _) = 0

three_steps :
    (a b c : Result StorageError (Unit {0})) (k : Result StorageError StoragePage)
    (page : StoragePage)
    → (a >>= λ _. b >>= λ _. c >>= λ _. k) ≡ ok page
    → (a ≡ ok tt) × ((b ≡ ok tt) × (c ≡ ok tt))
three_steps a b c k page h = ground (arith, h)

module _ {P : Type 0} where
  -- A caller that asks for the next page until there is none; it gives up after `n` pages.
  unfoldable pub walk_pages :
      ℕ → StorageSnapshot P → PageRequest → Result StorageError (List StorageRecord)
  unfolding snapshot_page
  walk_pages zero snapshot request = err invalid_cursor
  walk_pages (suc n) snapshot request = snapshot_page snapshot request >>= λ page.
      elim page.next_cursor [
        | none ↦ ok page.records
        | some cursor ↦ walk_pages n snapshot (at_cursor request (some cursor)) >>= λ rest.
            ok (page.records ++ rest)
      ]

  -- What a request needs besides a cursor.
  abbrev Accepted : StorageSnapshot P → PageRequest → Type 0
  Accepted snapshot request =
      (validate_page request ≡ ok tt)
      × ((guard
              (same Text-discrete request.snapshot_id snapshot.id
                && same StorageModule-discrete request.storage_module snapshot.storage_module)
              snapshot_unavailable
            ≡ ok tt)
          × (check_parent snapshot.parents request.collection request.parent_id ≡ ok tt))

  page-Accepted :
      (snapshot : StorageSnapshot P) (request : PageRequest) (page : StoragePage)
      → snapshot_page snapshot request ≡ ok page
      → Accepted snapshot request
  unfolding snapshot_page
  page-Accepted snapshot request page h =
      let key = key_of_request request in
      three_steps (validate_page request)
        (guard
          (same Text-discrete request.snapshot_id snapshot.id
            && same StorageModule-discrete request.storage_module snapshot.storage_module)
          snapshot_unavailable)
        (check_parent snapshot.parents request.collection request.parent_id)
        (start_of snapshot.cursors key request.cursor >>= λ start.
          ok (page_from snapshot request.page_size (page_rows snapshot.pages key) start))
        page h

  page_at :
      (snapshot : StorageSnapshot P) (request : PageRequest) (cursor : Option Text) (start : ℕ)
      → Accepted snapshot request
      → validate_page (at_cursor request cursor) ≡ ok tt
      → start_of snapshot.cursors (key_of_request request) cursor ≡ ok start
      → snapshot_page snapshot (at_cursor request cursor)
        ≡ ok (
            page_from snapshot request.page_size
              (page_rows snapshot.pages (key_of_request request))
              start)
  unfolding snapshot_page check_parent
  page_at snapshot request cursor start (v, (g, p)) v' s = rw (v', g, p, s) refl

  -- The records of the rows from a place on.
  abbrev records_from : StorageSnapshot P → PageRequest → ℕ → List StorageRecord
  records_from snapshot request start =
      map (λ row. row.row_record)
        (rows_at snapshot.rows (skip start (page_rows snapshot.pages (key_of_request request))))

  AllFound-indexed :
      (snapshot : StorageSnapshot P) (key : PageKey)
      → IsIndexed (index_of snapshot)
      → AllFound snapshot.rows (page_rows snapshot.pages key)
  AllFound-indexed snapshot key x =
      AllFound-places snapshot.rows (page_rows snapshot.pages key)
        (λ i at g. let (row, (r, _)) = x key i at g in (row, r))

  page_from-last :
      (snapshot : StorageSnapshot P) (size start : ℕ) (indices : List ℕ)
      → start ≤ length indices
      → ltb (start + size) (length indices) ≡ false
      → ((page_from snapshot size indices start).next_cursor ≡ none)
        × ((page_from snapshot size indices start).records
            ≡ map (λ row. row.row_record) (rows_at snapshot.rows (skip start indices)))
  unfolding page_from
  page_from-last snapshot size start indices low last =
      let l = length-skip start indices low in
      let t = take_all size (skip start indices) (ground (arith, l, low, last)) in
      (ground (arith, last), ap (λ xs. map (λ row. row.row_record) (rows_at snapshot.rows xs)) t)

  -- The cursor of the last row of a full page, which is at place `start + m`.
  abbrev NextCursor : StorageSnapshot P → PageKey → ℕ → ℕ → Type 0
  NextCursor snapshot key m start =
      (cursor : Text) × (((page_from snapshot (suc m) (page_rows snapshot.pages key)
            start).next_cursor
          ≡ some cursor)
        × ((get_text snapshot.cursors cursor ≡ some (key, start + m))
            × (valid_storage_id cursor ≡ true)))

  page_from-more :
      (snapshot : StorageSnapshot P) (key : PageKey) (m start : ℕ)
      → IsIndexed (index_of snapshot)
      → ltb (start + suc m) (length (page_rows snapshot.pages key)) ≡ true
      → NextCursor snapshot key m start
  unfolding page_from
  page_from-more snapshot key m start x more =
      let indices = page_rows snapshot.pages key in
      let (at, g) = get_elem?-some (start + m) indices (ground (arith, more)) in
      let (row, (r, (c, v))) = x key (start + m) at g in
      let found = AllFound-skip snapshot.rows start indices (AllFound-indexed snapshot key x) in
      let last =
        last_cursor-taken snapshot.rows (skip start indices) m at row found
          (get_elem?-skip start m indices ∙ g) r in
      (row.cursor, (ground (arith, more, last), (c, v)))

  walk_last :
      (n start : ℕ) (snapshot : StorageSnapshot P) (request : PageRequest) (cursor : Option Text)
      (page : StoragePage)
      → snapshot_page snapshot (at_cursor request cursor) ≡ ok page
      → page.next_cursor ≡ none
      → walk_pages (suc n) snapshot (at_cursor request cursor) ≡ ok page.records
  unfolding walk_pages
  walk_last n start snapshot request cursor page p e = rw (p, e) refl

  walk_more :
      (n : ℕ) (snapshot : StorageSnapshot P) (request : PageRequest) (cursor : Option Text)
      (page : StoragePage) (next : Text) (rest : List StorageRecord)
      → snapshot_page snapshot (at_cursor request cursor) ≡ ok page
      → page.next_cursor ≡ some next
      → walk_pages n snapshot (at_cursor request (some next)) ≡ ok rest
      → walk_pages (suc n) snapshot (at_cursor request cursor) ≡ ok (page.records ++ rest)
  unfolding walk_pages
  walk_more n snapshot request cursor page next rest p e r = rw (p, e, r) refl

  records_split :
      (snapshot : StorageSnapshot P) (request : PageRequest) (size start : ℕ)
      → IsIndexed (index_of snapshot)
      → (page_from snapshot size (page_rows snapshot.pages (key_of_request request)) start).records
          ++ records_from snapshot request (start + size)
        ≡ records_from snapshot request start
  unfolding page_from
  records_split snapshot request size start x =
      let indices = page_rows snapshot.pages (key_of_request request) in
      let ys = skip start indices in
      let found =
        AllFound-skip snapshot.rows start indices
          (AllFound-indexed snapshot (key_of_request request) x) in
      ap
        (λ t.
          records_of (rows_at snapshot.rows (take size ys)) ++ records_of (rows_at snapshot.rows t))
        (sym (skip-skip start size indices))
      ∙ sym (
          records_of-append (rows_at snapshot.rows (take size ys))
            (rows_at snapshot.rows (skip size ys)))
      ∙ ap records_of (rows_at-take-skip snapshot.rows ys size found)

  -- The pages from a place on give the records from there on.
  walk_from :
      (n start : ℕ) (snapshot : StorageSnapshot P) (request : PageRequest) (cursor : Option Text)
      → IsIndexed (index_of snapshot)
      → Accepted snapshot request
      → validate_page (at_cursor request cursor) ≡ ok tt
      → start_of snapshot.cursors (key_of_request request) cursor ≡ ok start
      → start ≤ length (page_rows snapshot.pages (key_of_request request))
      → length (page_rows snapshot.pages (key_of_request request)) < start + n
      → walk_pages n snapshot (at_cursor request cursor) ≡ ok (records_from snapshot request start)
  unfolding walk_pages
  walk_from zero start snapshot request cursor x a v s low high = ground (arith, low, high)
  walk_from (suc n) start snapshot request cursor x a v s low high =
      let key = key_of_request request in
      let indices = page_rows snapshot.pages key in
      let size = request.page_size in
      let p = page_at snapshot request cursor start a v s in
      elim (Bool-cases (ltb (start + size) (length indices))) [
        | inl more ↦
            let (m, e) = page_size_positive request a.0 in
            let (next, (found, (c, valid))) =
              subst
                (λ k.
                  (next : Text) × (((page_from snapshot k indices start).next_cursor ≡ some next)
                    × ((get_text snapshot.cursors next ≡ some (key, start + m))
                        × (valid_storage_id next ≡ true))))
                (sym e)
                (page_from-more snapshot key m start x
                  (subst (λ k. ltb (start + k) (length indices) ≡ true) e more)) in
            let after = start_after_place snapshot.cursors key next (start + m) c in
            let place : suc (start + m) ≡ start + size = ground (arith, e) in
            let rest =
              walk_from n (start + size) snapshot request (some next) x a
                (validate_page-at_cursor request next a.0 valid) (after ∙ ap ok place)
                (ground (arith, more)) (ground (arith, high, e)) in
            walk_more n snapshot request cursor (page_from snapshot size indices start) next
              (records_from snapshot request (start + size)) p found rest
            ∙ ap ok (records_split snapshot request size start x)
        | inr last ↦
            let (none_left, records) = page_from-last snapshot size start indices low last in
            walk_last n start snapshot request cursor (page_from snapshot size indices start) p
              none_left
            ∙ ap ok records
      ]

  enumerated :
      {W F : Type 0} (fill : W → Result F (List ℕ) × W)
      → FillsBuffer fill
      → (rows : List Row) (w : W) (snapshot : StorageSnapshot P) (request : PageRequest)
        (first : StoragePage)
      → (index_rows fill rows empty_index w).0 ≡ ok (index_of snapshot)
      → snapshot_page snapshot (at_cursor request none) ≡ ok first
      → walk_pages (suc first.retained_total) snapshot (at_cursor request none)
        ≡ ok (records_of (keep (has_key (key_of_request request)) snapshot.rows))
  unfolding snapshot_page start_of page_from
  enumerated fill fills rows w snapshot request first built h =
      let key = key_of_request request in
      let x = index_rows-IsIndexed fill fills rows (index_of snapshot) w built in
      let (_, same) = index_rows-IsSelecting fill fills rows (index_of snapshot) w built key in
      let a = page-Accepted snapshot (at_cursor request none) first h in
      let total : first.retained_total ≡ length (page_rows snapshot.pages key) =
        ap total_of (sym h ∙ page_at snapshot (at_cursor request none) none 0 a a.0 refl) in
      walk_from (suc first.retained_total) 0 snapshot (at_cursor request none) none x a a.0 refl
        (omega arith) (omega (arith, total))
      ∙ ap (λ t. ok (records_of t)) same

module _ (paths : PathLibrary) {W F : Type 0} (fill : W → Result F (List ℕ) × W)
    (fills : FillsBuffer fill) where
  -- what is finished has the rows, cursors and pages of the loop over the sorted rows
  finish-index :
      (descending : Bool) (builder : SnapshotBuilder paths.PathBuf) (w : W)
      (snapshot : StorageSnapshot paths.PathBuf)
      → (finish paths fill descending builder w).0 ≡ ok snapshot
      → (index_rows fill (sort_rows descending builder.rows) empty_index w).0
        ≡ ok (index_of snapshot)
  unfolding finish
  finish-index descending builder w snapshot h = elim (Result-cases (check_all paths builder)) [
    | inl (e, q) ↦ let r = refused e q in ground (arith, r, h)
    | inr (ids, q) ↦
        let (index, (built, same)) =
          bind_ok (index_rows fill (sort_rows descending builder.rows) empty_index w).0
            (λ i. ok (snapshot_of paths fill builder ids i)) snapshot (sym (checked ids q) ∙ h) in
        built ∙ ap (λ r. r >>= λ s. ok (index_of s)) same
  ]
    where
      refused :
          (e : StorageError)
          → check_all paths builder ≡ err e
          → (finish paths fill descending builder w).0 ≡ err e
      refused e q = rw (q, finish) refl

      checked :
          (ids : List (Text × StorageRecord))
          → check_all paths builder ≡ ok ids
          → (finish paths fill descending builder w).0 ≡ (
              (index_rows fill (sort_rows descending builder.rows) empty_index w).0 >>= λ i.
              ok (snapshot_of paths fill builder ids i))
      checked ids q = rw (q, finish) refl

  -- If a builder finishes with a snapshot and the first page of a request on it is given, then,
  -- where the random source fills its buffer of sixteen bytes, following the cursors from there
  -- ends, within one page more than there are rows of the requested kind and parent, and gives
  -- each of these rows once, in the order of the snapshot.
  pub walk_pages_lem :
      (descending : Bool) (builder : SnapshotBuilder paths.PathBuf) (w : W)
      (snapshot : StorageSnapshot paths.PathBuf) (request : PageRequest) (first : StoragePage)
      → (finish paths fill descending builder w).0 ≡ ok snapshot
      → snapshot_page snapshot (at_cursor request none) ≡ ok first
      → walk_pages (suc first.retained_total) snapshot (at_cursor request none)
        ≡ ok (records_of (keep (has_key (key_of_request request)) snapshot.rows))
  walk_pages_lem descending builder w snapshot request first f h =
      enumerated fill fills (sort_rows descending builder.rows) w snapshot request first
        (finish-index descending builder w snapshot f) h
