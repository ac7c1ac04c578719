-- ===== src/Storage/Indexing.antt =====
-- The cursors and pages of a finished snapshot agree.
use mathlib.Core.Path.{subst}
use supa_diska_klinah.Base.{
  All, all, as_bytes_ascii, ◌/◌, ◌%◌, ◌<◌, ℕ, ◌≡◌, refl, sym, ap, ◌∙◌, true, none, some, List, [],
  ◌∷◌, ◌++◌, Text, Text-discrete, same, same_of_eq, eq_of_same, length, get_elem?, arith,
  Bool-cases, Option-cases, Result-cases, inl, inr, Result, ok, err,
}
use supa_diska_klinah.Protection.Hex.{to_hex, IsByte, to_hex-ascii, length-to_hex, digit}
use supa_diska_klinah.Storage.Types.{valid_storage_id, is_id_byte, StorageError, entropy_failed}
use supa_diska_klinah.Storage.Snapshots.{Row, PageKey, same_key, get_text, page_rows}
use supa_diska_klinah.Storage.PageRows.{
  get_elem?-snoc_old, get_elem?-snoc_new, get_elem?-snoc, same_key_eq, page_rows-push_page_same,
  page_rows-push_page_other,
}
use supa_diska_klinah.Storage.Builder.{
  Index, empty_index, push_page, index_row, index_rows, with_cursor, key_of,
}

-- Each place of a page is a row, and the cursor of the row gives the place back.
abbrev pub IsIndexed : Index → Type 0
IsIndexed index =
    (key : PageKey) (i at : ℕ)
    → get_elem? (page_rows index.pages key) i ≡ some at
    → (row : Row) × ((get_elem? index.rows at ≡ some row)
        × ((get_text index.cursors row.cursor ≡ some (key, i))
            × (valid_storage_id row.cursor ≡ true)))

-- a cursor that is already given out stays with its row
get_text-older :
    (cursors : List (Text × (PageKey × ℕ))) (cursor older : Text) (place found : PageKey × ℕ)
    → get_text cursors cursor ≡ none
    → get_text cursors older ≡ some found
    → get_text ((cursor, place) ∷ cursors) older ≡ some found
get_text-older cursors cursor older place found n h =
    elim (Bool-cases (same Text-discrete cursor older)) [
      | inl e ↦
          let f =
            subst (λ c. get_text cursors c ≡ some found)
              (sym (eq_of_same Text-discrete cursor older e)) h in
          ground (arith, n, f)
      | inr e ↦ rw e h
    ]

-- The index with one more row.
abbrev pub grow : Row → Index → Index
grow row index =
    let key = key_of row.row_record in
    record {
      rows = index.rows ++ row ∷ [];
      cursors = (row.cursor, (key, length (page_rows index.pages key))) ∷ index.cursors;
      pages = push_page index.pages key (length index.rows);
    }

abbrev Placed : Index → PageKey → ℕ → ℕ → Type 0
Placed index key i at =
    (row : Row) × ((get_elem? index.rows at ≡ some row)
      × ((get_text index.cursors row.cursor ≡ some (key, i))
          × (valid_storage_id row.cursor ≡ true)))

grow_older :
    (row : Row) (index : Index) (key : PageKey) (i at : ℕ)
    → get_text index.cursors row.cursor ≡ none
    → Placed index key i at
    → Placed (grow row index) key i at
grow_older row index key i at n (older, (r, (c, v))) = (
  older,
  (
    get_elem?-snoc_old index.rows row older at r,
    (
      get_text-older index.cursors row.cursor older.cursor
          (key_of row.row_record, length (page_rows index.pages (key_of row.row_record))) (key, i) n
          c,
      v,
    ),
  ),
)

grow_newest :
    (row : Row) (index : Index)
    → valid_storage_id row.cursor ≡ true
    → Placed
        (grow row index)
        (key_of row.row_record)
        (length (page_rows index.pages (key_of row.row_record)))
        (length index.rows)
grow_newest row index v = (
  row,
  (
    get_elem?-snoc_new index.rows row,
    (rw (same_of_eq Text-discrete row.cursor row.cursor refl) refl, v),
  ),
)

grow-IsIndexed :
    (row : Row) (index : Index)
    → valid_storage_id row.cursor ≡ true
    → get_text index.cursors row.cursor ≡ none
    → IsIndexed index
    → IsIndexed (grow row index)
grow-IsIndexed row index v n a key i at h =
    elim (Bool-cases (same_key (key_of row.row_record) key)) [
      | inr e ↦
          let o =
            page_rows-push_page_other index.pages (key_of row.row_record) key (length index.rows)
              e in
          grow_older row index key i at n (a key i at (sym (ap (λ p. get_elem? p i) o) ∙ h))
      | inl e ↦
          let q = same_key_eq (key_of row.row_record) key e in
          subst (λ k. Placed (grow row index) k i at) q
            (at_key
              (subst (λ k. get_elem? (page_rows (grow row index).pages k) i ≡ some at) (sym q) h))
    ]
  where
    at_key :
        get_elem? (page_rows (grow row index).pages (key_of row.row_record)) i ≡ some at
        → Placed (grow row index) (key_of row.row_record) i at
    at_key g =
        let k = key_of row.row_record in
        let page = page_rows index.pages k in
        let s = page_rows-push_page_same index.pages k (length index.rows) in
        elim (get_elem?-snoc page (length index.rows) at i (sym (ap (λ p. get_elem? p i) s) ∙ g)) [
          | inl old ↦ grow_older row index k i at n (a k i at old)
          | inr (e, f) ↦
              subst (λ j. Placed (grow row index) k j at) (sym e)
                (subst (λ j. Placed (grow row index) k (length page) j) f (grow_newest row index v))
        ]

ok_index : {d e : Index} → Path (Result StorageError Index) (ok d) (ok e) → d ≡ e
ok_index h = ground (arith, h)

pub index_row-grow :
    (row : Row) (index grown : Index)
    → index_row row index (get_text index.cursors row.cursor) ≡ ok grown
    → (get_text index.cursors row.cursor ≡ none) × (grow row index ≡ grown)
index_row-grow row index grown h = elim (Option-cases (get_text index.cursors row.cursor)) [
  | inl n ↦ (n, ok_index (sym (ap (index_row row index) n) ∙ h))
  | inr (place, q) ↦ ground (arith, h, q)
]

digit_is_id : (n : ℕ) → n < 16 → is_id_byte (digit n) ≡ true
unfolding digit
digit_is_id n h = ground arith

to_hex-digits : (bytes : List ℕ) → All IsByte bytes → all is_id_byte (to_hex bytes) ≡ true
unfolding to_hex
to_hex-digits [] b = refl
to_hex-digits (c ∷ bytes) b = rw (
  digit_is_id (c / 16) (omega arith),
  digit_is_id (c % 16) (omega arith),
  to_hex-digits bytes b.1,
)

-- sixteen bytes make an identifier
to_hex-valid :
    (bytes : List ℕ) → length bytes ≡ 16 → All IsByte bytes → valid_storage_id (to_hex bytes) ≡ true
unfolding valid_storage_id
to_hex-valid bytes l b =
    let a = as_bytes_ascii (to_hex bytes) (to_hex-ascii bytes b) in
    let n = length-to_hex bytes in rw (a, to_hex-digits bytes b, n, l) refl

-- Random bytes: a buffer of sixteen bytes is filled.
abbrev pub FillsBuffer : {W F : Type 0} → (W → Result F (List ℕ) × W) → Type 0
FillsBuffer {W} fill =
    (w : W) (bytes : List ℕ) → (fill w).0 ≡ ok bytes → (length bytes ≡ 16) × All IsByte bytes

module _ {W F : Type 0} (fill : W → Result F (List ℕ) × W) (fills : FillsBuffer fill) where
  -- What every new row keeps holds of the whole index.
  pub index_rows-keeps :
      (I : Index → Type 0)
      (step : (row : Row) (index : Index)
        → valid_storage_id row.cursor ≡ true
        → get_text index.cursors row.cursor ≡ none
        → I index
        → I (grow row index))
      (rows : List Row) (index final : Index) (w : W)
      → I index
      → (index_rows fill rows index w).0 ≡ ok final
      → I final
  unfolding index_rows
  index_rows-keeps I step [] index final w a h = subst I (ok_index h) a
  index_rows-keeps I step (row ∷ rows) index final w a h = elim (Result-cases (fill w).0) [
    | inl (e, q) ↦ let r = fill_failed e q in ground (arith, r, h)
    | inr (bytes, q) ↦
        let named = with_cursor fill row bytes in
        elim (Result-cases (index_row named index (get_text index.cursors named.cursor))) [
          | inl (e, r) ↦ let f = row_failed bytes e q r in ground (arith, f, h)
          | inr (grown, r) ↦
              let (n, g) = index_row-grow named index grown r in
              index_rows-keeps I step rows grown final (fill w).1
                (subst I g
                  (step named index (let (l, b) = fills w bytes q in to_hex-valid bytes l b) n a))
                (sym (row_added bytes grown q r) ∙ h)
        ]
  ]
    where
      fill_failed :
          (e : F)
          → (fill w).0 ≡ err e
          → (index_rows fill (row ∷ rows) index w).0 ≡ err entropy_failed
      fill_failed e q = rw (q, index_rows) refl

      row_failed :
          (bytes : List ℕ) (e : StorageError)
          → (fill w).0 ≡ ok bytes
          → index_row
              (with_cursor fill row bytes)
              index
              (get_text index.cursors (with_cursor fill row bytes).cursor)
            ≡ err e
          → (index_rows fill (row ∷ rows) index w).0 ≡ err e
      row_failed bytes e q r = rw (q, r, index_rows) refl

      row_added :
          (bytes : List ℕ) (grown : Index)
          → (fill w).0 ≡ ok bytes
          → index_row
              (with_cursor fill row bytes)
              index
              (get_text index.cursors (with_cursor fill row bytes).cursor)
            ≡ ok grown
          → (index_rows fill (row ∷ rows) index w).0 ≡ (index_rows fill rows grown (fill w).1).0
      row_added bytes grown q r = rw (q, r, index_rows) refl

  pub index_rows-IsIndexed :
      (rows : List Row) (final : Index) (w : W)
      → (index_rows fill rows empty_index w).0 ≡ ok final
      → IsIndexed final
  index_rows-IsIndexed rows final w h =
      index_rows-keeps IsIndexed grow-IsIndexed rows empty_index final w
        (λ key i at e. ground (arith, e)) h
