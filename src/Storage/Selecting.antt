-- ===== src/Storage/Selecting.antt =====
-- A page of a finished snapshot holds the rows of its kind and parent, in the order of the rows.
use mathlib.Core.Path.{subst}
use supa_diska_klinah.Base.{
  ℕ, ◌≡◌, refl, sym, ap, ◌∙◌, Bool, some, List, [], ◌∷◌, ◌++◌, keep, get_elem?, length, All, arith,
  Bool-cases, Option-cases, inl, inr, Result, ok, if◌then◌else◌,
}
use mathlib.Core.List.{append-nil}
use supa_diska_klinah.Storage.Snapshots.{Row, PageKey, same_key, page_rows, rows_at}
use supa_diska_klinah.Storage.Builder.{Index, empty_index, push_page, index_rows, key_of}
use supa_diska_klinah.Storage.Indexing.{grow, FillsBuffer, index_rows-keeps}
use supa_diska_klinah.Storage.PageRows.{
  get_elem?-snoc_old, get_elem?-snoc_new, page_rows-push_page_same, page_rows-push_page_other,
  same_key_eq,
}

-- Every place holds a row.
abbrev pub AllFound : List Row → List ℕ → Type 0
AllFound rows = All (λ at. (row : Row) × (get_elem? rows at ≡ some row))

AllFound-more :
    (rows : List Row) (row : Row) (ys : List ℕ) → AllFound rows ys → AllFound (rows ++ row ∷ []) ys
AllFound-more rows row [] a = tt
AllFound-more rows row (y ∷ ys) ((found, f), a) =
    ((found, get_elem?-snoc_old rows row found y f), AllFound-more rows row ys a)

AllFound-snoc :
    (rows : List Row) (at : ℕ) (row : Row) (ys : List ℕ)
    → get_elem? rows at ≡ some row
    → AllFound rows ys
    → AllFound rows (ys ++ at ∷ [])
AllFound-snoc rows at row [] g a = ((row, g), tt)
AllFound-snoc rows at row (y ∷ ys) g (f, a) = (f, AllFound-snoc rows at row ys g a)

rows_at-more :
    (rows : List Row) (row : Row) (ys : List ℕ)
    → AllFound rows ys
    → rows_at (rows ++ row ∷ []) ys ≡ rows_at rows ys
rows_at-more rows row [] a = refl
rows_at-more rows row (y ∷ ys) ((found, f), a) =
    rw (f, get_elem?-snoc_old rows row found y f, rows_at)
      (ap (λ t. found ∷ t) (rows_at-more rows row ys a))

rows_at-snoc :
    (rows : List Row) (at : ℕ) (row : Row) (ys : List ℕ)
    → get_elem? rows at ≡ some row
    → rows_at rows (ys ++ at ∷ []) ≡ rows_at rows ys ++ row ∷ []
rows_at-snoc rows at row [] g = rw (g, rows_at) refl
rows_at-snoc rows at row (y ∷ ys) g = elim (Option-cases (get_elem? rows y)) [
  | inl n ↦ rw (n, rows_at) (rows_at-snoc rows at row ys g)
  | inr (found, f) ↦ rw (f, rows_at) (ap (λ t. found ∷ t) (rows_at-snoc rows at row ys g))
]

keep-snoc :
    (test : Row → Bool) (rows : List Row) (row : Row)
    → keep test (rows ++ row ∷ []) ≡ keep test rows ++ (if test row then row ∷ [] else [])
keep-snoc test [] row = ground arith
keep-snoc test (other ∷ rows) row = let ih = keep-snoc test rows row in ground arith

abbrev pub has_key : PageKey → Row → Bool
has_key key row = same_key (key_of row.row_record) key

-- The page of each key is made of the rows with the key.
abbrev pub IsSelecting : Index → Type 0
IsSelecting index =
    (key : PageKey)
    → AllFound index.rows (page_rows index.pages key)
      × (rows_at index.rows (page_rows index.pages key) ≡ keep (has_key key) index.rows)

grow-IsSelecting : (row : Row) (index : Index) → IsSelecting index → IsSelecting (grow row index)
unfolding key_of
grow-IsSelecting row index a key =
    let n = length index.rows in
    let k = key_of row.row_record in
    let (found, same) = a key in
    let more = AllFound-more index.rows row (page_rows index.pages key) found in
    let old = rows_at-more index.rows row (page_rows index.pages key) found in
    let kept = keep-snoc (has_key key) index.rows row in
    let new = get_elem?-snoc_new index.rows row in
    elim (Bool-cases (has_key key row)) [
      | inr e ↦
          let p = page_rows-push_page_other index.pages k key n e in
          rw (p, kept, e) (more, old ∙ same ∙ sym (append-nil (keep (has_key key) index.rows)))
      | inl e ↦
          let p =
            subst (λ z. page_rows (push_page index.pages k n) z ≡ page_rows index.pages z ++ n ∷ [])
              (same_key_eq k key e) (page_rows-push_page_same index.pages k n) in
          rw (p, kept, e)
            (
              AllFound-snoc (index.rows ++ row ∷ []) n row (page_rows index.pages key) new more,
              rows_at-snoc (index.rows ++ row ∷ []) n row (page_rows index.pages key) new
                  ∙ ap (λ t. t ++ row ∷ []) (old ∙ same),
            )
    ]

pub index_rows-IsSelecting :
    {W F : Type 0} (fill : W → Result F (List ℕ) × W)
    → FillsBuffer fill
    → (rows : List Row) (final : Index) (w : W) → (index_rows fill rows empty_index w).0 ≡ ok final
    → IsSelecting final
index_rows-IsSelecting fill fills rows final w h =
    index_rows-keeps fill fills IsSelecting (λ row index v n a. grow-IsSelecting row index a) rows
      empty_index final w (λ key. (tt, refl)) h
