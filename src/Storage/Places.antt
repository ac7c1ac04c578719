-- ===== src/Storage/Places.antt =====
-- Places in the pages of a snapshot, and the rows at them.
use mathlib.Core.Path.{subst}
use supa_diska_klinah.Base.{
  skip, ℕ, zero, suc, ◌+◌, ◌≤◌, ◌<◌, ◌≡◌, refl, sym, ap, ◌∙◌, some, List, [], ◌∷◌, ◌++◌, Text,
  length, take, get_elem?, arith,
}
use supa_diska_klinah.Storage.Snapshots.{Row, rows_at, last_cursor}
use supa_diska_klinah.Storage.Selecting.{AllFound}

pub last_cursor-cons :
    (row : Row) (rest : List Row) (c : Text)
    → last_cursor rest ≡ some c
    → last_cursor (row ∷ rest) ≡ some c
last_cursor-cons row [] c h = ground (arith, h)
last_cursor-cons row (next ∷ rest) c h = h

pub last_cursor-taken :
    (rows : List Row) (ys : List ℕ) (n at : ℕ) (row : Row)
    → AllFound rows ys
    → get_elem? ys n ≡ some at
    → get_elem? rows at ≡ some row
    → last_cursor (rows_at rows (take (suc n) ys)) ≡ some row.cursor
last_cursor-taken rows [] n at row a g r = ground (arith, g)
last_cursor-taken rows (y ∷ ys) zero at row a g r =
    let q : get_elem? rows y ≡ some row = subst (λ z. get_elem? rows z ≡ some row) (some_at g) r in
    rw (q, last_cursor, rows_at) refl
  where
    some_at : get_elem? (y ∷ ys) zero ≡ some at → at ≡ y
    some_at h = ground (arith, h)
last_cursor-taken rows (y ∷ ys) (suc n) at row ((found, f), a) g r =
    rw (f, last_cursor, rows_at)
      (last_cursor-cons found (rows_at rows (take (suc n) ys)) row.cursor
        (last_cursor-taken rows ys n at row a g r))

pub rows_at-take-skip :
    (rows : List Row) (ys : List ℕ) (n : ℕ)
    → AllFound rows ys
    → rows_at rows (take n ys) ++ rows_at rows (skip n ys) ≡ rows_at rows ys
rows_at-take-skip rows ys zero a = refl
rows_at-take-skip rows [] (suc n) a = refl
rows_at-take-skip rows (y ∷ ys) (suc n) ((found, f), a) =
    rw (f, ◌++◌, rows_at) (ap (λ t. found ∷ t) (rows_at-take-skip rows ys n a))

pub take_all : (n : ℕ) (ys : List ℕ) → length ys ≤ n → take n ys ≡ ys
take_all zero [] h = refl
take_all (suc n) [] h = refl
take_all zero (y ∷ ys) h = ground (arith, h)
take_all (suc n) (y ∷ ys) h = ap (λ t. y ∷ t) (take_all n ys (omega arith))

pub skip_nil : (n : ℕ) → Path (List ℕ) (skip n []) []
skip_nil zero = refl
skip_nil (suc n) = refl

pub skip-skip : (n m : ℕ) (ys : List ℕ) → skip m (skip n ys) ≡ skip (n + m) ys
skip-skip zero m ys = let e : m ≡ 0 + m = omega arith in ap (λ k. skip k ys) e
skip-skip (suc n) m [] = skip_nil m ∙ sym (skip_nil (suc n + m))
skip-skip (suc n) m (y ∷ ys) =
    let e : suc (n + m) ≡ suc n + m = omega arith in skip-skip n m ys ∙ ap (λ k. skip k (y ∷ ys)) e

pub length-skip : (n : ℕ) (ys : List ℕ) → n ≤ length ys → n + length (skip n ys) ≡ length ys
length-skip zero ys h = omega arith
length-skip (suc n) [] h = ground (arith, h)
length-skip (suc n) (y ∷ ys) h = let ih = length-skip n ys (omega arith) in omega arith

pub get_elem?-skip : (n i : ℕ) (ys : List ℕ) → get_elem? (skip n ys) i ≡ get_elem? ys (n + i)
get_elem?-skip zero i ys = let e : i ≡ 0 + i = omega arith in ap (get_elem? ys) e
get_elem?-skip (suc n) i [] = refl
get_elem?-skip (suc n) i (y ∷ ys) =
    let e : suc (n + i) ≡ suc n + i = omega arith in
    get_elem?-skip n i ys ∙ ap (get_elem? (y ∷ ys)) e

pub get_elem?-some : (i : ℕ) (ys : List ℕ) → i < length ys → (at : ℕ) × (get_elem? ys i ≡ some at)
get_elem?-some i [] h = ground (arith, h)
get_elem?-some zero (y ∷ ys) h = (y, refl)
get_elem?-some (suc i) (y ∷ ys) h = get_elem?-some i ys (omega arith)

pub AllFound-skip :
    (rows : List Row) (n : ℕ) (ys : List ℕ) → AllFound rows ys → AllFound rows (skip n ys)
AllFound-skip rows zero ys a = a
AllFound-skip rows (suc n) [] a = tt
AllFound-skip rows (suc n) (y ∷ ys) a = AllFound-skip rows n ys a.1

pub AllFound-places :
    (rows : List Row) (ys : List ℕ)
    → ((i at : ℕ) → get_elem? ys i ≡ some at → (row : Row) × (get_elem? rows at ≡ some row))
    → AllFound rows ys
AllFound-places rows [] f = tt
AllFound-places rows (y ∷ ys) f = (f 0 y refl, AllFound-places rows ys (λ i at g. f (suc i) at g))
