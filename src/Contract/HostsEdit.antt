-- ===== src/Contract/HostsEdit.antt =====
-- What a validated hosts edit is.
use supa_diska_klinah.Base.{
  ℕ, ◌≡◌, refl, ◌≢◌, ◌<◌, ◌≤◌, false, List, [], ◌∷◌, ok, arith, ◌↔◌, length, All,
}
use supa_diska_klinah.Contract.Types.{HostsLineOp}
use supa_diska_klinah.Contract.Changes.{
  op_lines, validate_hosts, insert_sorted, sort_unstable, any_adjacent_equal, max_hosts_line_ops,
}

-- No number twice.
abbrev pub AllDistinct : List ℕ → Type 0
AllDistinct [] = Unit
AllDistinct (x ∷ xs) = All (λ y. x ≢ y) xs × AllDistinct xs

abbrev Ascending : List ℕ → Type 0
Ascending [] = Unit
Ascending (x ∷ xs) = All (λ y. x ≤ y) xs × Ascending xs

All-le_trans : (x y : ℕ) (ys : List ℕ) → x ≤ y → All (λ z. y ≤ z) ys → All (λ z. x ≤ z) ys
All-le_trans x y [] h a = tt
All-le_trans x y (z ∷ zs) h a = (omega arith, All-le_trans x y zs h a.1)

-- a property of the new number and of the old ones
All-insert_sorted :
    (P : ℕ → Type 0) (x : ℕ) (ys : List ℕ) → P x → All P ys → All P (insert_sorted x ys)
unfolding insert_sorted
All-insert_sorted P x [] p a = (p, tt)
All-insert_sorted P x (y ∷ ys) p a = ground (arith, All-insert_sorted P x ys p a.1)

All-insert_sorted_inv :
    (P : ℕ → Type 0) (x : ℕ) (ys : List ℕ) → All P (insert_sorted x ys) → P x × All P ys
unfolding insert_sorted
All-insert_sorted_inv P x [] a = (a.0, tt)
All-insert_sorted_inv P x (y ∷ ys) a = ground (arith, All-insert_sorted_inv P x ys)

Ascending-insert_sorted : (x : ℕ) (ys : List ℕ) → Ascending ys → Ascending (insert_sorted x ys)
unfolding insert_sorted
Ascending-insert_sorted x [] a = (tt, tt)
Ascending-insert_sorted x (y ∷ ys) a = ground (
  arith,
  Ascending-insert_sorted x ys a.1,
  All-insert_sorted (λ z. y ≤ z) x ys,
  All-le_trans x y ys,
)

sort_unstable-Ascending : (xs : List ℕ) → Ascending (sort_unstable xs)
unfolding sort_unstable
sort_unstable-Ascending [] = tt
sort_unstable-Ascending (x ∷ xs) =
    Ascending-insert_sorted x (sort_unstable xs) (sort_unstable-Ascending xs)

≢-sym : (x y : ℕ) → x ≢ y → y ≢ x
≢-sym x y h = omega arith

distinct-insert_sorted :
    (x : ℕ) (ys : List ℕ) → All (λ y. x ≢ y) ys → AllDistinct ys → AllDistinct (insert_sorted x ys)
unfolding insert_sorted
distinct-insert_sorted x [] a d = (tt, tt)
distinct-insert_sorted x (y ∷ ys) a d = ground (
  arith,
  distinct-insert_sorted x ys a.1 d.1,
  All-insert_sorted (λ z. y ≢ z) x ys (≢-sym x y a.0) d.0,
)

distinct-insert_sorted_inv :
    (x : ℕ) (ys : List ℕ) → AllDistinct (insert_sorted x ys) → All (λ y. x ≢ y) ys × AllDistinct ys
unfolding insert_sorted
distinct-insert_sorted_inv x [] d = (tt, tt)
distinct-insert_sorted_inv x (y ∷ ys) d =
    ground (arith, distinct-insert_sorted_inv x ys, All-insert_sorted_inv (λ z. y ≢ z) x ys)

distinct-sort : (xs : List ℕ) → AllDistinct xs → AllDistinct (sort_unstable xs)
unfolding sort_unstable
distinct-sort [] d = tt
distinct-sort (x ∷ xs) d =
    distinct-insert_sorted x (sort_unstable xs) (All-sort xs d.0) (distinct-sort xs d.1)
  where
    All-sort : (ys : List ℕ) → All (λ y. x ≢ y) ys → All (λ y. x ≢ y) (sort_unstable ys)
    All-sort [] a = tt
    All-sort (y ∷ ys) a = All-insert_sorted (λ z. x ≢ z) y (sort_unstable ys) a.0 (All-sort ys a.1)

distinct-sort_inv : (xs : List ℕ) → AllDistinct (sort_unstable xs) → AllDistinct xs
unfolding sort_unstable
distinct-sort_inv [] d = tt
distinct-sort_inv (x ∷ xs) d =
    let (a, rest) = distinct-insert_sorted_inv x (sort_unstable xs) d in
    (All-unsort xs a, distinct-sort_inv xs rest)
  where
    All-unsort : (ys : List ℕ) → All (λ y. x ≢ y) (sort_unstable ys) → All (λ y. x ≢ y) ys
    All-unsort [] a = tt
    All-unsort (y ∷ ys) a =
        let (p, rest) = All-insert_sorted_inv (λ z. x ≢ z) y (sort_unstable ys) a in
        (p, All-unsort ys rest)

All-ne_of_lt : (x y : ℕ) (ys : List ℕ) → x < y → All (λ z. y ≤ z) ys → All (λ z. x ≢ z) ys
All-ne_of_lt x y [] h a = tt
All-ne_of_lt x y (z ∷ zs) h a = (omega arith, All-ne_of_lt x y zs h a.1)

adjacent_distinct : (xs : List ℕ) → Ascending xs → any_adjacent_equal xs ≡ false → AllDistinct xs
unfolding any_adjacent_equal
adjacent_distinct [] a h = tt
adjacent_distinct (x ∷ []) a h = (tt, tt)
adjacent_distinct (x ∷ y ∷ ys) a h =
    ground (arith, adjacent_distinct (y ∷ ys) a.1, All-ne_of_lt x y ys)

distinct_adjacent : (xs : List ℕ) → AllDistinct xs → any_adjacent_equal xs ≡ false
unfolding any_adjacent_equal
distinct_adjacent [] d = refl
distinct_adjacent (x ∷ []) d = refl
distinct_adjacent (x ∷ y ∷ ys) d = ground (arith, distinct_adjacent (y ∷ ys) d.1)

-- A hosts edit is valid exactly if it has between 1 and 64 operations and no two of them name the
-- same line; the sort and the comparison of neighbours find every repeated line.
pub hosts_edit_accepted :
    (ops : List HostsLineOp)
    → (validate_hosts ops ≡ ok tt)
      ↔ ((0 < length ops) × (length ops ≤ max_hosts_line_ops) × AllDistinct (op_lines ops))
unfolding validate_hosts
hosts_edit_accepted [] = ground arith
hosts_edit_accepted (op ∷ ops) =
    let lines = op_lines (op ∷ ops) in
    ground (
      arith,
      adjacent_distinct (sort_unstable lines) (sort_unstable-Ascending lines),
      distinct-sort_inv lines,
      distinct-sort lines,
      distinct_adjacent (sort_unstable lines),
    )
