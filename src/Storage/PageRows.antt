-- ===== src/Storage/PageRows.antt =====
-- Lists that grow at their end, and the pages after a row is added.
use mathlib.Core.Path.{subst, ap₂}
use supa_diska_klinah.Base.{
  ℕ, zero, suc, ◌≡◌, ◌⊎◌, refl, sym, ap, Bool, true, false, ◌&&◌, some, List, [], ◌∷◌, ◌++◌,
  same_of_eq, eq_of_same, length, get_elem?, arith, Bool-cases, inl, inr,
}
use supa_diska_klinah.Storage.Requests.{PageCollection-discrete}
use supa_diska_klinah.Storage.Snapshots.{PageKey, same_key, OptionText-discrete, page_rows}
use supa_diska_klinah.Storage.Builder.{push_page}

pub get_elem?-snoc_old :
    {A : Type 0} (xs : List A) (a b : A) (i : ℕ)
    → get_elem? xs i ≡ some b
    → get_elem? (xs ++ a ∷ []) i ≡ some b
get_elem?-snoc_old [] a b i h = ground (arith, h)
get_elem?-snoc_old (x ∷ xs) a b zero h = h
get_elem?-snoc_old (x ∷ xs) a b (suc i) h = get_elem?-snoc_old xs a b i h

pub get_elem?-snoc_new :
    {A : Type 0} (xs : List A) (a : A) → get_elem? (xs ++ a ∷ []) (length xs) ≡ some a
get_elem?-snoc_new [] a = refl
get_elem?-snoc_new (x ∷ xs) a = get_elem?-snoc_new xs a

-- an element of a longer list is an old one or the new one
pub get_elem?-snoc :
    (xs : List ℕ) (a b i : ℕ)
    → get_elem? (xs ++ a ∷ []) i ≡ some b
    → (get_elem? xs i ≡ some b) ⊎ ((i ≡ length xs) × (a ≡ b))
get_elem?-snoc [] a b zero h = inr (refl, ground (arith, h))
get_elem?-snoc [] a b (suc i) h = ground (arith, h)
get_elem?-snoc (x ∷ xs) a b zero h = inl h
get_elem?-snoc (x ∷ xs) a b (suc i) h = elim (get_elem?-snoc xs a b i h) [
  | inl e ↦ inl e
  | inr (e, f) ↦ inr (ap suc e, f)
]

pub same_key_eq : (k l : PageKey) → same_key k l ≡ true → k ≡ l
same_key_eq k l h =
    let c = eq_of_same PageCollection-discrete k.0 l.0 in
    let o = eq_of_same OptionText-discrete k.1 l.1 in
    let (a, b) = both h in ap₂ (λ x y. (x, y)) (c a) (o b)
  where
    both : {a b : Bool} → (a && b) ≡ true → (a ≡ true) × (b ≡ true)
    both {a} {b} h = ground arith

pub same_key_refl : (k : PageKey) → same_key k k ≡ true
same_key_refl k =
    let c = same_of_eq PageCollection-discrete k.0 k.0 refl in
    let o = same_of_eq OptionText-discrete k.1 k.1 refl in ground arith

pub page_rows-push_page_same :
    (pages : List (PageKey × List ℕ)) (key : PageKey) (index : ℕ)
    → page_rows (push_page pages key index) key ≡ page_rows pages key ++ index ∷ []
page_rows-push_page_same [] key index = let r = same_key_refl key in ground arith
page_rows-push_page_same ((other, indices) ∷ pages) key index =
    let ih = page_rows-push_page_same pages key index in ground arith

pub page_rows-push_page_other :
    (pages : List (PageKey × List ℕ)) (key wanted : PageKey) (index : ℕ)
    → same_key key wanted ≡ false
    → page_rows (push_page pages key index) wanted ≡ page_rows pages wanted
page_rows-push_page_other [] key wanted index h = ground (arith, h)
page_rows-push_page_other ((other, indices) ∷ pages) key wanted index h =
    let ih = page_rows-push_page_other pages key wanted index h in
    elim (Bool-cases (same_key other key)) [
      | inl e ↦
          let w = subst (λ k. same_key k wanted ≡ false) (sym (same_key_eq other key e)) h in
          rw (e, w) refl
      | inr e ↦ rw (e, ih) refl
    ]
