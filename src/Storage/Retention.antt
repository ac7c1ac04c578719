-- ===== src/Storage/Retention.antt =====
-- How many snapshots are kept, and what a selection resolves to.
use mathlib.Core.Path.{subst}
use supa_diska_klinah.Base.{
  ℕ, suc, ◌≤◌, ◌≡◌, refl, sym, ap, ◌∙◌, Bool, true, false, not, ◌&&◌, List, [], ◌∷◌, ◌++◌, Text,
  Text-discrete, length, any, ◌==◌, if◌then◌else◌, same_sym, ok_or, ◌>>=◌, keep, arith, Bool-cases,
  Result-cases, inl, inr, Result,
}
use supa_diska_klinah.Storage.Types.{
  StorageError, snapshot_unavailable, max_completed_snapshots, valid_storage_id,
}
use supa_diska_klinah.Storage.Requests.{
  PageRequest, StorageSelection, validate_page, validate_selection,
}
use supa_diska_klinah.Storage.Snapshots.{StorageSnapshot, snapshot_page}
use supa_diska_klinah.Storage.Pages.{
  expire, is_fresh, has_id, pop_front, insert, find_entry, touch, answer, page, resolve, resolve_in,
  release, is_selected,
}

-- What a caller does with the kept snapshots.
pub data PagesCall (P : Type 0) : Type 0 where
  insert_call : (snapshot : StorageSnapshot P) (now : ℕ) → PagesCall P
  page_call : (request : PageRequest) (now : ℕ) → PagesCall P
  resolve_call : (selection : StorageSelection) (now : ℕ) → PagesCall P
  release_call : (id : Text) → PagesCall P
  expire_call : (now : ℕ) → PagesCall P

module _ {P : Type 0} where
  unfoldable pub after : PagesCall P → List (ℕ × StorageSnapshot P) → List (ℕ × StorageSnapshot P)
  after (insert_call snapshot now) retained = (insert snapshot now retained).1
  after (page_call request now) retained = (page request now retained).1
  after (resolve_call selection now) retained = (resolve selection now retained).1
  after (release_call id) retained = (release id retained).1
  after (expire_call now) retained = expire now retained

  unfoldable pub after_all :
      List (PagesCall P) → List (ℕ × StorageSnapshot P) → List (ℕ × StorageSnapshot P)
  unfolding after
  after_all [] retained = retained
  after_all (call ∷ calls) retained = after_all calls (after call retained)

  -- No two kept snapshots have the same identifier.
  abbrev pub all_ids_differ : List (ℕ × StorageSnapshot P) → Bool
  all_ids_differ [] = true
  all_ids_differ (entry ∷ entries) = not (any (has_id entry.1.id) entries) && all_ids_differ entries

  abbrev pub IsBounded : List (ℕ × StorageSnapshot P) → Type 0
  IsBounded retained = (length retained ≤ 2) × (all_ids_differ retained ≡ true)

  any-keep :
      (test keeps : ℕ × StorageSnapshot P → Bool) (es : List (ℕ × StorageSnapshot P))
      → any test es ≡ false
      → any test (keep keeps es) ≡ false
  any-keep test keeps [] h = refl
  any-keep test keeps (e ∷ es) h = let ih = any-keep test keeps es in ground (arith, h)

  length-keep :
      (keeps : ℕ × StorageSnapshot P → Bool) (es : List (ℕ × StorageSnapshot P))
      → length (keep keeps es) ≤ length es
  length-keep keeps [] = omega arith
  length-keep keeps (e ∷ es) = let ih = length-keep keeps es in ground arith

  keep-all_ids_differ :
      (keeps : ℕ × StorageSnapshot P → Bool) (es : List (ℕ × StorageSnapshot P))
      → all_ids_differ es ≡ true
      → all_ids_differ (keep keeps es) ≡ true
  keep-all_ids_differ keeps [] h = refl
  keep-all_ids_differ keeps (e ∷ es) h =
      let ih = keep-all_ids_differ keeps es in
      let n = any-keep (has_id e.1.id) keeps es in ground (arith, h)

  keep-IsBounded :
      (keeps : ℕ × StorageSnapshot P → Bool) (es : List (ℕ × StorageSnapshot P))
      → IsBounded es
      → IsBounded (keep keeps es)
  keep-IsBounded keeps es b =
      let l = length-keep keeps es in (omega arith, keep-all_ids_differ keeps es b.1)

  touch-any :
      (test : ℕ × StorageSnapshot P → Bool) (now : ℕ) (id : Text)
      (es : List (ℕ × StorageSnapshot P))
      → any (has_id id) (touch test now es) ≡ any (has_id id) es
  touch-any test now id [] = refl
  touch-any test now id (e ∷ es) = let ih = touch-any test now id es in ground arith

  touch-IsBounded :
      (test : ℕ × StorageSnapshot P → Bool) (now : ℕ) (es : List (ℕ × StorageSnapshot P))
      → (length (touch test now es) ≡ length es)
        × (all_ids_differ (touch test now es) ≡ all_ids_differ es)
  touch-IsBounded test now [] = (refl, refl)
  touch-IsBounded test now (e ∷ es) =
      let ih = touch-IsBounded test now es in let n = touch-any test now e.1.id es in ground arith

  any-snoc :
      (test : ℕ × StorageSnapshot P → Bool) (es : List (ℕ × StorageSnapshot P))
      (entry : ℕ × StorageSnapshot P)
      → any test es ≡ false
      → test entry ≡ false
      → any test (es ++ entry ∷ []) ≡ false
  any-snoc test [] entry n t = ground (arith, t)
  any-snoc test (e ∷ es) entry n t = let ih = any-snoc test es entry in ground (arith, n, t)

  snoc-all_ids_differ :
      (es : List (ℕ × StorageSnapshot P)) (entry : ℕ × StorageSnapshot P)
      → any (has_id entry.1.id) es ≡ false
      → all_ids_differ es ≡ true
      → all_ids_differ (es ++ entry ∷ []) ≡ true
  snoc-all_ids_differ [] entry n h = refl
  snoc-all_ids_differ (e ∷ es) entry n h =
      let ih = snoc-all_ids_differ es entry in
      let swap = same_sym Text-discrete e.1.id entry.1.id in
      let w = any-snoc (has_id e.1.id) es entry in ground (arith, n, h)

  length-snoc :
      (es : List (ℕ × StorageSnapshot P)) (entry : ℕ × StorageSnapshot P)
      → length (es ++ entry ∷ []) ≡ suc (length es)
  length-snoc [] entry = refl
  length-snoc (e ∷ es) entry = ap suc (length-snoc es entry)

  expire-IsBounded :
      (now : ℕ) (es : List (ℕ × StorageSnapshot P)) → IsBounded es → IsBounded (expire now es)
  unfolding expire
  expire-IsBounded now es b = keep-IsBounded (λ entry. is_fresh now entry.0) es b

  room-IsBounded :
      (snapshot : StorageSnapshot P) (now : ℕ) (fresh : List (ℕ × StorageSnapshot P))
      → IsBounded fresh
      → any (has_id snapshot.id) fresh ≡ false
      → IsBounded (
          (if length fresh == max_completed_snapshots then pop_front fresh else fresh)
          ++ (now, snapshot) ∷ [])
  room-IsBounded snapshot now [] b n = ground arith
  room-IsBounded snapshot now (d ∷ fresh) b n =
      let entry : ℕ × StorageSnapshot P = (now, snapshot) in
      let full = length-snoc (d ∷ fresh) entry in
      let room = length-snoc fresh entry in
      let all = snoc-all_ids_differ (d ∷ fresh) entry n in
      let rest = snoc-all_ids_differ fresh entry in
      elim (Bool-cases (suc (length fresh) == max_completed_snapshots)) [
        | inl e ↦ rw e (ground (arith, e, room), rest (no_head n) (ground (arith, b)))
        | inr e ↦ rw e (ground (arith, e, full, b), all b.1)
      ]
    where
      no_head :
          any (has_id snapshot.id) (d ∷ fresh) ≡ false → any (has_id snapshot.id) fresh ≡ false
      no_head h = ground (arith, h)

  insert-IsBounded :
      (snapshot : StorageSnapshot P) (now : ℕ) (es : List (ℕ × StorageSnapshot P))
      → IsBounded es
      → IsBounded (insert snapshot now es).1
  unfolding insert
  insert-IsBounded snapshot now es b =
      let f = expire-IsBounded now es b in
      elim (Bool-cases (any (has_id snapshot.id) (expire now es))) [
        | inl e ↦ rw e f
        | inr e ↦ rw e (room-IsBounded snapshot now (expire now es) f e)
      ]

  touched-IsBounded :
      (test : ℕ × StorageSnapshot P → Bool) (now : ℕ) (es : List (ℕ × StorageSnapshot P))
      → IsBounded es
      → IsBounded (touch test now es)
  touched-IsBounded test now es b =
      let (l, d) = touch-IsBounded test now es in (subst (λ n. n ≤ 2) (sym l) b.0, d ∙ b.1)

  answer-IsBounded :
      {A : Type 0} (test : ℕ × StorageSnapshot P → Bool)
      (f : StorageSnapshot P → Result StorageError A) (now : ℕ) (es : List (ℕ × StorageSnapshot P))
      → IsBounded es
      → IsBounded (answer test f now es).1
  answer-IsBounded test f now es b =
      elim (Result-cases (ok_or (find_entry test es) snapshot_unavailable >>= λ entry. f entry.1)) [
        | inl (e, q) ↦ rw (q, answer) b
        | inr (a, q) ↦ rw (q, answer) (touched-IsBounded test now es b)
      ]

  after-IsBounded :
      (call : PagesCall P) (es : List (ℕ × StorageSnapshot P))
      → IsBounded es
      → IsBounded (after call es)
  unfolding after page resolve release
  after-IsBounded (insert_call snapshot now) es b = insert-IsBounded snapshot now es b
  after-IsBounded (page_call request now) es b = elim (Result-cases (validate_page request)) [
    | inl (e, q) ↦ rw (q, after, page) b
    | inr (u, q) ↦
        rw (q, after, page)
          (answer-IsBounded (has_id request.snapshot_id) (λ s. snapshot_page s request) now
            (expire now es) (expire-IsBounded now es b))
  ]
  after-IsBounded (resolve_call selection now) es b =
      elim (Result-cases (validate_selection selection)) [
        | inl (e, q) ↦ rw (q, after, resolve) b
        | inr (u, q) ↦
            rw (q, after, resolve)
              (answer-IsBounded (is_selected selection) (resolve_in selection) now (expire now es)
                (expire-IsBounded now es b))
      ]
  after-IsBounded (release_call id) es b = elim (Bool-cases (valid_storage_id id)) [
    | inl e ↦ rw (e, after, release) (keep-IsBounded (λ entry. not (has_id id entry)) es b)
    | inr e ↦ rw (e, after, release) b
  ]
  after-IsBounded (expire_call now) es b = expire-IsBounded now es b

  after_all-keeps :
      (calls : List (PagesCall P)) (es : List (ℕ × StorageSnapshot P))
      → IsBounded es
      → IsBounded (after_all calls es)
  unfolding after_all
  after_all-keeps [] es b = b
  after_all-keeps (call ∷ calls) es b =
      after_all-keeps calls (after call es) (after-IsBounded call es b)

  -- Whatever calls are made from the empty state on, at most two snapshots are kept, and no two of
  -- them have the same identifier.
  pub after_all-IsBounded : (calls : List (PagesCall P)) → IsBounded (after_all calls [])
  after_all-IsBounded calls = after_all-keeps calls [] (omega arith, refl)
