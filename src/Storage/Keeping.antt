-- ===== src/Storage/Keeping.antt =====
-- The copy that stays when duplicates are removed.
use mathlib.Core.Path.{subst}
use supa_diska_klinah.Base.{
  ◌≡◌, refl, sym, ap, ◌∙◌, ◌>>=◌, inl, inr, Bool, true, false, none, some, List, [], ◌∷◌, ok, arith,
  Option-cases, Result-cases, Bool-cases, Result,
}
use supa_diska_klinah.Storage.Types.{StorageError}
use supa_diska_klinah.Storage.Paths.{FileIdentity}
use supa_diska_klinah.Storage.Evidence.{
  RootAuthorization, ObservedEntry, KeeperEvidence, StorageEvidence, duplicate_member,
  catalog_target, user_selected_file, empty_folder, browser_cache, confirmed_application_leftover,
  root_of, entry_of,
}
use supa_diska_klinah.Storage.Duplicates.{
  contains_identity, selected_identities, can_keep, find_first, keep_one, rebound, retain_one,
  retain_all, retain_copy,
}

module _ {P : Type 0} where
  -- What is kept of a duplicate is not in the selection; other evidence keeps no copy.
  abbrev pub IsKept : List FileIdentity → StorageEvidence P → Type 0
  IsKept selected (duplicate_member _ _ keeper) =
      contains_identity keeper.keeper.identity selected ≡ false
  IsKept selected _ = Unit

  found_here :
      (test : StorageEvidence P → Bool) (d : StorageEvidence P) (es : List (StorageEvidence P))
      (e : StorageEvidence P)
      → test d ≡ true
      → find_first test (d ∷ es) ≡ some e
      → d ≡ e
  found_here test d es e t h = ground (arith, t, h)

  found_later :
      (test : StorageEvidence P → Bool) (d : StorageEvidence P) (es : List (StorageEvidence P))
      (e : StorageEvidence P)
      → test d ≡ false
      → find_first test (d ∷ es) ≡ some e
      → find_first test es ≡ some e
  found_later test d es e t h = ground (arith, t, h)

  find_first_test :
      (test : StorageEvidence P → Bool) (es : List (StorageEvidence P)) (e : StorageEvidence P)
      → find_first test es ≡ some e
      → test e ≡ true
  find_first_test test [] e h = ground (arith, h)
  find_first_test test (d ∷ es) e h = elim (Bool-cases (test d)) [
    | inl t ↦ subst (λ x. test x ≡ true) (found_here test d es e t h) t
    | inr f ↦ let ih = find_first_test test es e in ih (found_later test d es e f h)
  ]

  can_keep_entry :
      (selected : List FileIdentity) (keeper : KeeperEvidence P) (e : StorageEvidence P)
      → can_keep selected keeper e ≡ true
      → contains_identity (entry_of e).identity selected ≡ false
  unfolding entry_of
  can_keep_entry selected keeper (duplicate_member root entry other) h = ground (arith, h)
  can_keep_entry selected keeper e h = ground (arith, h)

  -- The copy that is kept is not selected, and the selected entry is the one it was.
  abbrev pub Rebinds : List FileIdentity → StorageEvidence P → StorageEvidence P → Type 0
  Rebinds selected e kept =
      IsKept selected kept × ((entry_of kept ≡ entry_of e) × (root_of kept ≡ root_of e))

  ok_injective :
      {d e : StorageEvidence P}
      → Path (Result StorageError (StorageEvidence P)) (ok d) (ok e)
      → d ≡ e
  ok_injective h = ground (arith, h)

  retain_one-IsKept :
      (selected : List FileIdentity) (available : List (StorageEvidence P))
      (e kept : StorageEvidence P)
      → retain_one selected available e ≡ ok kept
      → Rebinds selected e kept
  unfolding retain_one keep_one rebound entry_of root_of
  retain_one-IsKept selected available (duplicate_member root entry keeper) kept h =
      let G = Rebinds selected (duplicate_member root entry keeper) in
      elim (Option-cases (find_first (can_keep selected keeper) available)) [
        | inl n ↦ elim (Bool-cases (contains_identity keeper.keeper.identity selected)) [
          | inl c ↦ ground (arith, h, n, c)
          | inr c ↦ subst G (kept_same root entry keeper n c h) (c, (refl, refl))
        ]
        | inr (found, f) ↦
            let t = find_first_test (can_keep selected keeper) available found f in
            let k = can_keep_entry selected keeper found t in
            subst G (kept_found root entry keeper found f h) (k, (refl, refl))
      ]
    where
      kept_same :
          (root : RootAuthorization P) (entry : ObservedEntry P) (keeper : KeeperEvidence P)
          → find_first (can_keep selected keeper) available ≡ none
          → contains_identity keeper.keeper.identity selected ≡ false
          → retain_one selected available (duplicate_member root entry keeper) ≡ ok kept
          → duplicate_member root entry keeper ≡ kept
      kept_same root entry keeper n c h = ground (arith, h, n, c)

      kept_found :
          (root : RootAuthorization P) (entry : ObservedEntry P) (keeper : KeeperEvidence P)
          (found : StorageEvidence P)
          → find_first (can_keep selected keeper) available ≡ some found
          → retain_one selected available (duplicate_member root entry keeper) ≡ ok kept
          → duplicate_member root entry (rebound keeper found) ≡ kept
      kept_found root entry keeper found f h = ok_injective (
          sym (ap (λ o. keep_one selected keeper o >>= λ k. ok (duplicate_member root entry k)) f)
          ∙ h)
  retain_one-IsKept selected available (catalog_target root entry catalog) kept h =
      subst (Rebinds selected (catalog_target root entry catalog)) (ok_injective h)
        (tt, (refl, refl))
  retain_one-IsKept selected available (user_selected_file root entry) kept h =
      subst (Rebinds selected (user_selected_file root entry)) (ok_injective h) (tt, (refl, refl))
  retain_one-IsKept selected available (empty_folder root entry complete count) kept h =
      subst (Rebinds selected (empty_folder root entry complete count)) (ok_injective h)
        (tt, (refl, refl))
  retain_one-IsKept selected available (browser_cache root entry a b c d e f g i) kept h =
      subst (Rebinds selected (browser_cache root entry a b c d e f g i)) (ok_injective h)
        (tt, (refl, refl))
  retain_one-IsKept selected available (confirmed_application_leftover root entry a b c d e f) kept
        h =
      subst (Rebinds selected (confirmed_application_leftover root entry a b c d e f))
        (ok_injective h) (tt, (refl, refl))

  -- Each element of the one list and the element of the other at its place.
  abbrev pub AllRebind :
      List FileIdentity → List (StorageEvidence P) → List (StorageEvidence P) → Type 0
  AllRebind selected [] [] = Unit
  AllRebind selected (e ∷ es) (kept ∷ rest) = Rebinds selected e kept × AllRebind selected es rest
  AllRebind selected _ _ = ⊥

  pub all_ok_injective :
      {ds es : List (StorageEvidence P)}
      → Path (Result StorageError (List (StorageEvidence P))) (ok ds) (ok es)
      → ds ≡ es
  all_ok_injective h = ground (arith, h)

  retain_all-AllRebind :
      (selected : List FileIdentity) (available es kept : List (StorageEvidence P))
      → retain_all selected available es ≡ ok kept
      → AllRebind selected es kept
  unfolding retain_all
  retain_all-AllRebind selected available [] kept h =
      subst (AllRebind selected []) (all_ok_injective h) tt
  retain_all-AllRebind selected available (e ∷ es) kept h =
      elim (Result-cases (retain_one selected available e)) [
        | inl (x, q) ↦ ground (arith, h, q)
        | inr (one, q) ↦ elim (Result-cases (retain_all selected available es)) [
          | inl (x, r) ↦ ground (arith, h, q, r)
          | inr (rest, r) ↦
              let a = retain_one-IsKept selected available e one q in
              let b = retain_all-AllRebind selected available es rest r in
              subst (AllRebind selected (e ∷ es)) (kept_all one rest kept q r h) (a, b)
        ]
      ]
    where
      kept_all :
          (one : StorageEvidence P) (rest kept : List (StorageEvidence P))
          → retain_one selected available e ≡ ok one
          → retain_all selected available es ≡ ok rest
          → retain_all selected available (e ∷ es) ≡ ok kept
          → one ∷ rest ≡ kept
      kept_all one rest kept q r h = ground (arith, q, r, h)

  -- If retain_copy succeeds, then no copy that is kept for a duplicate is itself selected, and the
  -- selection has the same entries under the same roots as before.
  pub retain_copy-IsKept :
      (selected available kept : List (StorageEvidence P))
      → retain_copy selected available ≡ ok kept
      → AllRebind (selected_identities selected) selected kept
  unfolding retain_copy
  retain_copy-IsKept selected available kept h =
      retain_all-AllRebind (selected_identities selected) available selected kept h
