-- ===== src/Storage/Resolution.antt =====
-- What a selection of candidates resolves to.
use mathlib.Core.Path.{subst}
use supa_diska_klinah.Base.{
  ℕ, ◌+◌, ◌*◌, ◌≤◌, ◌<◌, none, Any, Text, bind_ok, ◌≡◌, refl, sym, ap, ◌∙◌, Bool, true, false, ◌&&◌,
  Option, some, List, [], ◌∷◌, map, Text-discrete, arith, keep, Bool-cases, Option-cases,
  Result-cases, eq_of_same, inl, inr, Result, ok, err, ok_or, ◌>>=◌,
}
use supa_diska_klinah.Storage.Types.{
  StorageModule-discrete, StorageError, snapshot_unavailable, invalid_evidence,
}
use supa_diska_klinah.Storage.Requests.{StorageSelection, validate_selection}
use supa_diska_klinah.Storage.Evidence.{StorageEvidence}
use supa_diska_klinah.Storage.Duplicates.{retain_copy, selected_identities}
use supa_diska_klinah.Storage.Keeping.{AllRebind, all_ok_injective, retain_copy-IsKept}
use supa_diska_klinah.Storage.Snapshots.{StorageSnapshot, get_text}
use supa_diska_klinah.Storage.Pages.{
  expire, is_fresh, find_entry, answer, collect_proofs, resolve, resolve_in, is_selected,
}

fresh_bounds :
    (now access : ℕ)
    → is_fresh now access ≡ true
    → (access ≤ now) × (now < access + 600 * 1000000000)
fresh_bounds now access h = ground (arith, h)

module _ {P : Type 0} where
  -- Each proof is what the candidates hold for the identifier at its place.
  abbrev HoldsEach : List (Text × StorageEvidence P) → List Text → List (StorageEvidence P) → Type 0
  HoldsEach candidates [] [] = Unit
  HoldsEach candidates (id ∷ ids) (proof ∷ proofs) =
      (get_text candidates id ≡ some proof) × HoldsEach candidates ids proofs
  HoldsEach candidates _ _ = ⊥

  -- The entry has the identifier and the module that are selected, its last access is less than 600
  -- seconds before, and the evidence it holds for the selected candidates is what is resolved, up to
  -- the copies to keep.
  abbrev pub Resolves :
      StorageSelection → ℕ → List (StorageEvidence P) → ℕ × StorageSnapshot P → Type 0
  Resolves selection now proofs (access, snapshot) =
      ((snapshot.id ≡ selection.snapshot_id) × (snapshot.storage_module ≡ selection.storage_module))
      × (((access ≤ now) × (now < access + 600 * 1000000000))
          × ((collected : List (StorageEvidence P)) × (HoldsEach snapshot.candidates
                  selection.candidate_ids collected
                × AllRebind (selected_identities collected) collected proofs)))

  -- The test and the age hold for the entry.
  abbrev IsFound : (ℕ × StorageSnapshot P → Bool) → ℕ → ℕ × StorageSnapshot P → Type 0
  IsFound test now entry = (test entry ≡ true) × (is_fresh now entry.0 ≡ true)

  abbrev find_fresh :
      (ℕ × StorageSnapshot P → Bool)
      → ℕ
      → List (ℕ × StorageSnapshot P)
      → Option (ℕ × StorageSnapshot P)
  find_fresh test now es = find_entry test (keep (λ entry. is_fresh now entry.0) es)

  some_entry :
      {d e : ℕ × StorageSnapshot P}
      → Path (Option (ℕ × StorageSnapshot P)) (some d) (some e)
      → d ≡ e
  some_entry h = ground (arith, h)

  -- What is found is one of the entries.
  find_fresh-Any :
      (test : ℕ × StorageSnapshot P → Bool) (now : ℕ) (Q : ℕ × StorageSnapshot P → Type 0)
      (es : List (ℕ × StorageSnapshot P)) (entry : ℕ × StorageSnapshot P)
      → find_fresh test now es ≡ some entry
      → (IsFound test now entry → Q entry)
      → Any Q es
  find_fresh-Any test now Q [] entry h k = absurd (ground (arith, h))
  find_fresh-Any test now Q (e ∷ es) entry h k = elim (Bool-cases (is_fresh now e.0)) [
    | inr f ↦ inr (find_fresh-Any test now Q es entry (skipped f h) k)
    | inl f ↦ elim (Bool-cases (test e)) [
      | inl t ↦
          let e_is = some_entry (found f t h) in
          inl (subst Q (sym e_is) (k (subst (IsFound test now) e_is (t, f))))
      | inr t ↦ inr (find_fresh-Any test now Q es entry (next f t h) k)
    ]
  ]
    where
      skipped :
          is_fresh now e.0 ≡ false
          → find_fresh test now (e ∷ es) ≡ some entry
          → find_fresh test now es ≡ some entry
      skipped f h = sym (rw f refl) ∙ h

      found :
          is_fresh now e.0 ≡ true
          → test e ≡ true
          → find_fresh test now (e ∷ es) ≡ some entry
          → Path (Option (ℕ × StorageSnapshot P)) (some e) (some entry)
      found f t h = sym (rw (f, t) refl) ∙ h

      next :
          is_fresh now e.0 ≡ true
          → test e ≡ false
          → find_fresh test now (e ∷ es) ≡ some entry
          → find_fresh test now es ≡ some entry
      next f t h = sym (rw (f, t) refl) ∙ h

  collect_proofs-HoldsEach :
      (candidates : List (Text × StorageEvidence P)) (ids : List Text)
      (proofs : List (StorageEvidence P))
      → collect_proofs candidates ids ≡ ok proofs
      → HoldsEach candidates ids proofs
  collect_proofs-HoldsEach candidates [] [] h = tt
  collect_proofs-HoldsEach candidates [] (p ∷ ps) h = ground (arith, h)
  collect_proofs-HoldsEach candidates (id ∷ ids) proofs h =
      let (p, (found, later)) =
        bind_ok (ok_or (get_text candidates id) invalid_evidence)
          (λ p. collect_proofs candidates ids >>= λ ps. ok (p ∷ ps)) proofs h in
      let (ps, (rest, made)) =
        bind_ok (collect_proofs candidates ids) (λ ps. ok (p ∷ ps)) proofs later in
      subst (HoldsEach candidates (id ∷ ids)) (all_ok_injective made) (
        some_of_ok (get_text candidates id) p found,
        collect_proofs-HoldsEach candidates ids ps rest,
      )
    where
      some_of_ok :
          (o : Option (StorageEvidence P)) (p : StorageEvidence P)
          → ok_or o invalid_evidence ≡ ok p
          → o ≡ some p
      some_of_ok none p q = ground (arith, q)
      some_of_ok (some x) p q = ground (arith, q)

  resolve_in-kept :
      (selection : StorageSelection) (snapshot : StorageSnapshot P)
      (proofs : List (StorageEvidence P))
      → resolve_in selection snapshot ≡ ok proofs
      → (collected : List (StorageEvidence P)) × (HoldsEach snapshot.candidates
            selection.candidate_ids collected
          × AllRebind (selected_identities collected) collected proofs)
  unfolding resolve_in
  resolve_in-kept selection snapshot proofs h =
      let all = map (λ c. c.1) snapshot.candidates in
      let (collected, (q, kept)) =
        bind_ok (collect_proofs snapshot.candidates selection.candidate_ids)
          (λ proofs. retain_copy proofs all) proofs h in
      (
        collected,
        (
          collect_proofs-HoldsEach snapshot.candidates selection.candidate_ids collected q,
          retain_copy-IsKept collected all proofs kept,
        ),
      )

  answer_result :
      {A : Type 0} (test : ℕ × StorageSnapshot P → Bool)
      (f : StorageSnapshot P → Result StorageError A) (now : ℕ) (es : List (ℕ × StorageSnapshot P))
      → (answer test f now es).0
        ≡ (ok_or (find_entry test es) snapshot_unavailable >>= λ entry. f entry.1)
  answer_result test f now es =
      elim (Result-cases (ok_or (find_entry test es) snapshot_unavailable >>= λ entry. f entry.1)) [
        | inl (e, q) ↦ rw (q, answer) refl
        | inr (a, q) ↦ rw (q, answer) refl
      ]

  answer_ok :
      {A : Type 0} (test : ℕ × StorageSnapshot P → Bool)
      (f : StorageSnapshot P → Result StorageError A) (now : ℕ) (es : List (ℕ × StorageSnapshot P))
      (a : A)
      → (answer test f now es).0 ≡ ok a
      → (entry : ℕ × StorageSnapshot P) × ((find_entry test es ≡ some entry) × (f entry.1 ≡ ok a))
  answer_ok test f now es a h =
      let r = sym (answer_result test f now es) ∙ h in
      elim (Option-cases (find_entry test es)) [
        | inl n ↦ ground (arith, r, n)
        | inr (entry, q) ↦
            (entry, (q, sym (ap (λ o. ok_or o snapshot_unavailable >>= λ x. f x.1) q) ∙ r))
      ]

  ids_match :
      (selection : StorageSelection) (entry : ℕ × StorageSnapshot P)
      → is_selected selection entry ≡ true
      → (entry.1.id ≡ selection.snapshot_id) × (entry.1.storage_module ≡ selection.storage_module)
  ids_match selection entry t =
      let i = eq_of_same Text-discrete entry.1.id selection.snapshot_id in
      let m = eq_of_same StorageModule-discrete entry.1.storage_module selection.storage_module in
      let both = and_true t in (i both.0, m both.1)
    where
      and_true : {a b : Bool} → (a && b) ≡ true → (a ≡ true) × (b ≡ true)
      and_true {a} {b} h = ground arith

  resolve_refused :
      (selection : StorageSelection) (now : ℕ) (retained : List (ℕ × StorageSnapshot P))
      (e : StorageError)
      → validate_selection selection ≡ err e
      → (resolve selection now retained).0 ≡ err e
  unfolding resolve
  resolve_refused selection now retained e q = rw (q, resolve) refl

  resolve_accepted :
      (selection : StorageSelection) (now : ℕ) (retained : List (ℕ × StorageSnapshot P))
      → validate_selection selection ≡ ok tt
      → (resolve selection now retained).0
        ≡ (answer (is_selected selection) (resolve_in selection) now (expire now retained)).0
  unfolding resolve expire
  resolve_accepted selection now retained q = rw (q, resolve) refl

  -- If a selection resolves to evidence, then one of the snapshots that are kept was accessed less
  -- than 600 seconds before, has the selected identifier and module and holds evidence for each of
  -- the selected candidates, and the result has the entries and roots of this evidence in its
  -- order, each duplicate with a copy to keep that is not selected.
  pub resolve_lem :
      (selection : StorageSelection) (now : ℕ) (retained : List (ℕ × StorageSnapshot P))
      (proofs : List (StorageEvidence P))
      → (resolve selection now retained).0 ≡ ok proofs
      → Any (Resolves selection now proofs) retained
  unfolding resolve expire
  resolve_lem selection now retained proofs h = elim (Result-cases (validate_selection selection)) [
    | inl (e, q) ↦
        let r = resolve_refused selection now retained e q in absurd (ground (arith, r, h))
    | inr (_, q) ↦
        let (entry, (found, kept)) =
          answer_ok (is_selected selection) (resolve_in selection) now (expire now retained) proofs
            (sym (resolve_accepted selection now retained q) ∙ h) in
        find_fresh-Any (is_selected selection) now (Resolves selection now proofs) retained entry
          found
          λ (t, f). (
            ids_match selection entry t,
            (fresh_bounds now entry.0 f, resolve_in-kept selection entry.1 proofs kept),
          )
  ]
