-- ===== src/Storage/Pages.antt =====
-- The snapshots that are kept for paging: `SnapshotPages` of crates/cleanup-core/src/storage/paging.rs.
-- Times are nanoseconds of a monotonic clock that the caller reads.
use supa_diska_klinah.Base.{
  ℕ, ◌-◌, Bool, not, ◌&&◌, Option, none, some, List, [], ◌∷◌, ◌++◌, map, Text, Text-discrete, same,
  length, any, keep, leb, ltb, ◌==◌, if◌then◌else◌, Result, ok, err, ◌>>=◌, ok_or,
}
use supa_diska_klinah.Storage.Types.{
  StorageModule-discrete, StorageError, invalid_request, invalid_evidence, snapshot_unavailable,
  max_completed_snapshots, snapshot_idle_nanos, valid_storage_id,
}
use supa_diska_klinah.Storage.Requests.{
  PageRequest, StorageSelection, validate_page, validate_selection,
}
use supa_diska_klinah.Storage.Evidence.{StorageEvidence}
use supa_diska_klinah.Storage.Duplicates.{retain_copy}
use supa_diska_klinah.Storage.Snapshots.{StorageSnapshot, StoragePage, snapshot_page, get_text}

-- `now.checked_sub(access)`, and the age below the limit.
abbrev pub is_fresh : ℕ → ℕ → Bool
is_fresh now access = leb access now && ltb (now - access) snapshot_idle_nanos

module _ {P : Type 0} where
  unfoldable pub expire : ℕ → List (ℕ × StorageSnapshot P) → List (ℕ × StorageSnapshot P)
  expire now = keep (λ entry. is_fresh now entry.0)

  abbrev pub has_id : Text → ℕ × StorageSnapshot P → Bool
  has_id id entry = same Text-discrete entry.1.id id

  abbrev pub pop_front : List (ℕ × StorageSnapshot P) → List (ℕ × StorageSnapshot P)
  pop_front [] = []
  pop_front (_ ∷ rest) = rest

  unfoldable pub insert :
      StorageSnapshot P
      → ℕ
      → List (ℕ × StorageSnapshot P)
      → Result StorageError (Unit {0}) × List (ℕ × StorageSnapshot P)
  unfolding expire
  insert snapshot now retained =
      let fresh = expire now retained in
      if any (has_id snapshot.id) fresh then (err invalid_request, fresh) else (
        ok tt,
        (if length fresh == max_completed_snapshots then pop_front fresh else fresh)
            ++ (now, snapshot) ∷ [],
      )

  abbrev pub find_entry :
      (ℕ × StorageSnapshot P → Bool) → List (ℕ × StorageSnapshot P) → Option (ℕ × StorageSnapshot P)
  find_entry test [] = none
  find_entry test (entry ∷ entries) =
      let rest = find_entry test entries in if test entry then some entry else rest

  -- `*access = now` on the entry that `find` gave.
  abbrev pub touch :
      (ℕ × StorageSnapshot P → Bool)
      → ℕ
      → List (ℕ × StorageSnapshot P)
      → List (ℕ × StorageSnapshot P)
  touch test now [] = []
  touch test now (entry ∷ entries) =
      let rest = touch test now entries in
      if test entry then (now, entry.1) ∷ entries else entry ∷ rest

  -- The entry is found, its answer is computed, and an answer that is not an error touches it.
  abbrev pub answer :
      {A : Type 0}
      → (ℕ × StorageSnapshot P → Bool)
      → (StorageSnapshot P → Result StorageError A)
      → ℕ
      → List (ℕ × StorageSnapshot P)
      → Result StorageError A × List (ℕ × StorageSnapshot P)
  answer test f now fresh =
      let result = ok_or (find_entry test fresh) snapshot_unavailable >>= λ entry. f entry.1 in
      elim result [ ok a ↦ (ok a, touch test now fresh) | err e ↦ (err e, fresh) ]

  unfoldable pub page :
      PageRequest
      → ℕ
      → List (ℕ × StorageSnapshot P)
      → Result StorageError StoragePage × List (ℕ × StorageSnapshot P)
  unfolding expire validate_page snapshot_page
  page request now retained = elim (validate_page request) [
    | err e ↦ (err e, retained)
    | ok _ ↦
        answer (has_id request.snapshot_id) (λ s. snapshot_page s request) now (expire now retained)
  ]

  abbrev pub collect_proofs :
      List (Text × StorageEvidence P) → List Text → Result StorageError (List (StorageEvidence P))
  collect_proofs candidates [] = ok []
  collect_proofs candidates (id ∷ ids) = do
    proof ← ok_or (get_text candidates id) invalid_evidence
    proofs ← collect_proofs candidates ids
    ok (proof ∷ proofs)

  unfoldable pub resolve_in :
      StorageSelection → StorageSnapshot P → Result StorageError (List (StorageEvidence P))
  unfolding retain_copy
  resolve_in selection snapshot = do
    proofs ← collect_proofs snapshot.candidates selection.candidate_ids
    retain_copy proofs (map (λ c. c.1) snapshot.candidates)

  abbrev pub is_selected : StorageSelection → ℕ × StorageSnapshot P → Bool
  is_selected selection entry =
      same Text-discrete entry.1.id selection.snapshot_id
      && same StorageModule-discrete entry.1.storage_module selection.storage_module

  unfoldable pub resolve :
      StorageSelection
      → ℕ
      → List (ℕ × StorageSnapshot P)
      → Result StorageError (List (StorageEvidence P)) × List (ℕ × StorageSnapshot P)
  unfolding expire validate_selection resolve_in
  resolve selection now retained = elim (validate_selection selection) [
    | err e ↦ (err e, retained)
    | ok _ ↦ answer (is_selected selection) (resolve_in selection) now (expire now retained)
  ]

  unfoldable pub release :
      Text
      → List (ℕ × StorageSnapshot P)
      → Result StorageError (Unit {0}) × List (ℕ × StorageSnapshot P)
  unfolding valid_storage_id
  release id retained =
      if not (valid_storage_id id)
      then (err invalid_request, retained)
      else let left = keep (λ entry. not (has_id id entry)) retained in
        (if length retained == length left then err snapshot_unavailable else ok tt, left)
