-- ===== src/Storage/Duplicates.antt =====
-- Duplicate groups and the copy that a selection keeps, in crates/cleanup-core/src/storage/duplicates.rs.
use Prim.Native.Nat.{compare, Ordering, lt, eq, gt}
use supa_diska_klinah.Base.{
  ℕ, ◌-◌, ◌*◌, ◌^◌, min, Bool, true, false, not, ◌&&◌, Option, none, some, List, [], ◌∷◌, ◌++◌, map,
  Text-discrete, same, length, any, keep, ltb, if◌then◌else◌, Result, ok, err, ◌>>=◌,
}
use supa_diska_klinah.Storage.Paths.{FileIdentity}
use supa_diska_klinah.Storage.Types.{StorageError, invalid_evidence}
use supa_diska_klinah.Storage.Records.{FileRecord}
use supa_diska_klinah.Storage.Evidence.{
  ObservedEntry, KeeperEvidence, StorageEvidence, duplicate_member, root_of, entry_of,
  same_identity,
}

abbrev pub contains_identity : FileIdentity → List FileIdentity → Bool
contains_identity identity identities = any (λ other. same_identity other identity) identities

-- `HashSet` collected from the selection.
unfoldable pub selected_identities : {P : Type 0} → List (StorageEvidence P) → List FileIdentity
unfolding entry_of
selected_identities = map (λ e. (entry_of e).identity)

module _ {P : Type 0} where
  -- The test of `find`.
  abbrev pub can_keep : List FileIdentity → KeeperEvidence P → StorageEvidence P → Bool
  can_keep selected keeper (duplicate_member _ entry other) =
      same Text-discrete other.group_id keeper.group_id
      && same Text-discrete other.full_sha256 keeper.full_sha256
      && not (contains_identity entry.identity selected)
  can_keep selected keeper _ = false

  abbrev pub find_first :
      (StorageEvidence P → Bool) → List (StorageEvidence P) → Option (StorageEvidence P)
  find_first test [] = none
  find_first test (e ∷ es) = let rest = find_first test es in if test e then some e else rest

  unfoldable pub rebound : KeeperEvidence P → StorageEvidence P → KeeperEvidence P
  unfolding root_of entry_of
  rebound keeper replacement = record keeper {
    keeper = entry_of replacement;
    keeper_root = root_of replacement;
  }

  -- The body of the loop for a duplicate member.
  unfoldable pub keep_one :
      List FileIdentity
      → KeeperEvidence P
      → Option (StorageEvidence P)
      → Result StorageError (KeeperEvidence P)
  unfolding rebound
  keep_one selected keeper (some replacement) = ok (rebound keeper replacement)
  keep_one selected keeper none =
      if contains_identity keeper.keeper.identity selected then err invalid_evidence else ok keeper

  unfoldable pub retain_one :
      List FileIdentity
      → List (StorageEvidence P)
      → StorageEvidence P
      → Result StorageError (StorageEvidence P)
  unfolding keep_one
  retain_one selected available (duplicate_member root entry keeper) =
      keep_one selected keeper (find_first (can_keep selected keeper) available) >>= λ kept.
      ok (duplicate_member root entry kept)
  retain_one selected available evidence = ok evidence

  unfoldable pub retain_all :
      List FileIdentity
      → List (StorageEvidence P)
      → List (StorageEvidence P)
      → Result StorageError (List (StorageEvidence P))
  unfolding retain_one
  retain_all selected available [] = ok []
  retain_all selected available (e ∷ es) = do
    kept ← retain_one selected available e
    rest ← retain_all selected available es
    ok (kept ∷ rest)

  -- `retain_copy`, with the changed selection as its result.
  unfoldable pub retain_copy :
      List (StorageEvidence P)
      → List (StorageEvidence P)
      → Result StorageError (List (StorageEvidence P))
  unfolding selected_identities retain_all
  retain_copy selected available = retain_all (selected_identities selected) available selected

abbrev pub compare_digest : List ℕ → List ℕ → Ordering
compare_digest [] [] = eq
compare_digest [] (_ ∷ _) = lt
compare_digest (_ ∷ _) [] = gt
compare_digest (b ∷ bs) (c ∷ cs) = elim (compare b c) [
  | lt ↦ lt
  | eq ↦ compare_digest bs cs
  | gt ↦ gt
]

-- `BTreeMap<K, Vec<V>>` as its sorted entries: `entry(k).or_default().push(v)`.
unfoldable pub insert_file :
    {K V : Type 0} → (K → K → Ordering) → K → V → List (K × List V) → List (K × List V)
insert_file cmp k v [] = (k, v ∷ []) ∷ []
insert_file cmp k v ((l, vs) ∷ groups) =
    let rest = insert_file cmp k v groups in
    elim (cmp k l) [
      | lt ↦ (k, v ∷ []) ∷ (l, vs) ∷ groups
      | eq ↦ (l, vs ++ v ∷ []) ∷ groups
      | gt ↦ (l, vs) ∷ rest
    ]

abbrev several : {K V : Type 0} → List (K × List V) → List (K × List V)
several = keep (λ g. ltb 1 (length g.1))

abbrev pub Copy : Type 0 → Type 0
Copy P = FileRecord × ObservedEntry P

module _ {P : Type 0} where
  unfoldable pub group_sizes :
      List FileIdentity → List (ℕ × List (Copy P)) → List (Copy P) → List (ℕ × List (Copy P))
  unfolding insert_file
  group_sizes identities sizes [] = sizes
  group_sizes identities sizes (file ∷ files) =
      let grown =
        group_sizes (file.1.identity ∷ identities)
          (insert_file compare file.1.logical_bytes file sizes) files in
      let skipped = group_sizes identities sizes files in
      if contains_identity file.1.identity identities then skipped else grown

  unfoldable pub size_groups : List (Copy P) → List (List (Copy P))
  unfolding group_sizes
  size_groups files = map (λ g. g.1) (several (group_sizes [] [] files))

  unfoldable pub group_digests :
      List (List ℕ × List (Copy P)) → List (Copy P × List ℕ) → List (List ℕ × List (Copy P))
  unfolding insert_file
  group_digests groups [] = groups
  group_digests groups ((file, hash) ∷ files) =
      group_digests (insert_file compare_digest hash file groups) files

  unfoldable pub digest_groups : List (Copy P × List ℕ) → List (List ℕ × List (Copy P))
  unfolding group_digests
  digest_groups files = several (group_digests [] files)

  -- `saturating_mul` of the size and the redundant copies; an empty group does not occur.
  unfoldable pub reclaimable : List (Copy P) → ℕ
  reclaimable [] = 0
  reclaimable (file ∷ files) = min (2 ^ 64 - 1) (file.1.logical_bytes * length files)

  abbrev ranks_before : List ℕ × List (Copy P) → List ℕ × List (Copy P) → Bool
  ranks_before a b = elim (compare (reclaimable b.1) (reclaimable a.1)) [
    | lt ↦ true
    | eq ↦ elim (compare_digest a.0 b.0) [ lt ↦ true | eq ↦ true | gt ↦ false ]
    | gt ↦ false
  ]

  abbrev insert_ranked :
      List ℕ × List (Copy P) → List (List ℕ × List (Copy P)) → List (List ℕ × List (Copy P))
  insert_ranked g [] = g ∷ []
  insert_ranked g (h ∷ groups) =
      let rest = insert_ranked g groups in if ranks_before g h then g ∷ h ∷ groups else h ∷ rest

  -- `sort_by`, a stable sort.
  unfoldable pub rank_by_reclaimable : List (List ℕ × List (Copy P)) → List (List ℕ × List (Copy P))
  unfolding reclaimable
  rank_by_reclaimable [] = []
  rank_by_reclaimable (g ∷ groups) = insert_ranked g (rank_by_reclaimable groups)
