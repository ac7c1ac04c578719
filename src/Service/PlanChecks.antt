-- ===== src/Service/PlanChecks.antt =====
-- What the lists of changes that a plan or a rollback plan is made from have in common with it, in
-- crates/windows-platform/src/system_change/mod.rs.
use supa_diska_klinah.Base.{
  ◌≡◌, ◌≢◌, refl, false, Option, none, some, List, [], ◌∷◌, map, ok, arith, Text, any, All, same,
  same_of_eq, eq_of_same, ok_flatten,
}
use supa_diska_klinah.Contract.Types.{
  SystemChange, PriorState, ImpactSummary, SystemChange-discrete,
}
use supa_diska_klinah.Contract.Changes.{validate, module_of, privilege, reversibility, inverse}
use supa_diska_klinah.Contract.Plans.{PlannedChange, new_planned}
use supa_diska_klinah.Contract.Journal.{
  Journal, JournalEntry, find, rollback_status, available, RollbackStatus-discrete,
}
use supa_diska_klinah.Service.Planning.{repeats, inverse_of_entry, rollback_changes}

-- A planned change carries what its change determines.
pub record PlannedIsSound (p : PlannedChange) : Type 0 where
  pub valid : validate p.change ≡ ok tt
  pub module_is : p.system_module ≡ module_of p.change
  pub needs_is : p.needs ≡ privilege p.change
  pub undoing_is : p.undoing ≡ reversibility p.change
  pub inverse_is : p.inverse_change ≡ ok_flatten (inverse p.change p.expected_prior)

pub new_planned_lem :
    (change : SystemChange) (impact : ImpactSummary) (prior : PriorState) (p : PlannedChange)
    → new_planned change impact prior ≡ ok p
    → PlannedIsSound p × (p.change ≡ change) × (p.expected_prior ≡ prior)
unfolding new_planned
new_planned_lem change impact prior p h = ground arith

-- No change twice.
abbrev pub NoRepeats : List SystemChange → Type 0
NoRepeats [] = Unit
NoRepeats (c ∷ cs) = All (λ d. c ≢ d) cs × NoRepeats cs

abbrev NotIn : List SystemChange → SystemChange → Type 0
NotIn before d = All (λ c. c ≢ d) before

NotIn-head :
    (before cs : List SystemChange) (c : SystemChange)
    → All (NotIn (c ∷ before)) cs
    → All (λ d. c ≢ d) cs × All (NotIn before) cs
NotIn-head before [] c a = (tt, tt)
NotIn-head before (d ∷ cs) c a = let (p, q) = NotIn-head before cs c a.1 in ((a.0.0, p), (a.0.1, q))

any-false :
    (before : List SystemChange) (d : SystemChange)
    → any (λ c. same SystemChange-discrete c d) before ≡ false
    → NotIn before d
any-false [] d h = tt
any-false (c ∷ before) d h =
    ground (arith, same_of_eq SystemChange-discrete c d, any-false before d)

pub repeats-false :
    (before cs : List SystemChange)
    → repeats before cs ≡ false
    → All (NotIn before) cs × NoRepeats cs
unfolding repeats
repeats-false before [] h = (tt, tt)
repeats-false before (c ∷ cs) h =
    ground (arith, any-false before c, repeats-false (c ∷ before) cs, NotIn-head before cs c)

abbrev pub planned_changes : List PlannedChange → List SystemChange
planned_changes = map (λ (p : PlannedChange). p.change)

-- Each identifier names an entry that can be rolled back, and the change is the entry's inverse.
abbrev pub Undoes : Journal → List Text → List SystemChange → Type 0
Undoes journal [] [] = Unit
Undoes journal [] (_ ∷ _) = ⊥
Undoes journal (_ ∷ _) [] = ⊥
Undoes journal (id ∷ ids) (undo ∷ undos) =
    ((entry : JournalEntry) × (find journal id ≡ some entry)
      × (rollback_status entry ≡ available)
      × (entry.inverse_change ≡ some undo))
    × Undoes journal ids undos

inverse_of_entry_lem :
    (found : Option JournalEntry) (undo : SystemChange)
    → inverse_of_entry found ≡ ok undo
    → (entry : JournalEntry) × (found ≡ some entry)
      × (rollback_status entry ≡ available)
      × (entry.inverse_change ≡ some undo)
inverse_of_entry_lem none undo h = cc
inverse_of_entry_lem (some entry) undo h = (
  entry,
  refl,
  ground (arith, eq_of_same RollbackStatus-discrete (rollback_status entry) available),
  ground arith,
)

pub rollback_changes_lem :
    (journal : Journal) (ids : List Text) (undos : List SystemChange)
    → rollback_changes journal ids ≡ ok undos
    → Undoes journal ids undos
unfolding rollback_changes
rollback_changes_lem journal [] [] h = tt
rollback_changes_lem journal [] (u ∷ us) h = cc
rollback_changes_lem journal (id ∷ ids) [] h = absurd (ground arith)
rollback_changes_lem journal (id ∷ ids) (u ∷ us) h = (
  inverse_of_entry_lem (find journal id) u (ground arith),
  rollback_changes_lem journal ids us (ground arith),
)
