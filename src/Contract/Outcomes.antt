-- ===== src/Contract/Outcomes.antt =====
-- What record_outcome writes into an entry of the journal, and which entry it is.
use supa_diska_klinah.Base.{
  ◌≡◌, refl, sym, ap, ◌∙◌, ◌≢◌, ◌↔◌, ◌⊎◌, inl, inr, Bool, true, false, Option, none, some, List, [],
  ◌∷◌, ok_flatten, arith, Option-cases, Text, Text-discrete, eq_of_same,
}
use supa_diska_klinah.Contract.Types.{PriorState}
use supa_diska_klinah.Contract.Changes.{inverse, is_reversible}
use supa_diska_klinah.Contract.Plans.{ChangeOutcome, applied}
use supa_diska_klinah.Contract.Journal.{
  Journal, JournalEntry, available, rollback_status, find_entry, find, update_entry, with_outcome,
  record_outcome,
}
use supa_diska_klinah.Contract.Entries.{rollback_available}

with_outcome-id :
    (o : ChangeOutcome) (p : Option PriorState) (e : JournalEntry) → (with_outcome o p e).id ≡ e.id
with_outcome-id o none e = refl
with_outcome-id o (some p) e = refl

-- The recorded prior state and the inverse: as before, or the given state and the inverse for it.
abbrev RecordsPrior : Option PriorState → JournalEntry → JournalEntry → Type 0
RecordsPrior none e e' = (e'.prior ≡ e.prior) × (e'.inverse_change ≡ e.inverse_change)
RecordsPrior (some prior) e e' =
    (e'.prior ≡ prior) × (e'.inverse_change ≡ ok_flatten (inverse e.change prior))

-- The second entry is the first one with this outcome, and with this prior state if one is given;
-- its rollback is available exactly if it was applied, not rolled back, reversible, and has an inverse.
pub record Records (o : ChangeOutcome) (p : Option PriorState) (e e' : JournalEntry) : Type 0 where
  pub same_id : e'.id ≡ e.id
  pub same_plan : e'.plan_id ≡ e.plan_id
  pub same_time : e'.recorded_at ≡ e.recorded_at
  pub same_change : e'.change ≡ e.change
  pub same_undoing : e'.undoing ≡ e.undoing
  pub same_rollback : e'.rolled_back_by ≡ e.rolled_back_by
  pub new_outcome : e'.outcome ≡ some o
  pub new_prior : RecordsPrior p e e'
  pub new_status : (rollback_status e' ≡ available) ↔ (
      (e.rolled_back_by ≡ none)
      × (is_reversible e.undoing ≡ true)
      × (o ≡ applied)
      × (e'.inverse_change ≢ none))

-- What a lookup gives before and after, and whether the write found an entry.
abbrev pub RecordsFound :
    ChangeOutcome → Option PriorState → Option JournalEntry → Option JournalEntry → Bool → Type 0
RecordsFound o p none after wrote = (after ≡ none) × (wrote ≡ false)
RecordsFound o p (some e) after wrote =
    (e' : JournalEntry) × (after ≡ some e') × (wrote ≡ true) × Records o p e e'

outcome_is : {o o' : ChangeOutcome} → Path (Option ChangeOutcome) (some o) (some o') → o ≡ o'
outcome_is h = ground (arith, h)

with_outcome-status :
    (o : ChangeOutcome) (e : JournalEntry)
    → (e.outcome ≡ some o)
    → (rollback_status e ≡ available) ↔ (
        (e.rolled_back_by ≡ none)
        × (is_reversible e.undoing ≡ true)
        × (o ≡ applied)
        × (e.inverse_change ≢ none))
with_outcome-status o e q = (
  λ h. let (a, b, c, d) = (rollback_available e).0 h in (a, b, outcome_is (sym q ∙ c), d),
  λ (a, b, c, d). (rollback_available e).1 (a, b, q ∙ ap some c, d),
)

with_outcome-Records :
    (o : ChangeOutcome) (p : Option PriorState) (e : JournalEntry)
    → Records o p e (with_outcome o p e)
with_outcome-Records o none e = record {
  same_id = refl;
  same_plan = refl;
  same_time = refl;
  same_change = refl;
  same_undoing = refl;
  same_rollback = refl;
  new_outcome = refl;
  new_prior = (refl, refl);
  new_status = with_outcome-status o (with_outcome o none e) refl;
}
with_outcome-Records o (some p) e = record {
  same_id = refl;
  same_plan = refl;
  same_time = refl;
  same_change = refl;
  same_undoing = refl;
  same_rollback = refl;
  new_outcome = refl;
  new_prior = (refl, refl);
  new_status = with_outcome-status o (with_outcome o (some p) e) refl;
}

find-update_same :
    (id : Text) (f : JournalEntry → JournalEntry) (es : List JournalEntry) (e : JournalEntry)
    → ((x : JournalEntry) → (f x).id ≡ x.id)
    → find_entry id es ≡ some e
    → find_entry id (update_entry id f es) ≡ some (f e)
unfolding find_entry update_entry
find-update_same id f [] e keeps h = ground (arith, h)
find-update_same id f (x ∷ es) e keeps h =
    ground (arith, h, keeps x, find-update_same id f es e keeps)

find-update_other :
    (id key : Text) (f : JournalEntry → JournalEntry) (es : List JournalEntry)
    → ((x : JournalEntry) → (f x).id ≡ x.id)
    → id ≢ key
    → find_entry key (update_entry id f es) ≡ find_entry key es
unfolding find_entry update_entry
find-update_other id key f [] keeps n = refl
find-update_other id key f (x ∷ es) keeps n = ground (
  arith,
  keeps x,
  find-update_other id key f es keeps n,
  eq_of_same Text-discrete x.id id,
  eq_of_same Text-discrete x.id key,
  n,
)

record_outcome-RecordsFound :
    (journal : Journal) (id : Text) (o : ChangeOutcome) (p : Option PriorState)
    → RecordsFound o p
        (find journal id)
        (find (record_outcome journal id o p).0 id)
        (record_outcome journal id o p).1
unfolding find record_outcome
record_outcome-RecordsFound journal id o p = elim (Option-cases (find_entry id journal.entries)) [
  | inl missing ↦ rw missing (missing, refl)
  | inr (e, found) ↦ rw found (
    with_outcome o p e,
    find-update_same id (with_outcome o p) journal.entries e (with_outcome-id o p) found,
    refl,
    with_outcome-Records o p e,
  )
]

-- After record_outcome for an identifier, finding it gives the entry found before with the
-- outcome, with the prior state and the inverse for it if a prior state is given, and with all
-- else as it was; its rollback is available exactly if it was applied, not rolled back, is
-- reversible and has an inverse. If there was no such entry, none is found after, and this is
-- reported. Finding another identifier gives what it gave before.
pub find-record_outcome :
    (journal : Journal) (id key : Text) (o : ChangeOutcome) (p : Option PriorState)
    → RecordsFound o p
        (find journal id)
        (find (record_outcome journal id o p).0 id)
        (record_outcome journal id o p).1
      × ((id ≡ key) ⊎ (find (record_outcome journal id o p).0 key ≡ find journal key))
unfolding find record_outcome
find-record_outcome journal id key o p = (
  record_outcome-RecordsFound journal id o p,
  elim (Text-discrete id key) [
    | yes same_key ↦ inl same_key
    | no other_key ↦ inr (
        ground (
          arith,
          find-update_other id key (with_outcome o p) journal.entries (with_outcome-id o p)
              other_key,
        ))
  ],
)
