-- ===== src/Contract/Entries.antt =====
-- The entries of the journal: what is recorded in each, and what a rollback of one does.
use supa_diska_klinah.Base.{
  ℕ, zero, suc, ◌≡◌, refl, sym, ◌∙◌, ◌≢◌, ◌↔◌, ◌⊎◌, inl, inr, Bool, true, false, not, Option, none,
  some, List, [], ◌∷◌, ◌++◌, ok, ok_flatten, arith, Option-cases, keep, All, Text, Text-discrete,
  same, eq_of_same, same_of_eq,
}
use supa_diska_klinah.Contract.Types.{SystemChange, PriorState, hosts}
use supa_diska_klinah.Contract.Changes.{
  inverse, is_satisfied_by, is_reversible, module_of, reversibility,
}
use supa_diska_klinah.Contract.Plans.{ChangeOutcome, applied}
use supa_diska_klinah.Contract.Inverse.{inverse_restores}
use supa_diska_klinah.Contract.Journal.{
  Journal, JournalEntry, is_interrupted, available, rollback_status, find_entry, find, update_entry,
  with_outcome, record_outcome, mark_rolled_back, record_intent, interrupted_entries,
}
use supa_diska_klinah.Contract.Trimming.{drop_settled, trim_lem}

-- The undo information of an entry is that of its change and its recorded prior state.
pub record EntryIsSound (e : JournalEntry) : Type 0 where
  pub undoing_of : e.undoing ≡ reversibility e.change
  pub inverse_of : e.inverse_change ≡ ok_flatten (inverse e.change e.prior)

abbrev pub JournalIsSound : Journal → Type 0
JournalIsSound journal = All EntryIsSound journal.entries

ok_flatten-some :
    (change : SystemChange) (prior : PriorState) (undo : SystemChange)
    → ok_flatten (inverse change prior) ≡ some undo
    → inverse change prior ≡ ok (some undo)
ok_flatten-some change prior undo h = ground arith

-- The rollback of an entry is available exactly if the entry was not rolled back, its change is
-- reversible, its outcome is that it was applied, and an inverse is recorded.
pub rollback_available :
    (e : JournalEntry)
    → (rollback_status e ≡ available) ↔ (
        (e.rolled_back_by ≡ none)
        × (is_reversible e.undoing ≡ true)
        × (e.outcome ≡ some applied)
        × (e.inverse_change ≢ none))
unfolding rollback_status
rollback_available e = ground arith

-- If a journal entry carries the reversibility and the inverse of its change and its recorded
-- prior state and its rollback is available, then it has an inverse, it was applied, and its
-- recorded prior state satisfies the inverse or the change edits the hosts file.
pub available-restores :
    (e : JournalEntry)
    → EntryIsSound e
    → rollback_status e ≡ available
    → (undo : SystemChange) × (e.inverse_change ≡ some undo)
      × (e.outcome ≡ some applied)
      × ((is_satisfied_by undo e.prior ≡ some true) ⊎ (module_of e.change ≡ hosts))
available-restores e s h = elim (Option-cases e.inverse_change) [
  | inl p ↦ absurd (((rollback_available e).0 h).3 p)
  | inr (undo, p) ↦ (
    undo,
    p,
    ((rollback_available e).0 h).2,
    inverse_restores e.change undo e.prior
        (ok_flatten-some e.change e.prior undo (sym s.inverse_of ∙ p)),
  )
]

module _ (P : JournalEntry → Type 0) where
  All-drop_settled : (n : ℕ) (es : List JournalEntry) → All P es → All P (drop_settled n es)
  unfolding drop_settled
  All-drop_settled zero es a = a
  All-drop_settled (suc n) [] a = tt
  All-drop_settled (suc n) (e ∷ es) a =
      ground (arith, All-drop_settled (suc n) es a.1, All-drop_settled n es a.1)

  All-append_one :
      (es : List JournalEntry) (e : JournalEntry) → All P es → P e → All P (es ++ e ∷ [])
  All-append_one [] e a p = (p, tt)
  All-append_one (x ∷ xs) e a p = (a.0, All-append_one xs e a.1 p)

  All-update_entry :
      (id : Text) (f : JournalEntry → JournalEntry) (es : List JournalEntry)
      → ((e : JournalEntry) → P e → P (f e))
      → All P es
      → All P (update_entry id f es)
  unfolding update_entry
  All-update_entry id f [] keeps a = tt
  All-update_entry id f (e ∷ es) keeps a =
      ground (arith, keeps e a.0, All-update_entry id f es keeps a.1)

pub record_intent-JournalIsSound :
    (journal : Journal) (entry : JournalEntry)
    → JournalIsSound journal
    → EntryIsSound entry
    → JournalIsSound (record_intent journal entry)
unfolding record_intent
record_intent-JournalIsSound journal entry s p =
    rw trim_lem
      (All-drop_settled EntryIsSound _ _ (All-append_one EntryIsSound journal.entries entry s p))

with_outcome-EntryIsSound :
    (o : ChangeOutcome) (p : Option PriorState) (e : JournalEntry)
    → EntryIsSound e
    → EntryIsSound (with_outcome o p e)
with_outcome-EntryIsSound o none e s = ground arith
with_outcome-EntryIsSound o (some p) e s = ground arith

pub record_outcome-JournalIsSound :
    (journal : Journal) (id : Text) (o : ChangeOutcome) (p : Option PriorState)
    → JournalIsSound journal
    → JournalIsSound (record_outcome journal id o p).0
unfolding record_outcome
record_outcome-JournalIsSound journal id o p s = ground (
  arith,
  All-update_entry EntryIsSound id (with_outcome o p) journal.entries
      (with_outcome-EntryIsSound o p) s,
)

pub mark_rolled_back-JournalIsSound :
    (journal : Journal) (id by : Text)
    → JournalIsSound journal
    → JournalIsSound (mark_rolled_back journal id by).0
unfolding mark_rolled_back
mark_rolled_back-JournalIsSound journal id by s = ground (
  arith,
  All-update_entry EntryIsSound id (λ e. record e { rolled_back_by = some by }) journal.entries
      (λ e h. record { undoing_of = h.undoing_of; inverse_of = h.inverse_of }) s,
)

abbrev pub FreshIn : Text → List JournalEntry → Type 0
FreshIn id es = All (λ (e : JournalEntry). e.id ≢ id) es

-- No id twice.
abbrev pub DistinctIds : List JournalEntry → Type 0
DistinctIds [] = Unit
DistinctIds (e ∷ es) = FreshIn e.id es × DistinctIds es

abbrev pub other_than : Text → JournalEntry → Bool
other_than id e = not (same Text-discrete e.id id)

keep-other_fresh :
    (id : Text) (es : List JournalEntry) → FreshIn id es → keep (other_than id) es ≡ es
keep-other_fresh id [] f = refl
keep-other_fresh id (e ∷ es) f =
    ground (arith, keep-other_fresh id es f.1, eq_of_same Text-discrete e.id id)

FreshIn-keep :
    (id : Text) (q : JournalEntry → Bool) (es : List JournalEntry)
    → FreshIn id es
    → FreshIn id (keep q es)
FreshIn-keep id q [] f = tt
FreshIn-keep id q (e ∷ es) f = ground (arith, FreshIn-keep id q es f.1)

with_outcome-settled :
    (o : ChangeOutcome) (p : Option PriorState) (e : JournalEntry)
    → is_interrupted (with_outcome o p e) ≡ false
unfolding is_interrupted
with_outcome-settled o p e = refl

interrupted-update_entry :
    (id : Text) (o : ChangeOutcome) (p : Option PriorState) (es : List JournalEntry)
    → DistinctIds es
    → keep is_interrupted (update_entry id (with_outcome o p) es)
      ≡ keep (other_than id) (keep is_interrupted es)
unfolding update_entry
interrupted-update_entry id o p [] d = refl
interrupted-update_entry id o p (e ∷ es) d = ground (
  arith,
  eq_of_same Text-discrete e.id id,
  with_outcome-settled o p e,
  interrupted-update_entry id o p es d.1,
  keep-other_fresh e.id (keep is_interrupted es) (FreshIn-keep e.id is_interrupted es d.0),
)

find_none-fresh : (id : Text) (es : List JournalEntry) → find_entry id es ≡ none → FreshIn id es
unfolding find_entry
find_none-fresh id [] h = tt
find_none-fresh id (e ∷ es) h =
    ground (arith, find_none-fresh id es, same_of_eq Text-discrete e.id id)

-- In a journal where no two entries have the same identifier, record_outcome removes from the
-- interrupted entries exactly those with the given identifier, and keeps the others in their
-- order.
pub record_outcome-interrupted :
    (journal : Journal) (id : Text) (o : ChangeOutcome) (p : Option PriorState)
    → DistinctIds journal.entries
    → interrupted_entries (record_outcome journal id o p).0
      ≡ keep (other_than id) (interrupted_entries journal)
unfolding record_outcome find interrupted_entries
record_outcome-interrupted journal id o p d = elim (Option-cases (find_entry id journal.entries)) [
  | inl missing ↦ ground (
    arith,
    keep-other_fresh id (keep is_interrupted journal.entries) (
        FreshIn-keep id is_interrupted journal.entries
          (find_none-fresh id journal.entries missing)),
  )
  | inr (e, found) ↦ ground (arith, interrupted-update_entry id o p journal.entries d)
]
