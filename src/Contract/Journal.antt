-- ===== src/Contract/Journal.antt =====
-- The journal of crates/cleanup-core/src/system_change.rs: intents, outcomes, rollback marks and
-- the trimming of old entries. A method with `&mut self` returns the new journal.
use supa_diska_klinah.Base.{
  ℕ, zero, suc, Bool, true, false, not, ◌||◌, Option, none, some, List, [], ◌∷◌, ◌++◌, Result, ok,
  err, ok_flatten, Text, Text-discrete, same, length, ltb, keep, ◌==◌, if◌then◌else◌,
}
use supa_diska_klinah.Contract.Types.{SystemChange, PriorState, Reversibility}
use supa_diska_klinah.Contract.Changes.{inverse, is_reversible}
use supa_diska_klinah.Contract.Plans.{ChangeOutcome, applied}

abbrev pub max_journal_entries : ℕ
max_journal_entries = 500

abbrev pub journal_version : ℕ
journal_version = 1

pub record JournalEntry : Type 0 where
  pub id : Text
  pub plan_id : Text
  pub recorded_at : ℕ
  pub change : SystemChange
  pub prior : PriorState
  pub undoing : Reversibility
  pub inverse_change : Option SystemChange
  pub outcome : Option ChangeOutcome
  pub rolled_back_by : Option Text

unfoldable pub is_interrupted : JournalEntry → Bool
is_interrupted entry = elim entry.outcome [ none ↦ true | some _ ↦ false ]

pub data RollbackStatus : Type 0 where
  available already_rolled_back irreversible_entry interrupted_entry nothing_applied :
      RollbackStatus

unfoldable pub RollbackStatus-discrete : Discrete RollbackStatus
RollbackStatus-discrete = hlevel

abbrev is_applied : Option ChangeOutcome → Bool
is_applied (some applied) = true
is_applied _ = false

abbrev is_some : {A : Type 0} → Option A → Bool
is_some none = false
is_some (some _) = true

unfoldable pub rollback_status : JournalEntry → RollbackStatus
unfolding is_reversible
rollback_status entry =
    if is_some entry.rolled_back_by
    then already_rolled_back
    else if not (is_reversible entry.undoing)
    then irreversible_entry
    else if not (is_some entry.outcome)
    then interrupted_entry
    else if not (is_applied entry.outcome) || not (is_some entry.inverse_change)
    then nothing_applied
    else available

pub record Journal : Type 0 where
  pub version : ℕ
  pub entries : List JournalEntry

abbrev pub empty : Journal
empty = record { version = journal_version; entries = [] }

pub data JournalParseError : Type 0 where
  malformed unsupported_version : JournalParseError

abbrev checked_version : Option Journal → Result JournalParseError Journal
checked_version none = err malformed
checked_version (some journal) =
    if journal.version == journal_version then ok journal else err unsupported_version

-- `decode` stands for `serde_json::from_slice`.
unfoldable pub from_json : (List ℕ → Option Journal) → List ℕ → Result JournalParseError Journal
from_json decode bytes = checked_version (decode bytes)

-- `entries.iter().position(|entry| !entry.is_interrupted())`.
unfoldable pub position_settled : List JournalEntry → Option ℕ
position_settled [] = none
position_settled (e ∷ es) =
    let rest = position_settled es in
    if is_interrupted e then elim rest [ none ↦ none | some i ↦ some (suc i) ] else some 0

-- `Vec::remove`, whose panic out of range is not reached here.
abbrev pub remove : List JournalEntry → ℕ → List JournalEntry
remove [] i = []
remove (e ∷ es) zero = es
remove (e ∷ es) (suc i) = e ∷ remove es i

-- One round of the loop: the entries after it, or nothing when the loop ends.
unfoldable pub trim_step : List JournalEntry → Option (List JournalEntry)
unfolding position_settled is_interrupted
trim_step es =
    if ltb max_journal_entries (length es)
    then elim (position_settled es) [ none ↦ none | some index ↦ some (remove es index) ]
    else none

unfoldable pub trim_loop : ℕ → List JournalEntry → List JournalEntry
unfolding trim_step
trim_loop zero es = es
trim_loop (suc fuel) es = elim (trim_step es) [ none ↦ es | some es' ↦ trim_loop fuel es' ]

-- Each round removes an entry, so the length is enough fuel.
unfoldable pub trim : Journal → Journal
unfolding trim_loop
trim journal = record journal { entries = trim_loop (length journal.entries) journal.entries }

unfoldable pub record_intent : Journal → JournalEntry → Journal
unfolding trim
record_intent journal entry = trim (record journal { entries = journal.entries ++ entry ∷ [] })

-- `iter().find(|entry| entry.id == id)`.
unfoldable pub find_entry : Text → List JournalEntry → Option JournalEntry
find_entry id [] = none
find_entry id (e ∷ es) = if same Text-discrete e.id id then some e else find_entry id es

unfoldable pub find : Journal → Text → Option JournalEntry
unfolding find_entry
find journal id = find_entry id journal.entries

-- A write through `iter_mut().find(|entry| entry.id == id)`: the first entry with this id.
unfoldable pub update_entry :
    Text → (JournalEntry → JournalEntry) → List JournalEntry → List JournalEntry
update_entry id f [] = []
update_entry id f (e ∷ es) =
    if same Text-discrete e.id id then f e ∷ es else e ∷ update_entry id f es

abbrev pub with_prior : Option PriorState → JournalEntry → JournalEntry
with_prior none entry = entry
with_prior (some prior) entry = record entry {
  inverse_change = ok_flatten (inverse entry.change prior);
  prior = prior;
}

abbrev pub with_outcome : ChangeOutcome → Option PriorState → JournalEntry → JournalEntry
with_outcome outcome prior entry = record (with_prior prior entry) { outcome = some outcome }

unfoldable pub record_outcome : Journal → Text → ChangeOutcome → Option PriorState → Journal × Bool
unfolding find update_entry
record_outcome journal id outcome prior =
    if is_some (find journal id)
    then (
      record journal { entries = update_entry id (with_outcome outcome prior) journal.entries },
      true,
    )
    else (journal, false)

unfoldable pub mark_rolled_back : Journal → Text → Text → Journal × Bool
unfolding find update_entry
mark_rolled_back journal id by =
    if is_some (find journal id)
    then (
      record journal {
        entries = update_entry id (λ e. record e { rolled_back_by = some by }) journal.entries;
      },
      true,
    )
    else (journal, false)

unfoldable pub interrupted_entries : Journal → List JournalEntry
unfolding is_interrupted
interrupted_entries journal = keep is_interrupted journal.entries
