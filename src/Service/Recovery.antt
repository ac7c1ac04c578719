-- ===== src/Service/Recovery.antt =====
-- The journal's readers and `reconcile_interrupted` of
-- crates/windows-platform/src/system_change/mod.rs.
use mathlib.Core.List.{reverse}
use supa_diska_klinah.Base.{
  ℕ, ◌+◌, Bool, true, false, Option, none, some, List, [], ◌∷◌, map, Result, ok, err, if◌then◌else◌,
  same,
}
use supa_diska_klinah.Contract.Types.{PriorState, PriorState-discrete}
use supa_diska_klinah.Contract.Changes.{module_of}
use supa_diska_klinah.Contract.Plans.{ChangeOutcome, applied, failed, interrupted}
use supa_diska_klinah.Contract.Journal.{
  Journal, JournalEntry, rollback_status, interrupted_entries, record_outcome,
}
use supa_diska_klinah.Service.Types.{
  AdapterError, SystemChangeError, journal_unavailable, JournalView, Adapter, Env, Service,
}
use supa_diska_klinah.Service.Execution.{satisfied, save_journal}

abbrev view : JournalEntry → JournalView
view entry = record { entry = entry; rollback = rollback_status entry }

-- The outcome that an observation decides, or none.
unfoldable pub verdict :
    {W : Type 0} → Adapter W → JournalEntry → PriorState → W → Option ChangeOutcome
unfolding satisfied
verdict adapter entry current w =
    if same PriorState-discrete current entry.prior
    then some (failed interrupted)
    else if satisfied adapter entry.change current w
    then some applied
    else none

module _ {W : Type 0} (env : Env W) where
  abbrev viewed :
      Option Journal × W → Service W → Result SystemChangeError (List JournalView) × Service W
  viewed (none, w) s = (err journal_unavailable, record s { world = w })
  viewed (some journal, w) s = (ok (map view (reverse journal.entries)), record s { world = w })

  unfoldable pub journal_views : Service W → Result SystemChangeError (List JournalView) × Service W
  journal_views s = viewed (env.load s.world) s

  abbrev listed :
      Option Journal × W → Service W → Result SystemChangeError (List JournalEntry) × Service W
  listed (none, w) s = (err journal_unavailable, record s { world = w })
  listed (some journal, w) s = (ok (interrupted_entries journal), record s { world = w })

  unfoldable pub interrupted_list :
      Service W → Result SystemChangeError (List JournalEntry) × Service W
  interrupted_list s = listed (env.load s.world) s

  abbrev pub settled_by : JournalEntry → Option ChangeOutcome → Journal × ℕ → Journal × ℕ
  settled_by entry none (journal, resolved) = (journal, resolved)
  settled_by entry (some outcome) (journal, resolved) =
      ((record_outcome journal entry.id outcome none).0, resolved + 1)

  abbrev pub settle_observed :
      Adapter W
      → JournalEntry
      → Result AdapterError PriorState × W
      → Journal × ℕ
      → (Journal × ℕ) × W
  settle_observed adapter entry (err _, w) state = (state, w)
  settle_observed adapter entry (ok current, w) state =
      (settled_by entry (verdict adapter entry current w) state, w)

  abbrev pub settle_with : Option (Adapter W) → JournalEntry → Journal × ℕ → W → (Journal × ℕ) × W
  settle_with none entry state w = (state, w)
  settle_with (some adapter) entry state w =
      settle_observed adapter entry (adapter.observe entry.change w) state

  -- One round of the loop over the pending entries.
  unfoldable pub settle_entry : JournalEntry → Journal × ℕ → W → (Journal × ℕ) × W
  unfolding verdict
  settle_entry entry state w = settle_with (env.adapter (module_of entry.change)) entry state w

  unfoldable pub settle_pending : List JournalEntry → Journal × ℕ → W → (Journal × ℕ) × W
  settle_pending [] state w = (state, w)
  settle_pending (entry ∷ rest) state w =
      let (state', w') = settle_entry entry state w in settle_pending rest state' w'

  abbrev pub resolved_count : ℕ → Bool × Service W → Result SystemChangeError ℕ × Service W
  resolved_count resolved (true, s) = (ok resolved, s)
  resolved_count resolved (false, s) = (err journal_unavailable, s)

  abbrev pub reconcile_loaded :
      Option Journal × W → Service W → Result SystemChangeError ℕ × Service W
  reconcile_loaded (none, w) s = (err journal_unavailable, record s { world = w })
  reconcile_loaded (some journal, w) s =
      let ((journal', resolved), w') =
        settle_pending (interrupted_entries journal) (journal, 0) w in
      resolved_count resolved (save_journal env journal' (record s { world = w' }))

  unfoldable pub reconcile_interrupted : Service W → Result SystemChangeError ℕ × Service W
  unfolding settle_pending settle_entry save_journal
  reconcile_interrupted s = if s.running then (ok 0, s) else reconcile_loaded (env.load s.world) s
