-- ===== src/Service/Execution.antt =====
-- `execute` of crates/windows-platform/src/system_change/mod.rs and what it calls. `&mut Journal`
-- and `&mut results` are passed on and returned.
use supa_diska_klinah.Base.{
  ℕ, Bool, true, false, not, Option, none, some, List, ◌∷◌, Result, ok, err, ok_flatten, Text,
  if◌then◌else◌, same,
}
use supa_diska_klinah.Contract.Types.{
  SystemChange, PriorState, helper, Privilege-discrete, PriorState-discrete,
}
use supa_diska_klinah.Contract.Changes.{inverse, is_satisfied_by}
use supa_diska_klinah.Contract.Plans.{
  PlannedChange, ChangeOutcome, applied, already_applied, state_changed, failed, invalid_request,
  system_error, ChangeResult,
}
use supa_diska_klinah.Contract.Journal.{Journal, JournalEntry, record_intent, record_outcome}
use supa_diska_klinah.Service.Types.{
  AdapterError, outcome_of, HelperItemResult, HelperClientError, Adapter, Env, saved,
  applied_change, called_helper, Service,
}

abbrev pub is_helper : PlannedChange → Bool
is_helper planned = same Privilege-discrete planned.needs helper

abbrev pub unwrap_or_else : Option Bool → Bool → Bool
unwrap_or_else none b = b
unwrap_or_else (some b) _ = b

unfoldable pub satisfied : {W : Type 0} → Adapter W → SystemChange → PriorState → W → Bool
satisfied adapter change state w =
    unwrap_or_else (is_satisfied_by change state) (adapter.is_satisfied change state w)

-- The entry that `record_intent` of the service pushes.
abbrev pub intent : Text → PlannedChange → PriorState → Text → ℕ → JournalEntry
intent plan_id planned prior id recorded_at = record {
  id = id;
  plan_id = plan_id;
  recorded_at = recorded_at;
  change = planned.change;
  prior = prior;
  undoing = planned.undoing;
  inverse_change = ok_flatten (inverse planned.change prior);
  outcome = none;
  rolled_back_by = none;
}

abbrev pub kept_id : Bool → Text → Option Text
kept_id true id = some id
kept_id false id = none

abbrev pub result_for : PlannedChange → ChangeOutcome → Option Text → ChangeResult
result_for planned outcome id = record {
  change = planned.change;
  outcome = outcome;
  journal_entry_id = id;
}

abbrev pub apply_outcome : Result AdapterError (Unit {0}) → ChangeOutcome
apply_outcome (ok _) = applied
apply_outcome (err e) = outcome_of e

module _ {W : Type 0} (env : Env W) where
  -- `self.journal.save(journal)`.
  unfoldable pub save_journal : Journal → Service W → Bool × Service W
  save_journal journal s =
      let (done, w) = env.save journal s.world in
      (done, record s { world = w; events = if done then saved journal ∷ s.events else s.events })

  -- `adapter.apply(change)`.
  unfoldable pub apply_change :
      Adapter W → SystemChange → Service W → Result AdapterError (Unit {0}) × Service W
  apply_change adapter change s =
      let (r, w) = adapter.apply change s.world in
      (r, record s { world = w; events = applied_change change ∷ s.events })

  -- `self.helper.apply(&items)`.
  unfoldable pub call_helper :
      List (SystemChange × PriorState)
      → Service W
      → Result HelperClientError (List HelperItemResult) × Service W
  call_helper items s =
      let (r, w) = env.helper_apply items s.world in
      (r, record s { world = w; events = called_helper items ∷ s.events })

  abbrev pub intent_with_id :
      Text
      → PlannedChange
      → PriorState
      → Journal
      → Option Text
      → Service W
      → Option Text × Journal × Service W
  intent_with_id plan_id planned prior journal none s = (none, journal, s)
  intent_with_id plan_id planned prior journal (some id) s =
      let (recorded_at, w) = env.unix_now s.world in
      let journal' = record_intent journal (intent plan_id planned prior id recorded_at) in
      let (done, s') = save_journal journal' (record s { world = w }) in
      (kept_id done id, journal', s')

  -- `SystemChangeService::record_intent`.
  unfoldable pub write_intent :
      Text → PlannedChange → PriorState → Journal → Service W → Option Text × Journal × Service W
  unfolding save_journal
  write_intent plan_id planned prior journal s =
      let (id, w) = env.random_id s.world in
      intent_with_id plan_id planned prior journal id (record s { world = w })

  -- from the recorded intent on
  abbrev pub standard_apply :
      Adapter W
      → PlannedChange
      → Option Text × Journal × Service W
      → ChangeResult × Journal × Service W
  standard_apply adapter planned (none, journal, s) =
      (result_for planned (failed system_error) none, journal, s)
  standard_apply adapter planned (some entry_id, journal, s) =
      let (r, s') = apply_change adapter planned.change s in
      let outcome = apply_outcome r in
      let journal' = (record_outcome journal entry_id outcome none).0 in
      let (_, s'') = save_journal journal' s' in
      (result_for planned outcome (some entry_id), journal', s'')

  -- from the observed state on
  abbrev pub standard_observed :
      Text
      → Adapter W
      → PlannedChange
      → Journal
      → Result AdapterError PriorState × W
      → Service W
      → ChangeResult × Journal × Service W
  standard_observed plan_id adapter planned journal (err e, w) s =
      (result_for planned (outcome_of e) none, journal, record s { world = w })
  standard_observed plan_id adapter planned journal (ok current, w) s =
      if satisfied adapter planned.change current w
      then (result_for planned already_applied none, journal, record s { world = w })
      else if not (same PriorState-discrete current planned.expected_prior)
      then (result_for planned state_changed none, journal, record s { world = w })
      else standard_apply adapter planned
          (write_intent plan_id planned current journal (record s { world = w }))

  abbrev pub standard_with :
      Text
      → Option (Adapter W)
      → PlannedChange
      → Journal
      → Service W
      → ChangeResult × Journal × Service W
  standard_with plan_id none planned journal s =
      (result_for planned (failed invalid_request) none, journal, s)
  standard_with plan_id (some adapter) planned journal s =
      standard_observed plan_id adapter planned journal (adapter.observe planned.change s.world) s

  unfoldable pub execute_standard :
      Text → PlannedChange → Journal → Service W → ChangeResult × Journal × Service W
  unfolding write_intent apply_change satisfied outcome_of
  execute_standard plan_id planned journal s =
      standard_with plan_id (env.adapter planned.system_module) planned journal s
