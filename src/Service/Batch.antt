-- ===== src/Service/Batch.antt =====
-- `execute_helper_batch` of crates/windows-platform/src/system_change/mod.rs. An index of the batch
-- is kept beside the change that it selects in the plan.
use supa_diska_klinah.Base.{
  ℕ, suc, Bool, true, false, Option, none, some, List, [], ◌∷◌, ◌++◌, map, Result, ok, err, Text,
  get_elem?, set, if◌then◌else◌,
}
use supa_diska_klinah.Contract.Types.{SystemChange, PriorState}
use supa_diska_klinah.Contract.Plans.{
  PlannedChange, ChangeOutcome, denied, failed, system_error, interrupted, not_attempted,
  ChangeResult,
}
use supa_diska_klinah.Contract.Journal.{Journal, record_outcome}
use supa_diska_klinah.Service.Types.{
  HelperItemResult, HelperClientError, helper_denied, indeterminate, not_started, Env, Service,
}
use supa_diska_klinah.Service.Execution.{
  is_helper, save_journal, call_helper, write_intent, result_for,
}

-- `enumerate().filter(|planned| planned.privilege == Helper)`, from an index on.
unfoldable pub helper_items : ℕ → List PlannedChange → List (ℕ × PlannedChange)
helper_items index [] = []
helper_items index (planned ∷ rest) =
    let later = helper_items (suc index) rest in
    if is_helper planned then (index, planned) ∷ later else later

abbrev pub request : ℕ × PlannedChange → SystemChange × PriorState
request (_, planned) = (planned.change, planned.expected_prior)

-- outcome, observed prior state, and outcome for the journal
abbrev pub Answer : Type 0
Answer = ChangeOutcome × Option PriorState × Option ChangeOutcome

abbrev answer_item : Option HelperItemResult → Answer
answer_item (some item) = (item.outcome, some item.prior, some item.outcome)
answer_item none = (failed interrupted, none, none)

unfoldable pub answer_at : Result HelperClientError (List HelperItemResult) → ℕ → Answer
answer_at (ok items) position = answer_item (get_elem? items position)
answer_at (err helper_denied) position = (denied, none, some denied)
answer_at (err (not_started reason)) position = (failed reason, none, some (failed reason))
answer_at (err indeterminate) position = (failed interrupted, none, none)

abbrev pub record_some : Journal → Text → Option ChangeOutcome → Option PriorState → Journal
record_some journal id none prior = journal
record_some journal id (some outcome) prior = (record_outcome journal id outcome prior).0

abbrev pub Results : Type 0
Results = List (Option ChangeResult)

-- The loop over the answers. `ids` are those from this position on, one for each item.
unfoldable pub settle_items :
    Result HelperClientError (List HelperItemResult)
    → ℕ
    → List (ℕ × PlannedChange)
    → List Text
    → Journal
    → Results
    → Journal × Results
unfolding answer_at
settle_items response position [] ids journal results = (journal, results)
settle_items response position (item ∷ rest) [] journal results = (journal, results)
settle_items response position ((index, planned) ∷ rest) (id ∷ ids) journal results =
    let (outcome, prior, journal_outcome) = answer_at response position in
    settle_items response (suc position) rest ids (record_some journal id journal_outcome prior)
      (set results index (some (result_for planned outcome (some id))))

abbrev give_up : Journal → Option Text → Journal
give_up journal none = journal
give_up journal (some id) = (record_outcome journal id (failed not_attempted) none).0

-- The loop of the branch on a failed intent: `entry_ids.get(position)` along the items.
unfoldable pub abandon_items :
    List (ℕ × PlannedChange) → List Text → Journal → Results → Journal × Results
abandon_items [] ids journal results = (journal, results)
abandon_items ((index, planned) ∷ rest) [] journal results =
    abandon_items rest [] journal
      (set results index (some (result_for planned (failed system_error) none)))
abandon_items ((index, planned) ∷ rest) (id ∷ ids) journal results =
    abandon_items rest ids (give_up journal (some id))
      (set results index (some (result_for planned (failed system_error) (some id))))

module _ {W : Type 0} (env : Env W) where
  -- The loop over the intents: whether all were recorded, and the identifiers so far.
  unfoldable pub write_intents :
      Text
      → List (ℕ × PlannedChange)
      → List Text
      → Journal
      → Service W
      → Bool × List Text × Journal × Service W
  write_intents plan_id [] ids journal s = (true, ids, journal, s)
  write_intents plan_id ((index, planned) ∷ rest) ids journal s =
      let (id, journal', s') = write_intent env plan_id planned planned.expected_prior journal s in
      elim id [
        | none ↦ (false, ids, journal', s')
        | some id ↦ write_intents plan_id rest (ids ++ id ∷ []) journal' s'
      ]

  abbrev pub saving : Journal × Results → Service W → Journal × Results × Service W
  saving (journal, results) s = let (_, s') = save_journal env journal s in (journal, results, s')

  abbrev pub after_intents :
      List (ℕ × PlannedChange)
      → Results
      → Bool × List Text × Journal × Service W
      → Journal × Results × Service W
  after_intents items results (false, ids, journal, s) =
      saving (abandon_items items ids journal results) s
  after_intents items results (true, ids, journal, s) =
      let (response, s') = call_helper env (map request items) s in
      saving (settle_items response 0 items ids journal results) s'

  unfoldable pub execute_helper_batch :
      Text
      → List (ℕ × PlannedChange)
      → Journal
      → Results
      → Service W
      → Journal × Results × Service W
  unfolding write_intents settle_items abandon_items call_helper save_journal
  execute_helper_batch plan_id items journal results s =
      after_intents items results (write_intents plan_id items [] journal s)
