-- ===== src/Service/Planning.antt =====
-- Previews, plans and their confirmation in crates/windows-platform/src/system_change/mod.rs.
use supa_diska_klinah.Base.{
  ℕ, ◌-◌, Bool, true, false, ◌||◌, Option, none, some, List, [], ◌∷◌, map, Result, ok, err, ◌>>=◌,
  ok_or, map_err, Text, length, any, keep, is_empty, replicate, leb, ltb, if◌then◌else◌, same,
}
use supa_diska_klinah.Contract.Types.{
  SystemChange, PriorState, ImpactSummary, SystemChange-discrete,
}
use supa_diska_klinah.Contract.Changes.{validate, module_of}
use supa_diska_klinah.Contract.Plans.{PlannedChange, new_planned}
use supa_diska_klinah.Contract.Journal.{
  Journal, JournalEntry, find, rollback_status, available, RollbackStatus-discrete,
}
use supa_diska_klinah.Service.Types.{
  AdapterError, adapter_unsupported, adapter_denied, adapter_failed, SystemChangeError, empty_plan,
  too_many_changes, duplicate_change, unknown_module, unsupported_change, invalid_change,
  observation_failed, plan_not_found, plan_expired, confirmation_declined, journal_unavailable,
  rollback_unavailable, PlanTicket, StoredPlan, Adapter, Env, Service, plan_lifetime,
  plan_lifetime_seconds, max_plan_changes,
}
use supa_diska_klinah.Service.Plans.{lookup, without, insert, retain_fresh}
use supa_diska_klinah.Service.Execution.{is_helper}

unfoldable pub map_preview_error : AdapterError → SystemChangeError
map_preview_error (adapter_unsupported _) = unsupported_change
map_preview_error adapter_denied = observation_failed
map_preview_error adapter_failed = observation_failed

-- `changes[..index].contains(change)` for some index: each change against those before it.
unfoldable pub repeats : List SystemChange → List SystemChange → Bool
repeats before [] = false
repeats before (change ∷ rest) =
    any (λ c. same SystemChange-discrete c change) before || repeats (change ∷ before) rest

abbrev helper_request : PlannedChange → SystemChange × PriorState
helper_request planned = (planned.change, planned.expected_prior)

abbrev pub inverse_of_entry : Option JournalEntry → Result SystemChangeError SystemChange
inverse_of_entry none = err rollback_unavailable
inverse_of_entry (some entry) =
    if same RollbackStatus-discrete (rollback_status entry) available
    then ok_or entry.inverse_change rollback_unavailable
    else err rollback_unavailable

-- The loop over the entry identifiers.
unfoldable pub rollback_changes : Journal → List Text → Result SystemChangeError (List SystemChange)
rollback_changes journal [] = ok []
rollback_changes journal (id ∷ ids) = do
  change ← inverse_of_entry (find journal id)
  changes ← rollback_changes journal ids
  ok (change ∷ changes)

module _ {W : Type 0} (env : Env W) where
  abbrev pub preview_observed :
      SystemChange
      → ImpactSummary
      → Result AdapterError PriorState × W
      → Result SystemChangeError PlannedChange × W
  preview_observed change impact (err e, w) = (err (map_preview_error e), w)
  preview_observed change impact (ok prior, w) =
      (map_err (λ _. invalid_change) (new_planned change impact prior), w)

  abbrev pub preview_described :
      SystemChange
      → Adapter W
      → Result AdapterError ImpactSummary × W
      → Result SystemChangeError PlannedChange × W
  preview_described change adapter (err e, w) = (err (map_preview_error e), w)
  preview_described change adapter (ok impact, w) =
      preview_observed change impact (adapter.observe change w)

  abbrev pub preview_with :
      SystemChange → Option (Adapter W) → W → Result SystemChangeError PlannedChange × W
  preview_with change none w = (err unknown_module, w)
  preview_with change (some adapter) w =
      preview_described change adapter (adapter.describe change w)

  abbrev pub preview_valid :
      {E : Type 0}
      → SystemChange
      → Result E (Unit {0})
      → W
      → Result SystemChangeError PlannedChange × W
  preview_valid change (err _) w = (err invalid_change, w)
  preview_valid change (ok _) w = preview_with change (env.adapter (module_of change)) w

  unfoldable pub preview : SystemChange → W → Result SystemChangeError PlannedChange × W
  unfolding map_preview_error new_planned
  preview change w =
      if env.is_supported
      then preview_valid change (validate change) w
      else (err unsupported_change, w)

  -- `map(|change| self.preview(change)).collect::<Result<Vec<_>, _>>()`.
  unfoldable pub preview_all :
      List SystemChange → W → Result SystemChangeError (List PlannedChange) × W
  preview_all [] w = (ok [], w)
  preview_all (change ∷ rest) w =
      let (planned, w') = preview change w in
      elim planned [
        | err e ↦ (err e, w')
        | ok p ↦
            let (more, w'') = preview_all rest w' in
            elim more [ err e ↦ (err e, w'') | ok ps ↦ (ok (p ∷ ps), w'') ]
      ]

  abbrev pub store_at :
      List PlannedChange
      → List (Option Text)
      → Text
      → ℕ × W
      → Service W
      → Result SystemChangeError PlanTicket × Service W
  store_at planned rollback_of plan_id (now, w) s =
      let plan : StoredPlan = record {
        changes = planned;
        rollback_of = rollback_of;
        created = now;
        confirmed_at = none;
      } in
      (
        ok (record {
          plan_id = plan_id;
          changes = planned;
          requires_helper = any is_helper planned;
          expires_in_seconds = plan_lifetime_seconds;
        }),
        record s { world = w; plans = insert plan_id plan (retain_fresh now s.plans) },
      )

  abbrev pub store_identified :
      List PlannedChange
      → List (Option Text)
      → Option Text × W
      → Service W
      → Result SystemChangeError PlanTicket × Service W
  store_identified planned rollback_of (none, w) s =
      (err journal_unavailable, record s { world = w })
  store_identified planned rollback_of (some plan_id, w) s =
      store_at planned rollback_of plan_id (env.now w) (record s { world = w })

  abbrev pub fits : List PlannedChange → Bool
  fits planned =
      let items = map helper_request (keep is_helper planned) in
      is_empty items || env.batch_fits items

  abbrev pub store_previewed :
      List (Option Text)
      → Result SystemChangeError (List PlannedChange) × W
      → Service W
      → Result SystemChangeError PlanTicket × Service W
  store_previewed rollback_of (err e, w) s = (err e, record s { world = w })
  store_previewed rollback_of (ok planned, w) s =
      if fits planned
      then store_identified planned rollback_of (env.random_id w) (record s { world = w })
      else (err too_many_changes, record s { world = w })

  unfoldable pub store_plan :
      List SystemChange
      → List (Option Text)
      → Service W
      → Result SystemChangeError PlanTicket × Service W
  unfolding repeats retain_fresh
  store_plan changes rollback_of s =
      if is_empty changes
      then (err empty_plan, s)
      else if ltb max_plan_changes (length changes)
      then (err too_many_changes, s)
      else if repeats [] changes
      then (err duplicate_change, s)
      else store_previewed rollback_of (preview_all changes s.world) s

  unfoldable pub create_plan :
      List SystemChange → Service W → Result SystemChangeError PlanTicket × Service W
  unfolding store_plan
  create_plan changes s = store_plan changes (replicate (length changes) none) s

  abbrev pub store_rollback :
      List Text
      → Result SystemChangeError (List SystemChange)
      → Service W
      → Result SystemChangeError PlanTicket × Service W
  store_rollback entry_ids (err e) s = (err e, s)
  store_rollback entry_ids (ok changes) s = store_plan changes (map some entry_ids) s

  abbrev pub rollback_loaded :
      List Text → Option Journal × W → Service W → Result SystemChangeError PlanTicket × Service W
  rollback_loaded entry_ids (none, w) s = (err journal_unavailable, record s { world = w })
  rollback_loaded entry_ids (some journal, w) s =
      store_rollback entry_ids (rollback_changes journal entry_ids) (record s { world = w })

  unfoldable pub create_rollback_plan :
      List Text → Service W → Result SystemChangeError PlanTicket × Service W
  unfolding store_plan rollback_changes
  create_rollback_plan entry_ids s = rollback_loaded entry_ids (env.load s.world) s

  abbrev fresh_changes : StoredPlan → ℕ → Result SystemChangeError (List PlannedChange)
  fresh_changes plan now =
      if leb plan_lifetime (now - plan.created) then err plan_expired else ok plan.changes

  abbrev pub start_found :
      Option StoredPlan → Service W → Result SystemChangeError (List PlannedChange) × Service W
  start_found none s = (err plan_not_found, s)
  start_found (some plan) s =
      let (now, w) = env.now s.world in (fresh_changes plan now, record s { world = w })

  -- `confirm_with_strings`, up to the prompt: what the dialog shows. The lock on the plans is given
  -- back before the prompt, so the answer meets whatever plans there are by then.
  unfoldable pub confirm_start :
      Text → Service W → Result SystemChangeError (List PlannedChange) × Service W
  confirm_start plan_id s = start_found (lookup plan_id s.plans) s

  abbrev pub answer_found :
      Text → Option StoredPlan → Service W → Result SystemChangeError (Unit {0}) × Service W
  answer_found plan_id none s = (err plan_not_found, s)
  answer_found plan_id (some plan) s =
      let (now, w) = env.now s.world in
      (
        ok tt,
        record s {
          world = w;
          plans = insert plan_id (record plan { confirmed_at = some now }) s.plans;
        },
      )

  -- `confirm_with_strings`, from the answer on.
  unfoldable pub confirm_answer :
      Text → Bool → Service W → Result SystemChangeError (Unit {0}) × Service W
  confirm_answer plan_id false s =
      (err confirmation_declined, record s { plans = without plan_id s.plans })
  confirm_answer plan_id true s = answer_found plan_id (lookup plan_id s.plans) s

  abbrev prompt_started :
      Text
      → (List PlannedChange → Bool)
      → Result SystemChangeError (List PlannedChange) × Service W
      → Result SystemChangeError (Unit {0}) × Service W
  prompt_started plan_id prompt (err e, s) = (err e, s)
  prompt_started plan_id prompt (ok changes, s) = confirm_answer plan_id (prompt changes) s

  -- The whole of `confirm_with_strings`, where nothing else runs during the prompt.
  unfoldable pub confirm_with :
      Text
      → (List PlannedChange → Bool)
      → Service W
      → Result SystemChangeError (Unit {0}) × Service W
  unfolding confirm_start confirm_answer
  confirm_with plan_id prompt s = prompt_started plan_id prompt (confirm_start plan_id s)
