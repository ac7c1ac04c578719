-- ===== src/Service/Execute.antt =====
-- `execute` of crates/windows-platform/src/system_change/mod.rs.
use supa_diska_klinah.Base.{
  ℕ, suc, ◌-◌, Bool, true, false, Option, none, some, List, [], ◌∷◌, Result, ok, err, Text, length,
  set, replicate, leb, if◌then◌else◌, same,
}
use supa_diska_klinah.Contract.Plans.{
  PlannedChange, applied, failed, not_attempted, ChangeResult, ExecutionReport,
  ChangeOutcome-discrete,
}
use supa_diska_klinah.Contract.Journal.{Journal, mark_rolled_back}
use supa_diska_klinah.Service.Types.{
  SystemChangeError, busy, plan_not_found, not_confirmed, plan_expired, journal_unavailable,
  StoredPlan, Env, Service, plan_lifetime,
}
use supa_diska_klinah.Service.Plans.{lookup, without}
use supa_diska_klinah.Service.Execution.{is_helper, save_journal, execute_standard, result_for}
use supa_diska_klinah.Service.Batch.{Results, helper_items, execute_helper_batch}

abbrev pub rolled_back_entry : Option ChangeResult → Option Text
rolled_back_entry none = none
rolled_back_entry (some result) =
    if same ChangeOutcome-discrete result.outcome applied then result.journal_entry_id else none

abbrev pub mark_some : Journal → Option Text → Option Text → Journal
mark_some journal (some original) (some entry_id) = (mark_rolled_back journal original entry_id).0
mark_some journal (some original) none = journal
mark_some journal none entry_id = journal

-- The loop over the results, with `rollback_of.get(index)` beside each.
unfoldable pub mark_results : Results → List (Option Text) → Journal → Journal
mark_results [] rollback_of journal = journal
mark_results (result ∷ results) [] journal = mark_results results [] journal
mark_results (result ∷ results) (original ∷ rollback_of) journal =
    mark_results results rollback_of (mark_some journal original (rolled_back_entry result))

abbrev unwrap_result : PlannedChange → Option ChangeResult → ChangeResult
unwrap_result planned none = result_for planned (failed not_attempted) none
unwrap_result planned (some result) = result

-- `results.into_iter().zip(&plan.changes).map(…).collect()`.
unfoldable pub report_results : Results → List PlannedChange → List ChangeResult
report_results [] changes = []
report_results (result ∷ results) [] = []
report_results (result ∷ results) (planned ∷ changes) =
    unwrap_result planned result ∷ report_results results changes

module _ {W : Type 0} (env : Env W) where
  -- The loop over the changes of the plan, from an index on.
  unfoldable pub run_changes :
      Text
      → List (ℕ × PlannedChange)
      → ℕ
      → List PlannedChange
      → Bool
      → Journal
      → Results
      → Service W
      → Journal × Results × Service W
  run_changes plan_id items index [] helper_done journal results s = (journal, results, s)
  run_changes plan_id items index (planned ∷ rest) helper_done journal results s =
      elim (is_helper planned) [
        | true ↦ elim helper_done [
          | true ↦ run_changes plan_id items (suc index) rest true journal results s
          | false ↦
              let (journal', results', s') =
                execute_helper_batch env plan_id items journal results s in
              run_changes plan_id items (suc index) rest true journal' results' s'
        ]
        | false ↦
            let (result, journal', s') = execute_standard env plan_id planned journal s in
            run_changes plan_id items (suc index) rest helper_done journal'
              (set results index (some result)) s'
      ]

  -- from the loaded journal on
  unfoldable pub run_plan : Text → StoredPlan → Journal → Service W → ExecutionReport × Service W
  unfolding run_changes mark_results report_results save_journal helper_items
  run_plan plan_id plan journal s =
      let (journal', results, s') =
        run_changes plan_id (helper_items 0 plan.changes) 0 plan.changes false journal
          (replicate (length plan.changes) none) s in
      let (_, s'') = save_journal env (mark_results results plan.rollback_of journal') s' in
      (record { plan_id = plan_id; results = report_results results plan.changes }, s'')

  abbrev pub with_journal :
      Text
      → StoredPlan
      → Option Journal × W
      → Service W
      → Result SystemChangeError ExecutionReport × Service W
  with_journal plan_id plan (none, w) s = (err journal_unavailable, record s { world = w })
  with_journal plan_id plan (some journal, w) s =
      let (report, s') = run_plan plan_id plan journal (record s { world = w }) in (ok report, s')

  -- a stored and confirmed plan is taken out of the map, and runs unless it has expired
  abbrev pub take_plan :
      Text
      → StoredPlan
      → ℕ
      → ℕ × W
      → Service W
      → Result SystemChangeError ExecutionReport × Service W
  take_plan plan_id plan confirmed (now, w) s =
      let taken = record s { world = w; plans = without plan_id s.plans } in
      if leb plan_lifetime (now - confirmed)
      then (err plan_expired, taken)
      else with_journal plan_id plan (env.load w) taken

  abbrev pub when_confirmed :
      Text
      → StoredPlan
      → Option ℕ
      → Service W
      → Result SystemChangeError ExecutionReport × Service W
  when_confirmed plan_id plan none s = (err not_confirmed, s)
  when_confirmed plan_id plan (some confirmed) s =
      take_plan plan_id plan confirmed (env.now s.world) s

  abbrev pub when_found :
      Text → Option StoredPlan → Service W → Result SystemChangeError ExecutionReport × Service W
  when_found plan_id none s = (err plan_not_found, s)
  when_found plan_id (some plan) s = when_confirmed plan_id plan plan.confirmed_at s

  unfoldable pub execute : Text → Service W → Result SystemChangeError ExecutionReport × Service W
  unfolding run_plan
  execute plan_id s =
      if s.running then (err busy, s) else when_found plan_id (lookup plan_id s.plans) s
