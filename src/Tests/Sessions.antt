-- ===== src/Tests/Sessions.antt =====
-- Concrete sessions with the service of crates/windows-platform/src/system_change/mod.rs.
use supa_diska_klinah.Base.{
  ◌≡◌, refl, Text-discrete, ℕ_discrete, codes, true, false, none, some, [], ◌∷◌, ok, arith,
  replicate, map, All, ◌+◌, ◌<◌, ◌≤◌, ℕ,
}
use supa_diska_klinah.Contract.Types.{
  SystemChange, set_user_setting, privacy, registry_value, reversible, standard, no_restart, low,
  SystemChange-discrete, PriorState-discrete, Privilege-discrete, OptionValue-discrete,
}
use supa_diska_klinah.Contract.Changes.{
  inverse, inverse_of, is_satisfied_by, module_of, privilege, reversibility, is_reversible,
  validate,
}
use supa_diska_klinah.Contract.Plans.{
  PlannedChange, new_planned, applied, ExecutionReport, ChangeOutcome-discrete,
}
use supa_diska_klinah.Contract.Journal.{
  Journal, find, find_entry, update_entry, rollback_status, RollbackStatus-discrete, record_intent,
  record_outcome, trim, trim_loop,
}
use supa_diska_klinah.Contract.Entries.{JournalIsSound}
use supa_diska_klinah.Service.Types.{Env, Service, PlanTicket, max_plan_changes}
use supa_diska_klinah.Service.Plans.{lookup, without, retain_fresh}
use supa_diska_klinah.Service.Planning.{
  create_plan, create_rollback_plan, rollback_changes, store_plan, preview, preview_all, repeats,
  confirm_answer,
}
use supa_diska_klinah.Service.Execution.{
  satisfied, save_journal, apply_change, write_intent, execute_standard,
}
use supa_diska_klinah.Service.Batch.{helper_items}
use supa_diska_klinah.Service.Execute.{execute, run_plan, run_changes, mark_results, report_results}
use supa_diska_klinah.Service.PlanChecks.{NoRepeats, PlannedIsSound, planned_changes, Undoes}
use supa_diska_klinah.Service.PlanLaws.{create_plan_lem, create_rollback_plan_lem, Stored}
use supa_diska_klinah.Service.SoundnessRun.{LoadsSound}
use supa_diska_klinah.Service.Confirmation.{execute_once, execute_report, Ran}
use supa_diska_klinah.Service.Lifecycle.{ServiceIsSound}
use supa_diska_klinah.Service.Reachable.{
  Reach, here, next, created, answered, executed, new_service, reachable-ServiceIsSound,
}

-- A machine with one setting, a clock and a source of identifiers.
pub record Machine : Type 0 where
  pub value : ℕ
  pub counter : ℕ
  pub clock : ℕ

abbrev setting : ℕ → SystemChange
setting n = set_user_setting (record { as_str = codes "telemetry" }) (some n)

abbrev written : SystemChange → ℕ → ℕ
written (set_user_setting _ (some n)) m = n
written _ m = m

-- What an earlier session has left: one finished change.
abbrev earlier : Journal
earlier = record {
  version = 1;
  entries =
      record {
        id = codes "e";
        plan_id = codes "q";
        recorded_at = 1;
        change = setting 5;
        prior = registry_value (some 4);
        undoing = reversible;
        inverse_change = some (setting 4);
        outcome = some applied;
        rolled_back_by = none;
      }
      ∷ [];
}

abbrev demo : Env Machine
demo = record {
  adapter = λ m. some (record {
    describe = λ change w. (
      ok (record {
        component = codes "Telemetry";
        effect = codes "set";
        restart = no_restart;
        risk = low;
      }),
      w,
    );
    observe = λ change w. (ok (registry_value (some w.value)), w);
    apply = λ change w. (ok tt, record w { value = written change w.value });
    is_satisfied = λ change state w. false;
  });
  is_supported = true;
  helper_apply = λ items w. (ok [], w);
  load = λ w. (some earlier, w);
  save = λ journal w. (true, w);
  random_id = λ w. (some (w.counter ∷ []), record w { counter = w.counter + 1 });
  unix_now = λ w. (w.clock, w);
  now = λ w. (w.clock, w);
  batch_fits = λ items. true;
}

abbrev at_start : Service Machine
at_start = new_service (record { value = 5; counter = 0; clock = 7 })

abbrev planned : ℕ → PlannedChange
planned n = record {
  change = setting n;
  system_module = privacy;
  needs = standard;
  undoing = reversible;
  impact = record {
    component = codes "Telemetry";
    effect = codes "set";
    restart = no_restart;
    risk = low;
  };
  expected_prior = registry_value (some 5);
  inverse_change = some (setting 5);
}

abbrev ticket : ℕ → PlanTicket
ticket n = record {
  plan_id = 0 ∷ [];
  changes = planned n ∷ [];
  requires_helper = false;
  expires_in_seconds = 60;
}

plan_is_created : (create_plan demo (setting 0 ∷ []) at_start).0 ≡ ok (ticket 0)
unfolding create_plan store_plan preview preview_all new_planned validate inverse inverse_of
    reversibility is_reversible module_of privilege repeats retain_fresh new_service
    Privilege-discrete SystemChange-discrete Text-discrete ℕ_discrete
plan_is_created = refl

create_plan_lem_example :
    (0 < 1)
    × (1 ≤ max_plan_changes)
    × NoRepeats (setting 0 ∷ [])
    × (planned_changes (ticket 0).changes ≡ setting 0 ∷ [])
    × All PlannedIsSound (ticket 0).changes
    × Stored demo (replicate 1 none) (ticket 0) (create_plan demo (setting 0 ∷ []) at_start).1
create_plan_lem_example = create_plan_lem demo (setting 0 ∷ []) at_start (ticket 0) plan_is_created

rollback_is_created : (create_rollback_plan demo (codes "e" ∷ []) at_start).0 ≡ ok (ticket 4)
unfolding create_rollback_plan rollback_changes find find_entry rollback_status
    RollbackStatus-discrete store_plan preview preview_all new_planned validate inverse inverse_of
    reversibility is_reversible module_of privilege repeats retain_fresh new_service
    Privilege-discrete SystemChange-discrete Text-discrete ℕ_discrete
rollback_is_created = refl

create_rollback_plan_lem_example :
    (journal : Journal) × ((demo.load at_start.world).0 ≡ some journal)
    × Undoes journal (codes "e" ∷ []) (planned_changes (ticket 4).changes)
    × Stored demo
        (map some (codes "e" ∷ []))
        (ticket 4)
        (create_rollback_plan demo (codes "e" ∷ []) at_start).1
create_rollback_plan_lem_example =
    create_rollback_plan_lem demo (codes "e" ∷ []) at_start (ticket 4) rollback_is_created

-- The plan is created and confirmed.
abbrev with_plan : Service Machine
with_plan = (create_plan demo (setting 0 ∷ []) at_start).1

abbrev confirmed : Service Machine
confirmed = (confirm_answer demo (0 ∷ []) true with_plan).1

abbrev report : ExecutionReport
report = record {
  plan_id = 0 ∷ [];
  results = record { change = setting 0; outcome = applied; journal_entry_id = some (1 ∷ []) } ∷ [];
}

plan_runs : (execute demo (0 ∷ []) confirmed).0 ≡ ok report
unfolding execute run_plan run_changes mark_results report_results save_journal helper_items
    execute_standard satisfied is_satisfied_by write_intent apply_change record_intent
    record_outcome trim trim_loop update_entry lookup without confirm_answer find find_entry
    create_plan store_plan preview preview_all new_planned validate inverse inverse_of reversibility
    is_reversible module_of privilege repeats retain_fresh new_service Privilege-discrete
    PriorState-discrete OptionValue-discrete ChangeOutcome-discrete SystemChange-discrete
    Text-discrete ℕ_discrete
plan_runs = refl

execute_report_example : Ran demo (0 ∷ []) confirmed report
execute_report_example = execute_report demo (0 ∷ []) confirmed report plan_runs

execute_once_example : lookup (0 ∷ []) (execute demo (0 ∷ []) confirmed).1.plans ≡ none
execute_once_example =
    execute_once demo (0 ∷ []) confirmed (λ e. absurd (ground (arith, plan_runs)))
      (λ e. absurd (ground (arith, plan_runs)))

earlier-JournalIsSound : JournalIsSound earlier
earlier-JournalIsSound = (
  record {
    undoing_of = unfold reversibility in refl;
    inverse_of = unfold inverse inverse_of reversibility is_reversible in refl;
  },
  tt,
)

demo-LoadsSound : LoadsSound demo
demo-LoadsSound w journal e = ground (arith, earlier-JournalIsSound)

-- create, confirm, execute
session : Reach demo at_start (execute demo (0 ∷ []) confirmed).1
session =
    next (next (next here (created (setting 0 ∷ []) refl)) (answered (0 ∷ []) true refl))
      (executed (0 ∷ []) refl)

reachable-ServiceIsSound_example : ServiceIsSound (execute demo (0 ∷ []) confirmed).1
reachable-ServiceIsSound_example =
    reachable-ServiceIsSound demo (record { value = 5; counter = 0; clock = 7 })
      (execute demo (0 ∷ []) confirmed).1 session demo-LoadsSound
