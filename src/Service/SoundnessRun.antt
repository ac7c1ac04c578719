-- ===== src/Service/SoundnessRun.antt =====
-- The journals that `execute` of crates/windows-platform/src/system_change/mod.rs saves.
use supa_diska_klinah.Base.{
  ℕ, suc, ◌≡◌, refl, inl, inr, Bool, true, false, Option, none, some, List, [], ◌∷◌, arith, Text,
  length, replicate, All, Bool-cases,
}
use supa_diska_klinah.Contract.Plans.{PlannedChange}
use supa_diska_klinah.Contract.Journal.{Journal}
use supa_diska_klinah.Contract.Entries.{JournalIsSound}
use supa_diska_klinah.Service.Types.{Env, Service, StoredPlan}
use supa_diska_klinah.Service.Plans.{lookup, without}
use supa_diska_klinah.Service.Execution.{is_helper}
use supa_diska_klinah.Service.Batch.{Results, helper_items}
use supa_diska_klinah.Service.Execute.{
  run_changes, mark_results, run_plan, execute, with_journal, take_plan, when_confirmed, when_found,
}
use supa_diska_klinah.Service.Soundness.{
  SavedSound, Undoable, PlansSound, Fine, Undoable-sound, lookup_sound, helper_items-Undoable,
  mark_sound, ItemsUndoable, save_sound, execute_standard-Fine, execute_helper_batch-Fine,
}

module _ {W : Type 0} (env : Env W) where
  run_changes-Fine :
      (plan_id : Text) (items : List (ℕ × PlannedChange)) (index : ℕ) (rest : List PlannedChange)
      (helper_done : Bool) (journal : Journal) (rs : Results) (s : Service W)
      → ItemsUndoable items
      → All Undoable rest
      → Fine journal s
      → let t = run_changes env plan_id items index rest helper_done journal rs s in Fine t.0 t.2
  unfolding run_changes
  run_changes-Fine plan_id items index [] helper_done journal rs s u v h = h
  run_changes-Fine plan_id items index (p ∷ rest) true journal rs s u v h =
      elim (Bool-cases (is_helper p)) [
        | inl e ↦
            rw (e, run_changes)
              (run_changes-Fine plan_id items (suc index) rest true journal rs s u v.1 h)
        | inr e ↦
            rw (e, run_changes)
              (run_changes-Fine plan_id items (suc index) rest true _ _ _ u v.1
                (execute_standard-Fine env plan_id p journal s v.0 h))
      ]
  run_changes-Fine plan_id items index (p ∷ rest) false journal rs s u v h =
      elim (Bool-cases (is_helper p)) [
        | inl e ↦
            rw (e, run_changes)
              (run_changes-Fine plan_id items (suc index) rest true _ _ _ u v.1
                (execute_helper_batch-Fine env plan_id items journal rs s u h))
        | inr e ↦
            rw (e, run_changes)
              (run_changes-Fine plan_id items (suc index) rest false _ _ _ u v.1
                (execute_standard-Fine env plan_id p journal s v.0 h))
      ]

  run_plan-SavedSound :
      (plan_id : Text) (plan : StoredPlan) (journal : Journal) (s : Service W)
      → All Undoable plan.changes
      → Fine journal s
      → SavedSound (run_plan env plan_id plan journal s).1.events
  unfolding run_plan
  run_plan-SavedSound plan_id plan journal s u h =
      let items = helper_items 0 plan.changes in
      let blank : Results = replicate (length plan.changes) none in
      let (journal', results, s') =
        run_changes env plan_id items 0 plan.changes false journal blank s in
      let fine =
        run_changes-Fine plan_id items 0 plan.changes false journal blank s
          (helper_items-Undoable 0 plan.changes u) u h in
      save_sound env (mark_results results plan.rollback_of journal') s'
        (mark_sound results plan.rollback_of journal' fine.0, fine.1)

  -- Whatever the journal store loads is sound.
  abbrev pub LoadsSound : Type 0
  LoadsSound = (w : W) (journal : Journal) → (env.load w).0 ≡ some journal → JournalIsSound journal

  with_journal-SavedSound :
      (plan_id : Text) (plan : StoredPlan) (loaded : Option Journal × W) (s : Service W)
      → ((journal : Journal) → loaded.0 ≡ some journal → JournalIsSound journal)
      → All Undoable plan.changes
      → SavedSound s.events
      → SavedSound (with_journal env plan_id plan loaded s).1.events
  with_journal-SavedSound plan_id plan (none, w) s l u h = h
  with_journal-SavedSound plan_id plan (some journal, w) s l u h =
      run_plan-SavedSound plan_id plan journal (record s { world = w }) u (l journal refl, h)

  take_plan-SavedSound :
      (plan_id : Text) (plan : StoredPlan) (confirmed : ℕ) (now : ℕ × W) (s : Service W)
      → LoadsSound
      → All Undoable plan.changes
      → SavedSound s.events
      → SavedSound (take_plan env plan_id plan confirmed now s).1.events
  take_plan-SavedSound plan_id plan confirmed (now, w) s l u h =
      let taken : Service W = record s { world = w; plans = without plan_id s.plans } in
      ground (arith, with_journal-SavedSound plan_id plan (env.load w) taken (l w) u h)

  when_found-SavedSound :
      (plan_id : Text) (found : Option StoredPlan) (s : Service W)
      → LoadsSound
      → PlansSound s.plans
      → lookup plan_id s.plans ≡ found
      → SavedSound s.events
      → SavedSound (when_found env plan_id found s).1.events
  when_found-SavedSound plan_id none s l q e h = h
  when_found-SavedSound plan_id (some plan) s l q e h = started plan.confirmed_at
    where
      started :
          (confirmed : Option ℕ) → SavedSound (when_confirmed env plan_id plan confirmed s).1.events
      started none = h
      started (some confirmed) =
          take_plan-SavedSound plan_id plan confirmed (env.now s.world) s l
            (Undoable-sound plan.changes (lookup_sound plan_id s.plans plan q e)) h

  -- an execution saves sound journals only
  pub execute-SavedSound :
      (plan_id : Text) (s : Service W)
      → LoadsSound
      → PlansSound s.plans
      → SavedSound s.events
      → SavedSound (execute env plan_id s).1.events
  unfolding execute
  execute-SavedSound plan_id s l q h =
      ground (arith, when_found-SavedSound plan_id (lookup plan_id s.plans) s l q refl h)
