-- ===== src/Service/WriteAheadRun.antt =====
-- The write-ahead discipline of a helper batch and of a whole execution.
use supa_diska_klinah.Base.{
  ℕ, suc, ◌≡◌, inl, inr, Bool, true, false, Option, none, some, List, [], ◌∷◌, map, arith, Text,
  length, replicate, All, Any, Bool-cases,
}
use supa_diska_klinah.Contract.Plans.{PlannedChange}
use supa_diska_klinah.Contract.Journal.{Journal, interrupted_entries}
use supa_diska_klinah.Service.Types.{Env, Event, saved, Service, StoredPlan}
use supa_diska_klinah.Service.Plans.{lookup, without}
use supa_diska_klinah.Service.Execution.{call_helper, is_helper}
use supa_diska_klinah.Service.Batch.{
  Results, request, write_intents, after_intents, execute_helper_batch, helper_items,
}
use supa_diska_klinah.Service.Execute.{
  run_changes, mark_results, run_plan, execute, with_journal, take_plan, when_confirmed, when_found,
}
use supa_diska_klinah.Service.WriteAhead.{
  WriteAhead, JustSaved, OpensWith, Head, WroteAll, write_intents_lem, save-WriteAhead,
  execute_standard-WriteAhead,
}

module _ {W : Type 0} (env : Env W) where
  requests_saved :
      (items : List (ℕ × PlannedChange)) (journal : Journal) (events evs : List Event)
      → events ≡ saved journal ∷ evs
      → All (λ item. Any (OpensWith (request item)) (interrupted_entries journal)) items
      → All (λ item. JustSaved (OpensWith item) events) (map request items)
  requests_saved [] journal events evs p a = tt
  requests_saved (item ∷ items) journal events evs p (a, as') =
      (rw p a, requests_saved items journal events evs p as')

  batch_saved :
      (items : List (ℕ × PlannedChange)) (journal j : Journal) (s s' : Service W)
      → Head env items journal s j s'
      → All (λ item. Any (OpensWith (request item)) (interrupted_entries j)) items
      → All (λ item. JustSaved (OpensWith item) s'.events) (map request items)
  batch_saved [] journal j s s' head a = tt
  batch_saved (item ∷ items) journal j s s' (evs, p) a =
      requests_saved (item ∷ items) j s'.events evs p a

  after_intents-WriteAhead :
      (items : List (ℕ × PlannedChange)) (results : Results) (journal : Journal) (s : Service W)
      (r : Bool × List Text × Journal × Service W)
      → WroteAll env items journal s r
      → WriteAhead (after_intents env items results r).2.events
  after_intents-WriteAhead items results journal s (false, ids, j, s') h = save-WriteAhead env _ _ h
  after_intents-WriteAhead items results journal s (true, ids, j, s') (h, all, ext, head) =
      save-WriteAhead env _ _ (unfold call_helper in (batch_saved items journal j s s' head all, h))

  execute_helper_batch-WriteAhead :
      (plan_id : Text) (items : List (ℕ × PlannedChange)) (journal : Journal) (results : Results)
      (s : Service W)
      → WriteAhead s.events
      → WriteAhead (execute_helper_batch env plan_id items journal results s).2.events
  unfolding execute_helper_batch
  execute_helper_batch-WriteAhead plan_id items journal results s h =
      after_intents-WriteAhead items results journal s
        (write_intents env plan_id items [] journal s)
        (write_intents_lem env plan_id items [] journal s h)

  run_changes-WriteAhead :
      (plan_id : Text) (items : List (ℕ × PlannedChange)) (index : ℕ) (changes : List PlannedChange)
      (helper_done : Bool) (journal : Journal) (results : Results) (s : Service W)
      → WriteAhead s.events
      → WriteAhead
          (run_changes env plan_id items index changes helper_done journal results s).2.events
  unfolding run_changes
  run_changes-WriteAhead plan_id items index [] helper_done journal results s h = h
  run_changes-WriteAhead plan_id items index (planned ∷ rest) true journal results s h =
      elim (Bool-cases (is_helper planned)) [
        | inl p ↦
            rw (p, run_changes)
              (run_changes-WriteAhead plan_id items (suc index) rest true journal results s h)
        | inr p ↦
            rw (p, run_changes)
              (run_changes-WriteAhead plan_id items (suc index) rest true _ _ _
                (execute_standard-WriteAhead env plan_id planned journal s h))
      ]
  run_changes-WriteAhead plan_id items index (planned ∷ rest) false journal results s h =
      elim (Bool-cases (is_helper planned)) [
        | inl p ↦
            rw (p, run_changes)
              (run_changes-WriteAhead plan_id items (suc index) rest true _ _ _
                (execute_helper_batch-WriteAhead plan_id items journal results s h))
        | inr p ↦
            rw (p, run_changes)
              (run_changes-WriteAhead plan_id items (suc index) rest false _ _ _
                (execute_standard-WriteAhead env plan_id planned journal s h))
      ]

  run_plan-WriteAhead :
      (plan_id : Text) (plan : StoredPlan) (journal : Journal) (s : Service W)
      → WriteAhead s.events
      → WriteAhead (run_plan env plan_id plan journal s).1.events
  unfolding run_plan
  run_plan-WriteAhead plan_id plan journal s h =
      let items = helper_items 0 plan.changes in
      let blank : Results = replicate (length plan.changes) none in
      let (journal', results, s') =
        run_changes env plan_id items 0 plan.changes false journal blank s in
      save-WriteAhead env (mark_results results plan.rollback_of journal') s'
        (run_changes-WriteAhead plan_id items 0 plan.changes false journal blank s h)

  with_journal-WriteAhead :
      (plan_id : Text) (plan : StoredPlan) (loaded : Option Journal × W) (s : Service W)
      → WriteAhead s.events
      → WriteAhead (with_journal env plan_id plan loaded s).1.events
  with_journal-WriteAhead plan_id plan (none, w) s h = h
  with_journal-WriteAhead plan_id plan (some journal, w) s h =
      run_plan-WriteAhead plan_id plan journal (record s { world = w }) h

  take_plan-WriteAhead :
      (plan_id : Text) (plan : StoredPlan) (confirmed : ℕ) (now : ℕ × W) (s : Service W)
      → WriteAhead s.events
      → WriteAhead (take_plan env plan_id plan confirmed now s).1.events
  take_plan-WriteAhead plan_id plan confirmed (now, w) s h =
      let taken : Service W = record s { world = w; plans = without plan_id s.plans } in
      ground (arith, with_journal-WriteAhead plan_id plan (env.load w) taken h)

  when_confirmed-WriteAhead :
      (plan_id : Text) (plan : StoredPlan) (confirmed : Option ℕ) (s : Service W)
      → WriteAhead s.events
      → WriteAhead (when_confirmed env plan_id plan confirmed s).1.events
  when_confirmed-WriteAhead plan_id plan none s h = h
  when_confirmed-WriteAhead plan_id plan (some confirmed) s h =
      take_plan-WriteAhead plan_id plan confirmed (env.now s.world) s h

  when_found-WriteAhead :
      (plan_id : Text) (found : Option StoredPlan) (s : Service W)
      → WriteAhead s.events
      → WriteAhead (when_found env plan_id found s).1.events
  when_found-WriteAhead plan_id none s h = h
  when_found-WriteAhead plan_id (some plan) s h =
      when_confirmed-WriteAhead plan_id plan plan.confirmed_at s h

  pub execute-WriteAhead :
      (plan_id : Text) (s : Service W)
      → WriteAhead s.events
      → WriteAhead (execute env plan_id s).1.events
  unfolding execute
  execute-WriteAhead plan_id s h =
      ground (arith, when_found-WriteAhead plan_id (lookup plan_id s.plans) s h)
