-- ===== src/Service/Confirmation.antt =====
-- When `execute` runs a plan, and that it does so once.
use supa_diska_klinah.Base.{
  ℕ, suc, ◌-◌, ◌<◌, ◌≡◌, ◌≢◌, refl, ap, ◌∙◌, inl, inr, Bool, true, false, Option, none, some, List,
  [], ◌∷◌, ◌++◌, map, Result, ok, err, arith, Text, length, replicate, Bool-cases, Option-cases,
}
use supa_diska_klinah.Contract.Types.{PriorState}
use supa_diska_klinah.Contract.Plans.{PlannedChange, ChangeResult, ExecutionReport}
use supa_diska_klinah.Contract.Journal.{Journal}
use supa_diska_klinah.Service.Types.{
  Adapter, AdapterError, Env, Service, StoredPlan, plan_lifetime, busy, not_confirmed,
}
use supa_diska_klinah.Service.Plans.{lookup, without, lookup-without_self, PlanMap}
use supa_diska_klinah.Service.Execution.{
  execute_standard, standard_apply, standard_observed, standard_with, write_intent, intent_with_id,
  is_helper, call_helper, save_journal, apply_change,
}
use supa_diska_klinah.Service.Batch.{
  Results, write_intents, after_intents, execute_helper_batch, helper_items,
}
use supa_diska_klinah.Service.Execute.{
  run_changes, run_plan, execute, with_journal, take_plan, when_confirmed, when_found,
}
use supa_diska_klinah.Service.Reports.{run_plan-changes}

module _ {W : Type 0} (env : Env W) (m : PlanMap) where
  abbrev Kept : Service W → Type 0
  Kept s = s.plans ≡ m

  save-Kept : (journal : Journal) (s : Service W) → Kept s → Kept (save_journal env journal s).1
  unfolding save_journal
  save-Kept journal s h = h

  intent_with_id-Kept :
      (plan_id : Text) (planned : PlannedChange) (prior : PriorState) (journal : Journal)
      (id : Option Text) (s : Service W)
      → Kept s
      → Kept (intent_with_id env plan_id planned prior journal id s).2
  unfolding save_journal
  intent_with_id-Kept plan_id planned prior journal none s h = h
  intent_with_id-Kept plan_id planned prior journal (some id) s h = h

  write_intent-Kept :
      (plan_id : Text) (planned : PlannedChange) (prior : PriorState) (journal : Journal)
      (s : Service W)
      → Kept s
      → Kept (write_intent env plan_id planned prior journal s).2
  unfolding write_intent
  write_intent-Kept plan_id planned prior journal s h =
      intent_with_id-Kept plan_id planned prior journal (env.random_id s.world).0
        (record s { world = (env.random_id s.world).1 }) h

  standard_apply-Kept :
      (adapter : Adapter W) (planned : PlannedChange) (r : Option Text × Journal × Service W)
      → Kept r.2
      → Kept (standard_apply env adapter planned r).2
  unfolding apply_change save_journal
  standard_apply-Kept adapter planned (none, journal, s) h = h
  standard_apply-Kept adapter planned (some id, journal, s) h = h

  standard_observed-Kept :
      (plan_id : Text) (adapter : Adapter W) (planned : PlannedChange) (journal : Journal)
      (r : Result AdapterError PriorState × W) (s : Service W)
      → Kept s
      → Kept (standard_observed env plan_id adapter planned journal r s).2
  standard_observed-Kept plan_id adapter planned journal (err e, w) s h = h
  standard_observed-Kept plan_id adapter planned journal (ok current, w) s h = ground (
    arith,
    standard_apply-Kept adapter planned
        (write_intent env plan_id planned current journal (record s { world = w }))
        (write_intent-Kept plan_id planned current journal (record s { world = w }) h),
  )

  standard_with-Kept :
      (plan_id : Text) (adapter : Option (Adapter W)) (planned : PlannedChange) (journal : Journal)
      (s : Service W)
      → Kept s
      → Kept (standard_with env plan_id adapter planned journal s).2
  standard_with-Kept plan_id none planned journal s h = h
  standard_with-Kept plan_id (some adapter) planned journal s h =
      standard_observed-Kept plan_id adapter planned journal
        (adapter.observe planned.change s.world) s h

  write_intents-Kept :
      (plan_id : Text) (items : List (ℕ × PlannedChange)) (ids : List Text) (journal : Journal)
      (s : Service W)
      → Kept s
      → Kept (write_intents env plan_id items ids journal s).3
  unfolding write_intents
  write_intents-Kept plan_id [] ids journal s h = h
  write_intents-Kept plan_id ((index, planned) ∷ rest) ids journal s h =
      let r = write_intent env plan_id planned planned.expected_prior journal s in
      let kept = write_intent-Kept plan_id planned planned.expected_prior journal s h in
      elim (Option-cases r.0) [
        | inl e ↦ rw (e, write_intents) kept
        | inr (id, e) ↦
            rw (e, write_intents) (write_intents-Kept plan_id rest (ids ++ id ∷ []) r.1 r.2 kept)
      ]

  after_intents-Kept :
      (items : List (ℕ × PlannedChange)) (rs : Results) (r : Bool × List Text × Journal × Service W)
      → Kept r.3
      → Kept (after_intents env items rs r).2
  unfolding save_journal call_helper
  after_intents-Kept items rs (false, ids, j, s) h = h
  after_intents-Kept items rs (true, ids, j, s) h = h

  run_changes-Kept :
      (plan_id : Text) (items : List (ℕ × PlannedChange)) (index : ℕ) (rest : List PlannedChange)
      (helper_done : Bool) (journal : Journal) (rs : Results) (s : Service W)
      → Kept s
      → Kept (run_changes env plan_id items index rest helper_done journal rs s).2
  unfolding run_changes execute_helper_batch execute_standard
  run_changes-Kept plan_id items index [] helper_done journal rs s h = h
  run_changes-Kept plan_id items index (p ∷ rest) true journal rs s h =
      elim (Bool-cases (is_helper p)) [
        | inl e ↦
            rw (e, run_changes)
              (run_changes-Kept plan_id items (suc index) rest true journal rs s h)
        | inr e ↦
            rw (e, run_changes)
              (run_changes-Kept plan_id items (suc index) rest true _ _ _
                (standard_with-Kept plan_id (env.adapter p.system_module) p journal s h))
      ]
  run_changes-Kept plan_id items index (p ∷ rest) false journal rs s h =
      elim (Bool-cases (is_helper p)) [
        | inl e ↦
            rw (e, run_changes)
              (run_changes-Kept plan_id items (suc index) rest true _ _ _ (
                after_intents-Kept items rs (write_intents env plan_id items [] journal s)
                  (write_intents-Kept plan_id items [] journal s h)))
        | inr e ↦
            rw (e, run_changes)
              (run_changes-Kept plan_id items (suc index) rest false _ _ _
                (standard_with-Kept plan_id (env.adapter p.system_module) p journal s h))
      ]

  run_plan-Kept :
      (plan_id : Text) (plan : StoredPlan) (journal : Journal) (s : Service W)
      → Kept s
      → Kept (run_plan env plan_id plan journal s).1
  unfolding run_plan save_journal
  run_plan-Kept plan_id plan journal s h =
      run_changes-Kept plan_id (helper_items 0 plan.changes) 0 plan.changes false journal
        (replicate (length plan.changes) none) s h

  with_journal-Kept :
      (plan_id : Text) (plan : StoredPlan) (loaded : Option Journal × W) (s : Service W)
      → Kept s
      → Kept (with_journal env plan_id plan loaded s).1
  with_journal-Kept plan_id plan (none, w) s h = h
  with_journal-Kept plan_id plan (some journal, w) s h =
      run_plan-Kept plan_id plan journal (record s { world = w }) h

module _ {W : Type 0} (env : Env W) where
  pub take_plan-plans :
      (plan_id : Text) (plan : StoredPlan) (confirmed : ℕ) (now : ℕ × W) (s : Service W)
      → (take_plan env plan_id plan confirmed now s).1.plans ≡ without plan_id s.plans
  take_plan-plans plan_id plan confirmed (now, w) s =
      let taken : Service W = record s { world = w; plans = without plan_id s.plans } in
      ground (
        arith,
        with_journal-Kept env (without plan_id s.plans) plan_id plan (env.load w) taken refl,
      )

  when_confirmed_once :
      (plan_id : Text) (plan : StoredPlan) (confirmed : Option ℕ) (s : Service W)
      → (when_confirmed env plan_id plan confirmed s).0 ≢ err not_confirmed
      → lookup plan_id (when_confirmed env plan_id plan confirmed s).1.plans ≡ none
  when_confirmed_once plan_id plan none s n = absurd (n refl)
  when_confirmed_once plan_id plan (some t) s n =
      ap (lookup plan_id) (take_plan-plans plan_id plan t (env.now s.world) s)
      ∙ lookup-without_self plan_id s.plans

  when_found_once :
      (plan_id : Text) (found : Option StoredPlan) (s : Service W)
      → lookup plan_id s.plans ≡ found
      → (when_found env plan_id found s).0 ≢ err not_confirmed
      → lookup plan_id (when_found env plan_id found s).1.plans ≡ none
  when_found_once plan_id none s e n = e
  when_found_once plan_id (some plan) s e n = when_confirmed_once plan_id plan plan.confirmed_at s n

  -- Unless execute answers that it is busy or that the plan is not confirmed, no plan is stored
  -- under the identifier afterwards, so a plan runs at most once.
  pub execute_once :
      (plan_id : Text) (s : Service W)
      → (execute env plan_id s).0 ≢ err busy
      → (execute env plan_id s).0 ≢ err not_confirmed
      → lookup plan_id (execute env plan_id s).1.plans ≡ none
  unfolding execute
  execute_once plan_id s b n = elim (Bool-cases s.running) [
    | inl r ↦ absurd (b (simp r))
    | inr r ↦ simp r (when_found_once plan_id (lookup plan_id s.plans) s refl (simp r at n))
  ]

  abbrev pub Ran : Text → Service W → ExecutionReport → Type 0
  Ran plan_id s report =
      (plan : StoredPlan) × (confirmed : ℕ) × (s.running ≡ false)
      × (lookup plan_id s.plans ≡ some plan)
      × (plan.confirmed_at ≡ some confirmed)
      × ((env.now s.world).0 - confirmed < plan_lifetime)
      × (map (λ (r : ChangeResult). r.change) report.results
          ≡ map (λ (p : PlannedChange). p.change) plan.changes)

  with_journal_report :
      (plan_id : Text) (plan : StoredPlan) (loaded : Option Journal × W) (s : Service W)
      (report : ExecutionReport)
      → (with_journal env plan_id plan loaded s).0 ≡ ok report
      → map (λ (r : ChangeResult). r.change) report.results
        ≡ map (λ (p : PlannedChange). p.change) plan.changes
  with_journal_report plan_id plan (none, w) s report h = cc
  with_journal_report plan_id plan (some journal, w) s report h =
      ground (arith, run_plan-changes env plan_id plan journal (record s { world = w }))

  take_plan_report :
      (plan_id : Text) (plan : StoredPlan) (confirmed : ℕ) (now : ℕ × W) (s : Service W)
      (report : ExecutionReport)
      → (take_plan env plan_id plan confirmed now s).0 ≡ ok report
      → (now.0 - confirmed < plan_lifetime)
        × (map (λ (r : ChangeResult). r.change) report.results
            ≡ map (λ (p : PlannedChange). p.change) plan.changes)
  take_plan_report plan_id plan confirmed (now, w) s report h =
      let taken : Service W = record s { world = w; plans = without plan_id s.plans } in
      ground (arith, with_journal_report plan_id plan (env.load w) taken report)

  when_confirmed_report :
      (plan_id : Text) (plan : StoredPlan) (confirmed : Option ℕ) (s : Service W)
      (report : ExecutionReport)
      → s.running ≡ false
      → lookup plan_id s.plans ≡ some plan
      → plan.confirmed_at ≡ confirmed
      → (when_confirmed env plan_id plan confirmed s).0 ≡ ok report
      → Ran plan_id s report
  when_confirmed_report plan_id plan none s report r l c h = cc
  when_confirmed_report plan_id plan (some t) s report r l c h =
      let (fresh, same_changes) = take_plan_report plan_id plan t (env.now s.world) s report h in
      (plan, t, r, l, c, fresh, same_changes)

  when_found_report :
      (plan_id : Text) (found : Option StoredPlan) (s : Service W) (report : ExecutionReport)
      → s.running ≡ false
      → lookup plan_id s.plans ≡ found
      → (when_found env plan_id found s).0 ≡ ok report
      → Ran plan_id s report
  when_found_report plan_id none s report r l h = cc
  when_found_report plan_id (some plan) s report r l h =
      when_confirmed_report plan_id plan plan.confirmed_at s report r l refl h

  -- If execute returns a report, then no other execution was running, the plan was stored, it was
  -- confirmed less than the plan lifetime before, and the report names exactly the changes of the
  -- plan, in its order.
  pub execute_report :
      (plan_id : Text) (s : Service W) (report : ExecutionReport)
      → (execute env plan_id s).0 ≡ ok report
      → Ran plan_id s report
  unfolding execute
  execute_report plan_id s report h = elim (Bool-cases s.running) [
    | inl r ↦ absurd (ground arith)
    | inr r ↦ when_found_report plan_id (lookup plan_id s.plans) s report r refl (simp r at h)
  ]
