-- ===== src/Service/Lifecycle.antt =====
-- The service as a state machine: every call that a client can make, and the changes that others
-- make in the world between the calls.
use supa_diska_klinah.Base.{
  ℕ, ◌≡◌, refl, Bool, true, false, Option, none, some, List, [], ◌∷◌, map, Result, ok, err, arith,
  Text, All,
}
use supa_diska_klinah.Contract.Types.{SystemChange, PriorState}
use supa_diska_klinah.Contract.Changes.{module_of}
use supa_diska_klinah.Contract.Plans.{PlannedChange, ChangeOutcome}
use supa_diska_klinah.Contract.Journal.{Journal, JournalEntry}
use supa_diska_klinah.Contract.Entries.{JournalIsSound, record_outcome-JournalIsSound}
use supa_diska_klinah.Service.Types.{
  Adapter, AdapterError, Env, Service, StoredPlan, SystemChangeError,
}
use supa_diska_klinah.Service.Plans.{lookup, without, retain_fresh, PlanMap}
use supa_diska_klinah.Service.Planning.{
  preview_all, store_at, store_identified, store_previewed, store_plan, rollback_changes,
  store_rollback, rollback_loaded, start_found, confirm_answer, answer_found,
}
use supa_diska_klinah.Service.PlanChecks.{PlannedIsSound}
use supa_diska_klinah.Service.PlanLaws.{preview_all_lem}
use supa_diska_klinah.Service.Execute.{execute, when_found, when_confirmed}
use supa_diska_klinah.Service.Recovery.{
  settle_pending, settle_entry, settle_with, settle_observed, settled_by, verdict,
}
use supa_diska_klinah.Service.WriteAhead.{WriteAhead}
use supa_diska_klinah.Service.Confirmation.{take_plan-plans}
use supa_diska_klinah.Service.Soundness.{PlansSound, SavedSound, lookup_sound}

-- What holds between two calls.
pub record ServiceIsSound {W : Type 0} (s : Service W) : Type 0 where
  pub plans : PlansSound s.plans
  pub saved_journals : SavedSound s.events
  pub write_ahead : WriteAhead s.events

without_sound : (id : Text) (m : PlanMap) → PlansSound m → PlansSound (without id m)
unfolding without
without_sound id [] a = tt
without_sound id ((key, p) ∷ m) a = ground (arith, without_sound id m a.1)

retain_sound : (now : ℕ) (m : PlanMap) → PlansSound m → PlansSound (retain_fresh now m)
unfolding retain_fresh
retain_sound now [] a = tt
retain_sound now ((key, p) ∷ m) a = ground (arith, retain_sound now m a.1)

module _ {W : Type 0} (env : Env W) where
  -- the plans stay sound, and nothing happens to the system or to the journal
  abbrev pub Quiet : Service W → Service W → Type 0
  Quiet s t = PlansSound t.plans × (t.events ≡ s.events)

  store_at-Quiet :
      (ps : List PlannedChange) (rollback_of : List (Option Text)) (id : Text) (now : ℕ × W)
      (s : Service W)
      → PlansSound s.plans
      → All PlannedIsSound ps
      → Quiet s (store_at env ps rollback_of id now s).1
  store_at-Quiet ps rollback_of id (now, w) s m a =
      ((a, without_sound id _ (retain_sound now s.plans m)), refl)

  store_identified-Quiet :
      (ps : List PlannedChange) (rollback_of : List (Option Text)) (id : Option Text × W)
      (s : Service W)
      → PlansSound s.plans
      → All PlannedIsSound ps
      → Quiet s (store_identified env ps rollback_of id s).1
  store_identified-Quiet ps rollback_of (none, w) s m a = (m, refl)
  store_identified-Quiet ps rollback_of (some id, w) s m a =
      store_at-Quiet ps rollback_of id (env.now w) (record s { world = w }) m a

  store_previewed-Quiet :
      (rollback_of : List (Option Text)) (r : Result SystemChangeError (List PlannedChange) × W)
      (s : Service W)
      → PlansSound s.plans
      → ((ps : List PlannedChange) → r.0 ≡ ok ps → All PlannedIsSound ps)
      → Quiet s (store_previewed env rollback_of r s).1
  store_previewed-Quiet rollback_of (err e, w) s m a = (m, refl)
  store_previewed-Quiet rollback_of (ok ps, w) s m a = ground (
    arith,
    store_identified-Quiet ps rollback_of (env.random_id w) (record s { world = w }) m (a ps refl),
  )

  pub store_plan-Quiet :
      (changes : List SystemChange) (rollback_of : List (Option Text)) (s : Service W)
      → PlansSound s.plans
      → Quiet s (store_plan env changes rollback_of s).1
  unfolding store_plan
  store_plan-Quiet [] rollback_of s m = (m, refl)
  store_plan-Quiet (c ∷ cs) rollback_of s m =
      let r = preview_all env (c ∷ cs) s.world in
      ground (
        arith,
        store_previewed-Quiet rollback_of r s m
            (λ ps e. (preview_all_lem env (c ∷ cs) s.world ps e).0),
      )

  store_rollback-Quiet :
      (ids : List Text) (r : Result SystemChangeError (List SystemChange)) (s : Service W)
      → PlansSound s.plans
      → Quiet s (store_rollback env ids r s).1
  store_rollback-Quiet ids (err e) s m = (m, refl)
  store_rollback-Quiet ids (ok changes) s m = store_plan-Quiet changes (map some ids) s m

  pub rollback_loaded-Quiet :
      (ids : List Text) (loaded : Option Journal × W) (s : Service W)
      → PlansSound s.plans
      → Quiet s (rollback_loaded env ids loaded s).1
  rollback_loaded-Quiet ids (none, w) s m = (m, refl)
  rollback_loaded-Quiet ids (some journal, w) s m =
      store_rollback-Quiet ids (rollback_changes journal ids) (record s { world = w }) m

  pub start_found-Quiet :
      (found : Option StoredPlan) (s : Service W)
      → PlansSound s.plans
      → Quiet s (start_found env found s).1
  start_found-Quiet none s m = (m, refl)
  start_found-Quiet (some plan) s m = (m, refl)

  answer_found-Quiet :
      (id : Text) (found : Option StoredPlan) (s : Service W)
      → PlansSound s.plans
      → lookup id s.plans ≡ found
      → Quiet s (answer_found env id found s).1
  answer_found-Quiet id none s m e = (m, refl)
  answer_found-Quiet id (some plan) s m e =
      ((lookup_sound id s.plans plan m e, without_sound id s.plans m), refl)

  pub confirm_answer-Quiet :
      (id : Text) (yes_given : Bool) (s : Service W)
      → PlansSound s.plans
      → Quiet s (confirm_answer env id yes_given s).1
  unfolding confirm_answer
  confirm_answer-Quiet id false s m = (without_sound id s.plans m, refl)
  confirm_answer-Quiet id true s m = answer_found-Quiet id (lookup id s.plans) s m refl

  when_found-plans :
      (id : Text) (found : Option StoredPlan) (s : Service W)
      → PlansSound s.plans
      → PlansSound (when_found env id found s).1.plans
  when_found-plans id none s m = m
  when_found-plans id (some plan) s m = started plan.confirmed_at
    where
      started : (confirmed : Option ℕ) → PlansSound (when_confirmed env id plan confirmed s).1.plans
      started none = m
      started (some confirmed) =
          rw (take_plan-plans env id plan confirmed (env.now s.world) s)
            (without_sound id s.plans m)

  pub execute-plans :
      (id : Text) (s : Service W) → PlansSound s.plans → PlansSound (execute env id s).1.plans
  unfolding execute
  execute-plans id s m = ground (arith, when_found-plans id (lookup id s.plans) s m)

  settled_by_sound :
      (entry : JournalEntry) (o : Option ChangeOutcome) (state : Journal × ℕ)
      → JournalIsSound state.0
      → JournalIsSound (settled_by env entry o state).0
  settled_by_sound entry none (journal, n) h = h
  settled_by_sound entry (some o) (journal, n) h =
      record_outcome-JournalIsSound journal entry.id o none h

  settle_with_sound :
      (adapter : Option (Adapter W)) (entry : JournalEntry) (state : Journal × ℕ) (w : W)
      → JournalIsSound state.0
      → JournalIsSound (settle_with env adapter entry state w).0.0
  settle_with_sound none entry state w h = h
  settle_with_sound (some adapter) entry state w h = observed (adapter.observe entry.change w)
    where
      observed :
          (r : Result AdapterError PriorState × W)
          → JournalIsSound (settle_observed env adapter entry r state).0.0
      observed (err e, w') = h
      observed (ok current, w') = settled_by_sound entry (verdict adapter entry current w') state h

  pub settle_pending_sound :
      (pending : List JournalEntry) (state : Journal × ℕ) (w : W)
      → JournalIsSound state.0
      → JournalIsSound (settle_pending env pending state w).0.0
  unfolding settle_pending settle_entry
  settle_pending_sound [] state w h = h
  settle_pending_sound (entry ∷ rest) state w h =
      settle_pending_sound rest _ _
        (settle_with_sound (env.adapter (module_of entry.change)) entry state w h)
