-- ===== src/Service/Soundness.antt =====
-- The journals that `execute` saves: every entry carries the undo information of its change.
use supa_diska_klinah.Base.{
  ℕ, suc, ◌≡◌, refl, inl, inr, Bool, true, false, Option, none, some, List, [], ◌∷◌, ◌++◌, map,
  Result, ok, err, arith, Text, All, Option-cases,
}
use supa_diska_klinah.Contract.Types.{PriorState}
use supa_diska_klinah.Contract.Changes.{reversibility}
use supa_diska_klinah.Contract.Plans.{PlannedChange, ChangeOutcome}
use supa_diska_klinah.Contract.Journal.{Journal}
use supa_diska_klinah.Contract.Entries.{
  JournalIsSound, record_intent-JournalIsSound, record_outcome-JournalIsSound,
  mark_rolled_back-JournalIsSound,
}
use supa_diska_klinah.Service.Types.{
  Adapter, AdapterError, Env, Event, saved, applied_change, called_helper, Service, StoredPlan,
  HelperClientError, HelperItemResult,
}
use supa_diska_klinah.Service.Plans.{lookup, PlanMap}
use supa_diska_klinah.Service.PlanChecks.{PlannedIsSound}
use supa_diska_klinah.Service.Execution.{
  execute_standard, standard_apply, standard_observed, standard_with, write_intent, intent_with_id,
  intent, call_helper, save_journal, apply_change,
}
use supa_diska_klinah.Service.Batch.{
  Results, request, write_intents, after_intents, execute_helper_batch, helper_items, settle_items,
  abandon_items, record_some, answer_at,
}
use supa_diska_klinah.Service.Execute.{mark_results, mark_some, rolled_back_entry}

-- Every journal that was saved is sound.
abbrev pub SavedSound : List Event → Type 0
SavedSound [] = Unit
SavedSound (saved journal ∷ events) = JournalIsSound journal × SavedSound events
SavedSound (applied_change _ ∷ events) = SavedSound events
SavedSound (called_helper _ ∷ events) = SavedSound events

abbrev pub Undoable : PlannedChange → Type 0
Undoable p = p.undoing ≡ reversibility p.change

abbrev pub PlansSound : PlanMap → Type 0
PlansSound m = All (λ (kp : Text × StoredPlan). All PlannedIsSound kp.1.changes) m

abbrev pub Fine : {W : Type 0} → Journal → Service W → Type 0
Fine journal s = JournalIsSound journal × SavedSound s.events

pub Undoable-sound : (ps : List PlannedChange) → All PlannedIsSound ps → All Undoable ps
Undoable-sound [] a = tt
Undoable-sound (p ∷ ps) a = (a.0.undoing_is, Undoable-sound ps a.1)

pub lookup_sound :
    (id : Text) (m : PlanMap) (plan : StoredPlan)
    → PlansSound m
    → lookup id m ≡ some plan
    → All PlannedIsSound plan.changes
unfolding lookup
lookup_sound id [] plan a h = cc
lookup_sound id ((key, p) ∷ m) plan a h = ground (arith, lookup_sound id m plan a.1)

pub helper_items-Undoable :
    (index : ℕ) (ps : List PlannedChange)
    → All Undoable ps
    → All (λ (i : ℕ × PlannedChange). Undoable i.1) (helper_items index ps)
unfolding helper_items
helper_items-Undoable index [] a = tt
helper_items-Undoable index (p ∷ ps) a = ground (arith, helper_items-Undoable (suc index) ps a.1)

record_some_sound :
    (journal : Journal) (id : Text) (o : Option ChangeOutcome) (p : Option PriorState)
    → JournalIsSound journal
    → JournalIsSound (record_some journal id o p)
record_some_sound journal id none p h = h
record_some_sound journal id (some o) p h = record_outcome-JournalIsSound journal id o p h

mark_some_sound :
    (journal : Journal) (original entry_id : Option Text)
    → JournalIsSound journal
    → JournalIsSound (mark_some journal original entry_id)
mark_some_sound journal none entry_id h = h
mark_some_sound journal (some original) none h = h
mark_some_sound journal (some original) (some by) h =
    mark_rolled_back-JournalIsSound journal original by h

settle_sound :
    (response : Result HelperClientError (List HelperItemResult)) (position : ℕ)
    (items : List (ℕ × PlannedChange)) (ids : List Text) (journal : Journal) (rs : Results)
    → JournalIsSound journal
    → JournalIsSound (settle_items response position items ids journal rs).0
unfolding settle_items
settle_sound response position [] ids journal rs h = h
settle_sound response position (item ∷ rest) [] journal rs h = h
settle_sound response position ((index, p) ∷ rest) (id ∷ ids) journal rs h =
    let (_, prior, journal_outcome) = answer_at response position in
    settle_sound response (suc position) rest ids _ _
      (record_some_sound journal id journal_outcome prior h)

abandon_sound :
    (items : List (ℕ × PlannedChange)) (ids : List Text) (journal : Journal) (rs : Results)
    → JournalIsSound journal
    → JournalIsSound (abandon_items items ids journal rs).0
unfolding abandon_items
abandon_sound [] ids journal rs h = h
abandon_sound ((index, p) ∷ rest) [] journal rs h = abandon_sound rest [] journal _ h
abandon_sound ((index, p) ∷ rest) (id ∷ ids) journal rs h =
    abandon_sound rest ids _ _ (record_outcome-JournalIsSound journal id _ none h)

pub mark_sound :
    (rs : Results) (rollback_of : List (Option Text)) (journal : Journal)
    → JournalIsSound journal
    → JournalIsSound (mark_results rs rollback_of journal)
unfolding mark_results
mark_sound [] rollback_of journal h = h
mark_sound (r ∷ rs) [] journal h = mark_sound rs [] journal h
mark_sound (r ∷ rs) (original ∷ rollback_of) journal h =
    mark_sound rs rollback_of _ (mark_some_sound journal original (rolled_back_entry r) h)

abbrev pub ItemsUndoable : List (ℕ × PlannedChange) → Type 0
ItemsUndoable items = All (λ (i : ℕ × PlannedChange). Undoable i.1) items

module _ {W : Type 0} (env : Env W) where
  pub save_sound :
      (journal : Journal) (s : Service W)
      → Fine journal s
      → SavedSound (save_journal env journal s).1.events
  unfolding save_journal
  save_sound journal s h = ground arith

  intent_with_id-Fine :
      (plan_id : Text) (planned : PlannedChange) (prior : PriorState) (journal : Journal)
      (id : Option Text) (s : Service W)
      → Undoable planned
      → Fine journal s
      → let r = intent_with_id env plan_id planned prior journal id s in Fine r.1 r.2
  intent_with_id-Fine plan_id planned prior journal none s u h = h
  intent_with_id-Fine plan_id planned prior journal (some id) s u h =
      let entry = intent plan_id planned prior id (env.unix_now s.world).0 in
      let sound =
        record_intent-JournalIsSound journal entry h.0
          (record { undoing_of = u; inverse_of = refl }) in
      (sound, save_sound _ (record s { world = (env.unix_now s.world).1 }) (sound, h.1))

  write_intent-Fine :
      (plan_id : Text) (planned : PlannedChange) (prior : PriorState) (journal : Journal)
      (s : Service W)
      → Undoable planned
      → Fine journal s
      → let r = write_intent env plan_id planned prior journal s in Fine r.1 r.2
  unfolding write_intent
  write_intent-Fine plan_id planned prior journal s u h =
      intent_with_id-Fine plan_id planned prior journal (env.random_id s.world).0
        (record s { world = (env.random_id s.world).1 }) u h

  standard_apply-Fine :
      (adapter : Adapter W) (planned : PlannedChange) (r : Option Text × Journal × Service W)
      → Fine r.1 r.2
      → let t = standard_apply env adapter planned r in Fine t.1 t.2
  unfolding apply_change
  standard_apply-Fine adapter planned (none, journal, s) h = h
  standard_apply-Fine adapter planned (some id, journal, s) h =
      let sound = record_outcome-JournalIsSound journal id _ none h.0 in
      (sound, save_sound _ _ (sound, h.1))

  standard_observed-Fine :
      (plan_id : Text) (adapter : Adapter W) (planned : PlannedChange) (journal : Journal)
      (r : Result AdapterError PriorState × W) (s : Service W)
      → Undoable planned
      → Fine journal s
      → let t = standard_observed env plan_id adapter planned journal r s in Fine t.1 t.2
  standard_observed-Fine plan_id adapter planned journal (err e, w) s u h = h
  standard_observed-Fine plan_id adapter planned journal (ok current, w) s u h = ground (
    arith,
    standard_apply-Fine adapter planned
        (write_intent env plan_id planned current journal (record s { world = w }))
        (write_intent-Fine plan_id planned current journal (record s { world = w }) u h),
  )

  pub execute_standard-Fine :
      (plan_id : Text) (planned : PlannedChange) (journal : Journal) (s : Service W)
      → Undoable planned
      → Fine journal s
      → let t = execute_standard env plan_id planned journal s in Fine t.1 t.2
  unfolding execute_standard
  execute_standard-Fine plan_id planned journal s u h = adapted (env.adapter planned.system_module)
    where
      adapted :
          (a : Option (Adapter W))
          → let t = standard_with env plan_id a planned journal s in Fine t.1 t.2
      adapted none = h
      adapted (some adapter) =
          standard_observed-Fine plan_id adapter planned journal
            (adapter.observe planned.change s.world) s u h

  write_intents-Fine :
      (plan_id : Text) (items : List (ℕ × PlannedChange)) (ids : List Text) (journal : Journal)
      (s : Service W)
      → ItemsUndoable items
      → Fine journal s
      → let t = write_intents env plan_id items ids journal s in Fine t.2 t.3
  unfolding write_intents
  write_intents-Fine plan_id [] ids journal s u h = h
  write_intents-Fine plan_id ((index, planned) ∷ rest) ids journal s u h =
      let r = write_intent env plan_id planned planned.expected_prior journal s in
      let fine = write_intent-Fine plan_id planned planned.expected_prior journal s u.0 h in
      elim (Option-cases r.0) [
        | inl e ↦ rw (e, write_intents) fine
        | inr (id, e) ↦
            rw (e, write_intents)
              (write_intents-Fine plan_id rest (ids ++ id ∷ []) r.1 r.2 u.1 fine)
      ]

  after_intents-Fine :
      (items : List (ℕ × PlannedChange)) (rs : Results) (r : Bool × List Text × Journal × Service W)
      → Fine r.2 r.3
      → let t = after_intents env items rs r in Fine t.0 t.2
  unfolding call_helper
  after_intents-Fine items rs (false, ids, j, s) h =
      let sound = abandon_sound items ids j rs h.0 in (sound, save_sound _ _ (sound, h.1))
  after_intents-Fine items rs (true, ids, j, s) h =
      let (response, s') = call_helper env (map request items) s in
      let sound = settle_sound response 0 items ids j rs h.0 in
      (sound, save_sound _ s' (sound, h.1))

  pub execute_helper_batch-Fine :
      (plan_id : Text) (items : List (ℕ × PlannedChange)) (journal : Journal) (rs : Results)
      (s : Service W)
      → ItemsUndoable items
      → Fine journal s
      → let t = execute_helper_batch env plan_id items journal rs s in Fine t.0 t.2
  unfolding execute_helper_batch
  execute_helper_batch-Fine plan_id items journal rs s u h =
      after_intents-Fine items rs (write_intents env plan_id items [] journal s)
        (write_intents-Fine plan_id items [] journal s u h)
