-- ===== src/Service/Reports.antt =====
-- The report of `execute`: one result for each change of the plan, in the plan's order.
use supa_diska_klinah.Base.{
  ℕ, zero, suc, ◌+◌, ◌≡◌, refl, inl, inr, Bool, true, false, Option, none, some, List, [], ◌∷◌, map,
  Result, ok, err, arith, Text, get_elem?, set, length, replicate, All, Bool-cases,
}
use supa_diska_klinah.Contract.Types.{PriorState}
use supa_diska_klinah.Contract.Plans.{PlannedChange, ChangeResult}
use supa_diska_klinah.Contract.Journal.{Journal}
use supa_diska_klinah.Service.Types.{
  Adapter, AdapterError, Env, HelperItemResult, HelperClientError, Service, StoredPlan,
}
use supa_diska_klinah.Service.Execution.{
  execute_standard, standard_apply, standard_observed, standard_with, write_intent, is_helper,
  call_helper,
}
use supa_diska_klinah.Service.Batch.{
  Results, request, write_intents, after_intents, execute_helper_batch, helper_items, settle_items,
  abandon_items,
}
use supa_diska_klinah.Service.Execute.{run_changes, run_plan, report_results}

abbrev RightFor : PlannedChange → Option ChangeResult → Type 0
RightFor planned none = Unit
RightFor planned (some result) = result.change ≡ planned.change

-- One place for each change, and what stands there is about it.
abbrev Aligned : Results → List PlannedChange → Type 0
Aligned [] [] = Unit
Aligned [] (_ ∷ _) = ⊥
Aligned (_ ∷ _) [] = ⊥
Aligned (r ∷ rs) (p ∷ ps) = RightFor p r × Aligned rs ps

Aligned-blank : (ps : List PlannedChange) → Aligned (replicate (length ps) none) ps
Aligned-blank [] = tt
Aligned-blank (p ∷ ps) = (tt, Aligned-blank ps)

Aligned-set :
    (rs : Results) (ps : List PlannedChange) (i : ℕ) (p : PlannedChange) (r : ChangeResult)
    → Aligned rs ps
    → get_elem? ps i ≡ some p
    → r.change ≡ p.change
    → Aligned (set rs i (some r)) ps
Aligned-set [] [] i p r a e c = tt
Aligned-set [] (q ∷ ps) i p r a e c = a
Aligned-set (x ∷ rs) [] i p r a e c = absurd a
Aligned-set (x ∷ rs) (q ∷ ps) zero p r a e c = ground arith
Aligned-set (x ∷ rs) (q ∷ ps) (suc i) p r a e c = (a.0, Aligned-set rs ps i p r a.1 e c)

abbrev InPlan : List PlannedChange → ℕ × PlannedChange → Type 0
InPlan ps (i, p) = get_elem? ps i ≡ some p

-- `rest` is what the plan holds from an index on.
abbrev FromIndex : List PlannedChange → ℕ → List PlannedChange → Type 0
FromIndex ps index rest = (k : ℕ) → get_elem? ps (index + k) ≡ get_elem? rest k

FromIndex-head :
    (ps : List PlannedChange) (index : ℕ) (p : PlannedChange) (rest : List PlannedChange)
    → FromIndex ps index (p ∷ rest)
    → get_elem? ps index ≡ some p
FromIndex-head ps index p rest f = let e : index + 0 ≡ index = omega arith in rw e at (f 0)

FromIndex-tail :
    (ps : List PlannedChange) (index : ℕ) (p : PlannedChange) (rest : List PlannedChange)
    → FromIndex ps index (p ∷ rest)
    → FromIndex ps (suc index) rest
FromIndex-tail ps index p rest f k =
    let e : index + suc k ≡ suc index + k = omega arith in rw e at (f (suc k))

helper_items-InPlan :
    (ps : List PlannedChange) (index : ℕ) (rest : List PlannedChange)
    → FromIndex ps index rest
    → All (InPlan ps) (helper_items index rest)
unfolding helper_items
helper_items-InPlan ps index [] f = tt
helper_items-InPlan ps index (p ∷ rest) f = ground (
  arith,
  FromIndex-head ps index p rest f,
  helper_items-InPlan ps (suc index) rest (FromIndex-tail ps index p rest f),
)

settle-Aligned :
    (response : Result HelperClientError (List HelperItemResult)) (position : ℕ)
    (items : List (ℕ × PlannedChange)) (ids : List Text) (journal : Journal) (rs : Results)
    (ps : List PlannedChange)
    → All (InPlan ps) items
    → Aligned rs ps
    → Aligned (settle_items response position items ids journal rs).1 ps
unfolding settle_items
settle-Aligned response position [] ids journal rs ps i a = a
settle-Aligned response position (item ∷ rest) [] journal rs ps i a = a
settle-Aligned response position ((index, p) ∷ rest) (id ∷ ids) journal rs ps i a =
    settle-Aligned response (suc position) rest ids _ _ ps i.1
      (Aligned-set rs ps index p _ a i.0 refl)

abandon-Aligned :
    (items : List (ℕ × PlannedChange)) (ids : List Text) (journal : Journal) (rs : Results)
    (ps : List PlannedChange)
    → All (InPlan ps) items
    → Aligned rs ps
    → Aligned (abandon_items items ids journal rs).1 ps
unfolding abandon_items
abandon-Aligned [] ids journal rs ps i a = a
abandon-Aligned ((index, p) ∷ rest) [] journal rs ps i a =
    abandon-Aligned rest [] _ _ ps i.1 (Aligned-set rs ps index p _ a i.0 refl)
abandon-Aligned ((index, p) ∷ rest) (id ∷ ids) journal rs ps i a =
    abandon-Aligned rest ids _ _ ps i.1 (Aligned-set rs ps index p _ a i.0 refl)

report-Aligned :
    (rs : Results) (ps : List PlannedChange)
    → Aligned rs ps
    → map (λ (r : ChangeResult). r.change) (report_results rs ps)
      ≡ map (λ (p : PlannedChange). p.change) ps
unfolding report_results
report-Aligned [] [] a = refl
report-Aligned [] (_ ∷ _) a = absurd a
report-Aligned (_ ∷ _) [] a = absurd a
report-Aligned (none ∷ rs) (p ∷ ps) a = ground (arith, report-Aligned rs ps a.1)
report-Aligned (some r ∷ rs) (p ∷ ps) a = ground (arith, report-Aligned rs ps a.1)

module _ {W : Type 0} (env : Env W) where
  standard_apply-change :
      (adapter : Adapter W) (planned : PlannedChange) (r : Option Text × Journal × Service W)
      → (standard_apply env adapter planned r).0.change ≡ planned.change
  standard_apply-change adapter planned (none, journal, s) = refl
  standard_apply-change adapter planned (some id, journal, s) = refl

  standard_observed-change :
      (plan_id : Text) (adapter : Adapter W) (planned : PlannedChange) (journal : Journal)
      (r : Result AdapterError PriorState × W) (s : Service W)
      → (standard_observed env plan_id adapter planned journal r s).0.change ≡ planned.change
  standard_observed-change plan_id adapter planned journal (err e, w) s = refl
  standard_observed-change plan_id adapter planned journal (ok current, w) s = ground (
    arith,
    standard_apply-change adapter planned
        (write_intent env plan_id planned current journal (record s { world = w })),
  )

  standard_with-change :
      (plan_id : Text) (adapter : Option (Adapter W)) (planned : PlannedChange) (journal : Journal)
      (s : Service W)
      → (standard_with env plan_id adapter planned journal s).0.change ≡ planned.change
  standard_with-change plan_id none planned journal s = refl
  standard_with-change plan_id (some adapter) planned journal s =
      standard_observed-change plan_id adapter planned journal
        (adapter.observe planned.change s.world) s

  execute_standard-change :
      (plan_id : Text) (planned : PlannedChange) (journal : Journal) (s : Service W)
      → (execute_standard env plan_id planned journal s).0.change ≡ planned.change
  unfolding execute_standard
  execute_standard-change plan_id planned journal s =
      standard_with-change plan_id (env.adapter planned.system_module) planned journal s

  after_intents-Aligned :
      (items : List (ℕ × PlannedChange)) (rs : Results) (ps : List PlannedChange)
      (r : Bool × List Text × Journal × Service W)
      → All (InPlan ps) items
      → Aligned rs ps
      → Aligned (after_intents env items rs r).1 ps
  after_intents-Aligned items rs ps (false, ids, j, s) i a = abandon-Aligned items ids j rs ps i a
  after_intents-Aligned items rs ps (true, ids, j, s) i a =
      settle-Aligned (call_helper env (map request items) s).0 0 items ids j rs ps i a

  run_changes-Aligned :
      (plan_id : Text) (items : List (ℕ × PlannedChange)) (ps : List PlannedChange) (index : ℕ)
      (rest : List PlannedChange) (helper_done : Bool) (journal : Journal) (rs : Results)
      (s : Service W)
      → All (InPlan ps) items
      → FromIndex ps index rest
      → Aligned rs ps
      → Aligned (run_changes env plan_id items index rest helper_done journal rs s).1 ps
  unfolding run_changes execute_helper_batch
  run_changes-Aligned plan_id items ps index [] helper_done journal rs s i f a = a
  run_changes-Aligned plan_id items ps index (p ∷ rest) true journal rs s i f a =
      elim (Bool-cases (is_helper p)) [
        | inl h ↦
            rw (h, run_changes)
              (run_changes-Aligned plan_id items ps (suc index) rest true journal rs s i
                (FromIndex-tail ps index p rest f) a)
        | inr h ↦
            rw (h, run_changes)
              (run_changes-Aligned plan_id items ps (suc index) rest true _ _ _ i
                (FromIndex-tail ps index p rest f)
                (Aligned-set rs ps index p _ a (FromIndex-head ps index p rest f)
                  (execute_standard-change plan_id p journal s)))
      ]
  run_changes-Aligned plan_id items ps index (p ∷ rest) false journal rs s i f a =
      elim (Bool-cases (is_helper p)) [
        | inl h ↦
            rw (h, run_changes)
              (run_changes-Aligned plan_id items ps (suc index) rest true _ _ _ i
                (FromIndex-tail ps index p rest f)
                (after_intents-Aligned items rs ps (write_intents env plan_id items [] journal s) i
                  a))
        | inr h ↦
            rw (h, run_changes)
              (run_changes-Aligned plan_id items ps (suc index) rest false _ _ _ i
                (FromIndex-tail ps index p rest f)
                (Aligned-set rs ps index p _ a (FromIndex-head ps index p rest f)
                  (execute_standard-change plan_id p journal s)))
      ]

  pub run_plan-changes :
      (plan_id : Text) (plan : StoredPlan) (journal : Journal) (s : Service W)
      → map (λ (r : ChangeResult). r.change) (run_plan env plan_id plan journal s).0.results
        ≡ map (λ (p : PlannedChange). p.change) plan.changes
  unfolding run_plan
  run_plan-changes plan_id plan journal s = report-Aligned _ plan.changes (
      run_changes-Aligned plan_id (helper_items 0 plan.changes) plan.changes 0 plan.changes false
        journal (replicate (length plan.changes) none) s
        (helper_items-InPlan plan.changes 0 plan.changes from_start) from_start
        (Aligned-blank plan.changes))
    where
      from_start : FromIndex plan.changes 0 plan.changes
      from_start k = let e : 0 + k ≡ k = omega arith in rw e
