-- ===== src/Service/Plans.antt =====
-- The map of stored plans, a `HashMap<String, StoredPlan>`, as an association list.
use supa_diska_klinah.Base.{
  ◌≡◌, refl, Option, none, some, List, [], ◌∷◌, Text, Text-discrete, same, eq_of_same, same_of_eq,
  if◌then◌else◌, arith, ℕ, ltb, ◌-◌,
}
use supa_diska_klinah.Service.Types.{StoredPlan, plan_lifetime}

abbrev pub PlanMap : Type 0
PlanMap = List (Text × StoredPlan)

-- `plans.get(id)`.
unfoldable pub lookup : Text → PlanMap → Option StoredPlan
lookup id [] = none
lookup id ((key, plan) ∷ m) = if same Text-discrete key id then some plan else lookup id m

-- `plans.remove(id)`.
unfoldable pub without : Text → PlanMap → PlanMap
without id [] = []
without id ((key, plan) ∷ m) =
    let rest = without id m in if same Text-discrete key id then rest else (key, plan) ∷ rest

-- `plans.insert(id, plan)`, and a write through `plans.get_mut(id)`.
abbrev pub insert : Text → StoredPlan → PlanMap → PlanMap
insert id plan m = (id, plan) ∷ without id m

-- `plans.retain(|_, plan| now.duration_since(plan.created) < PLAN_LIFETIME)`.
unfoldable pub retain_fresh : ℕ → PlanMap → PlanMap
retain_fresh now [] = []
retain_fresh now ((key, plan) ∷ m) =
    let rest = retain_fresh now m in
    if ltb (now - plan.created) plan_lifetime then (key, plan) ∷ rest else rest

pub lookup-without :
    (id key : Text) (m : PlanMap)
    → lookup key (without id m) ≡ (if same Text-discrete id key then none else lookup key m)
unfolding lookup without
lookup-without id key [] = ground arith
lookup-without id key ((k, plan) ∷ m) = ground (
  arith,
  lookup-without id key m,
  eq_of_same Text-discrete k id,
  eq_of_same Text-discrete k key,
  eq_of_same Text-discrete id key,
  same_of_eq Text-discrete k key,
  same_of_eq Text-discrete k id,
  same_of_eq Text-discrete id key,
)

pub lookup-without_self : (id : Text) (m : PlanMap) → lookup id (without id m) ≡ none
lookup-without_self id m =
    ground (arith, lookup-without id id m, same_of_eq Text-discrete id id refl)

pub lookup-insert :
    (id key : Text) (plan : StoredPlan) (m : PlanMap)
    → lookup key (insert id plan m)
      ≡ (if same Text-discrete id key then some plan else lookup key m)
unfolding lookup
lookup-insert id key plan m = ground (arith, lookup-without id key m)
