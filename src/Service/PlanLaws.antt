-- ===== src/Service/PlanLaws.antt =====
-- What a stored plan holds.
use supa_diska_klinah.Base.{
  ℕ, ◌<◌, ◌≤◌, ◌≡◌, refl, sym, ap, inl, inr, Option, none, some, List, [], ◌∷◌, map, Result, ok,
  err, arith, Text, Text-discrete, length, replicate, All, Bool-cases, same_of_eq, ltb,
}
use supa_diska_klinah.Contract.Types.{SystemChange, PriorState, ImpactSummary}
use supa_diska_klinah.Contract.Changes.{validate, module_of}
use supa_diska_klinah.Contract.Ids.{ContractError}
use supa_diska_klinah.Contract.Plans.{PlannedChange}
use supa_diska_klinah.Contract.Journal.{Journal}
use supa_diska_klinah.Service.Types.{
  Adapter, AdapterError, Env, Service, StoredPlan, SystemChangeError, max_plan_changes, PlanTicket,
}
use supa_diska_klinah.Service.Plans.{lookup, retain_fresh, lookup-insert}
use supa_diska_klinah.Service.Planning.{
  repeats, preview, preview_observed, preview_described, preview_with, preview_valid, preview_all,
  store_at, store_identified, store_previewed, store_plan, create_plan, fits, rollback_changes,
  store_rollback, rollback_loaded, create_rollback_plan,
}
use supa_diska_klinah.Service.PlanChecks.{
  PlannedIsSound, new_planned_lem, NoRepeats, repeats-false, planned_changes, Undoes,
  rollback_changes_lem,
}

module _ {W : Type 0} (env : Env W) where
  preview_observed_lem :
      (change : SystemChange) (impact : ImpactSummary) (r : Result AdapterError PriorState × W)
      (p : PlannedChange)
      → (preview_observed env change impact r).0 ≡ ok p
      → PlannedIsSound p × (p.change ≡ change)
  preview_observed_lem change impact (err e, w) p h = cc
  preview_observed_lem change impact (ok prior, w) p h =
      ground (arith, new_planned_lem change impact prior p)

  preview_with_lem :
      (change : SystemChange) (adapter : Option (Adapter W)) (w : W) (p : PlannedChange)
      → (preview_with env change adapter w).0 ≡ ok p
      → PlannedIsSound p × (p.change ≡ change)
  preview_with_lem change none w p h = cc
  preview_with_lem change (some adapter) w p h = described (adapter.describe change w) h
    where
      described :
          (r : Result AdapterError ImpactSummary × W)
          → (preview_described env change adapter r).0 ≡ ok p
          → PlannedIsSound p × (p.change ≡ change)
      described (err e, w') h' = cc
      described (ok impact, w') h' =
          preview_observed_lem change impact (adapter.observe change w') p h'

  preview_valid_lem :
      (change : SystemChange) (r : Result ContractError (Unit {0})) (w : W) (p : PlannedChange)
      → (preview_valid env change r w).0 ≡ ok p
      → PlannedIsSound p × (p.change ≡ change)
  preview_valid_lem change (err e) w p h = cc
  preview_valid_lem change (ok _) w p h =
      preview_with_lem change (env.adapter (module_of change)) w p h

  pub preview_lem :
      (change : SystemChange) (w : W) (p : PlannedChange)
      → (preview env change w).0 ≡ ok p
      → PlannedIsSound p × (p.change ≡ change)
  unfolding preview
  preview_lem change w p h = ground (arith, preview_valid_lem change (validate change) w p)

  pub preview_all_lem :
      (changes : List SystemChange) (w : W) (ps : List PlannedChange)
      → (preview_all env changes w).0 ≡ ok ps
      → All PlannedIsSound ps × (planned_changes ps ≡ changes)
  unfolding preview_all
  preview_all_lem [] w ps h = ground arith
  preview_all_lem (c ∷ cs) w [] h = absurd (ground arith)
  preview_all_lem (c ∷ cs) w (p ∷ ps) h =
      ground (arith, preview_lem c w p, preview_all_lem cs (preview env c w).1 ps)

  -- What a ticket promises of the state in which its plan is stored.
  abbrev pub Stored : List (Option Text) → PlanTicket → Service W → Type 0
  Stored rollback_of ticket s =
      (plan : StoredPlan) × (lookup ticket.plan_id s.plans ≡ some plan)
      × (plan.changes ≡ ticket.changes)
      × (plan.rollback_of ≡ rollback_of)
      × (plan.confirmed_at ≡ none)

  store_at_lem :
      (ps : List PlannedChange) (rollback_of : List (Option Text)) (id : Text) (now : ℕ × W)
      (s : Service W) (ticket : PlanTicket)
      → (store_at env ps rollback_of id now s).0 ≡ ok ticket
      → (ticket.changes ≡ ps) × Stored rollback_of ticket (store_at env ps rollback_of id now s).1
  store_at_lem ps rollback_of id (now, w) s ticket h =
      let plan : StoredPlan = record {
        changes = ps;
        rollback_of = rollback_of;
        created = now;
        confirmed_at = none;
      } in
      (
        ground arith,
        (
          plan,
          ground (
            arith,
            lookup-insert id id plan (retain_fresh now s.plans),
            same_of_eq Text-discrete id id refl,
          ),
          ground arith,
          refl,
          refl,
        ),
      )

  store_identified_lem :
      (ps : List PlannedChange) (rollback_of : List (Option Text)) (id : Option Text × W)
      (s : Service W) (ticket : PlanTicket)
      → (store_identified env ps rollback_of id s).0 ≡ ok ticket
      → (ticket.changes ≡ ps)
        × Stored rollback_of ticket (store_identified env ps rollback_of id s).1
  store_identified_lem ps rollback_of (none, w) s ticket h = cc
  store_identified_lem ps rollback_of (some id, w) s ticket h =
      store_at_lem ps rollback_of id (env.now w) (record s { world = w }) ticket h

  store_previewed_lem :
      (rollback_of : List (Option Text)) (r : Result SystemChangeError (List PlannedChange) × W)
      (s : Service W) (ticket : PlanTicket)
      → (store_previewed env rollback_of r s).0 ≡ ok ticket
      → (r.0 ≡ ok ticket.changes)
        × Stored rollback_of ticket (store_previewed env rollback_of r s).1
  store_previewed_lem rollback_of (err e, w) s ticket h = cc
  store_previewed_lem rollback_of (ok ps, w) s ticket h = elim (Bool-cases (fits env ps)) [
    | inl f ↦
        let (p, q) =
          store_identified_lem ps rollback_of (env.random_id w) (record s { world = w }) ticket
            (simp f at h) in
        (ap ok (sym p), simp f q)
    | inr f ↦ absurd (ground arith)
  ]

  pub store_plan_lem :
      (changes : List SystemChange) (rollback_of : List (Option Text)) (s : Service W)
      (ticket : PlanTicket)
      → (store_plan env changes rollback_of s).0 ≡ ok ticket
      → (0 < length changes)
        × (length changes ≤ max_plan_changes)
        × NoRepeats changes
        × (planned_changes ticket.changes ≡ changes)
        × All PlannedIsSound ticket.changes
        × Stored rollback_of ticket (store_plan env changes rollback_of s).1
  unfolding store_plan
  store_plan_lem [] rollback_of s ticket h = cc
  store_plan_lem (c ∷ cs) rollback_of s ticket h =
      elim (Bool-cases (ltb max_plan_changes (length (c ∷ cs)))) [
        | inl long ↦ absurd (ground arith)
        | inr short ↦ elim (Bool-cases (repeats [] (c ∷ cs))) [
          | inl again ↦ absurd (ground arith)
          | inr once ↦
              let r = preview_all env (c ∷ cs) s.world in
              let (previewed, stored) =
                store_previewed_lem rollback_of r s ticket (simp (short, once) at h) in
              let (sound, changes_are) =
                preview_all_lem (c ∷ cs) s.world ticket.changes previewed in
              (
                omega arith,
                ground arith,
                (repeats-false [] (c ∷ cs) once).1,
                changes_are,
                sound,
                simp (short, once) stored,
              )
        ]
      ]

  -- If create_plan returns a ticket, then there are between 1 and 32 requested changes, no two are
  -- equal, the ticket has exactly these changes in order, each planned change carries the module,
  -- privilege, reversibility and inverse of its change, and the service stores that plan under the
  -- ticket's identifier, unconfirmed and with no entry to roll back.
  pub create_plan_lem :
      (changes : List SystemChange) (s : Service W) (ticket : PlanTicket)
      → (create_plan env changes s).0 ≡ ok ticket
      → (0 < length changes)
        × (length changes ≤ max_plan_changes)
        × NoRepeats changes
        × (planned_changes ticket.changes ≡ changes)
        × All PlannedIsSound ticket.changes
        × Stored (replicate (length changes) none) ticket (create_plan env changes s).1
  unfolding create_plan
  create_plan_lem changes s ticket h =
      store_plan_lem changes (replicate (length changes) none) s ticket h

  store_rollback_lem :
      (journal : Journal) (ids : List Text) (r : Result SystemChangeError (List SystemChange))
      (s : Service W) (ticket : PlanTicket)
      → rollback_changes journal ids ≡ r
      → (store_rollback env ids r s).0 ≡ ok ticket
      → Undoes journal ids (planned_changes ticket.changes)
        × Stored (map some ids) ticket (store_rollback env ids r s).1
  store_rollback_lem journal ids (err e) s ticket q h = cc
  store_rollback_lem journal ids (ok undos) s ticket q h =
      let (_, _, _, changes_are, _, stored) = store_plan_lem undos (map some ids) s ticket h in
      (rw changes_are (rollback_changes_lem journal ids undos q), stored)

  rollback_loaded_lem :
      (ids : List Text) (loaded : Option Journal × W) (s : Service W) (ticket : PlanTicket)
      → (rollback_loaded env ids loaded s).0 ≡ ok ticket
      → (journal : Journal) × (loaded.0 ≡ some journal)
        × Undoes journal ids (planned_changes ticket.changes)
        × Stored (map some ids) ticket (rollback_loaded env ids loaded s).1
  rollback_loaded_lem ids (none, w) s ticket h = cc
  rollback_loaded_lem ids (some journal, w) s ticket h =
      let (undoes, stored) =
        store_rollback_lem journal ids (rollback_changes journal ids) (record s { world = w })
          ticket refl h in
      (journal, refl, undoes, stored)

  -- If create_rollback_plan returns a ticket, then the journal was loaded, each requested entry is
  -- in it with an available rollback, the changes of the ticket are the recorded inverses of these
  -- entries in order, and the plan is stored under the ticket's identifier, unconfirmed, with the
  -- requested entries as those to roll back.
  pub create_rollback_plan_lem :
      (ids : List Text) (s : Service W) (ticket : PlanTicket)
      → (create_rollback_plan env ids s).0 ≡ ok ticket
      → (journal : Journal) × ((env.load s.world).0 ≡ some journal)
        × Undoes journal ids (planned_changes ticket.changes)
        × Stored (map some ids) ticket (create_rollback_plan env ids s).1
  unfolding create_rollback_plan
  create_rollback_plan_lem ids s ticket h = rollback_loaded_lem ids (env.load s.world) s ticket h
