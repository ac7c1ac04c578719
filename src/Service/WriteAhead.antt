-- ===== src/Service/WriteAhead.antt =====
-- The write-ahead discipline of `execute`: no change reaches the system before its intent is in the
-- saved journal.
use mathlib.Core.List.{append-nil, append_assoc}
use supa_diska_klinah.Base.{
  ℕ, ◌≡◌, refl, sym, ap, ◌∙◌, inl, inr, Bool, true, false, Option, none, some, List, [], ◌∷◌, ◌++◌,
  Result, ok, err, arith, Text, All, Any,
}
use supa_diska_klinah.Contract.Types.{SystemChange, PriorState}
use supa_diska_klinah.Contract.Plans.{PlannedChange}
use supa_diska_klinah.Contract.Journal.{
  Journal, JournalEntry, is_interrupted, interrupted_entries, record_intent,
}
use supa_diska_klinah.Contract.Trimming.{record_intent-interrupted}
use supa_diska_klinah.Service.Types.{
  Adapter, AdapterError, Env, Event, saved, applied_change, called_helper, Service,
}
use supa_diska_klinah.Service.Execution.{
  write_intent, intent_with_id, standard_apply, standard_observed, standard_with, execute_standard,
  save_journal, apply_change, intent,
}
use supa_diska_klinah.Service.Batch.{request, write_intents}

abbrev pub Opens : SystemChange → JournalEntry → Type 0
Opens change e = e.change ≡ change

abbrev pub OpensWith : SystemChange × PriorState → JournalEntry → Type 0
OpensWith (change, prior) e = (e.change ≡ change) × (e.prior ≡ prior)

-- The latest event is a save of a journal that has an open intent of this kind.
abbrev pub JustSaved : (JournalEntry → Type 0) → List Event → Type 0
JustSaved P [] = ⊥
JustSaved P (saved journal ∷ _) = Any P (interrupted_entries journal)
JustSaved P (applied_change _ ∷ _) = ⊥
JustSaved P (called_helper _ ∷ _) = ⊥

abbrev pub WriteAhead : List Event → Type 0
WriteAhead [] = Unit
WriteAhead (saved _ ∷ events) = WriteAhead events
WriteAhead (applied_change change ∷ events) = JustSaved (Opens change) events × WriteAhead events
WriteAhead (called_helper items ∷ events) =
    All (λ item. JustSaved (OpensWith item) events) items × WriteAhead events

Any-append_last :
    (P : JournalEntry → Type 0) (es : List JournalEntry) (e : JournalEntry)
    → P e
    → Any P (es ++ e ∷ [])
Any-append_last P [] e p = inl p
Any-append_last P (x ∷ xs) e p = inr (Any-append_last P xs e p)

Any-append_first :
    (P : JournalEntry → Type 0) (es fs : List JournalEntry) → Any P es → Any P (es ++ fs)
Any-append_first P [] fs a = absurd a
Any-append_first P (x ∷ xs) fs (inl p) = inl p
Any-append_first P (x ∷ xs) fs (inr a) = inr (Any-append_first P xs fs a)

module _ {W : Type 0} (env : Env W) where
  pub save-WriteAhead :
      (journal : Journal) (s : Service W)
      → WriteAhead s.events
      → WriteAhead (save_journal env journal s).1.events
  unfolding save_journal
  save-WriteAhead journal s h = ground arith

  abbrev IntentWritten :
      PlannedChange → PriorState → Journal → Service W → Option Text × Journal × Service W → Type 0
  IntentWritten planned prior journal s (none, journal', s') = s'.events ≡ s.events
  IntentWritten planned prior journal s (some id, journal', s') =
      (s'.events ≡ saved journal' ∷ s.events)
      × ((e : JournalEntry) × (interrupted_entries journal' ≡ interrupted_entries journal ++ e ∷ [])
          × (e.change ≡ planned.change)
          × (e.prior ≡ prior))

  intent_with_id_lem :
      (plan_id : Text) (planned : PlannedChange) (prior : PriorState) (journal : Journal)
      (id : Option Text) (s : Service W)
      → IntentWritten planned prior journal s
          (intent_with_id env plan_id planned prior journal id s)
  intent_with_id_lem plan_id planned prior journal none s = refl
  intent_with_id_lem plan_id planned prior journal (some id) s =
      unfold save_journal in go (env.save journal' (env.unix_now s.world).1).0 refl
    where
      entry : JournalEntry
      entry = intent plan_id planned prior id (env.unix_now s.world).0

      journal' : Journal
      journal' = record_intent journal entry

      go :
          (done : Bool)
          → (env.save journal' (env.unix_now s.world).1).0 ≡ done
          → IntentWritten planned prior journal s
              (intent_with_id env plan_id planned prior journal (some id) s)
      go false e = unfold save_journal in rw e refl
      go true e =
          unfold save_journal in
          rw e (
            refl,
            (
              entry,
              record_intent-interrupted journal entry (unfold is_interrupted in refl),
              refl,
              refl,
            ),
          )

  write_intent_lem :
      (plan_id : Text) (planned : PlannedChange) (prior : PriorState) (journal : Journal)
      (s : Service W)
      → IntentWritten planned prior journal s (write_intent env plan_id planned prior journal s)
  unfolding write_intent
  write_intent_lem plan_id planned prior journal s =
      intent_with_id_lem plan_id planned prior journal (env.random_id s.world).0
        (record s { world = (env.random_id s.world).1 })

  opened :
      (planned : PlannedChange) (prior : PriorState) (journal journal' : Journal)
      (events evs : List Event)
      → events ≡ saved journal' ∷ evs
      → ((e : JournalEntry) × (interrupted_entries journal' ≡ interrupted_entries journal ++ e ∷ [])
          × (e.change ≡ planned.change)
          × (e.prior ≡ prior))
      → JustSaved (Opens planned.change) events
  opened planned prior journal journal' events evs p (e, q, c, _) =
      rw p (rw q (Any-append_last (Opens planned.change) (interrupted_entries journal) e c))

  standard_apply-WriteAhead :
      (adapter : Adapter W) (planned : PlannedChange) (prior : PriorState) (journal : Journal)
      (s : Service W) (r : Option Text × Journal × Service W)
      → IntentWritten planned prior journal s r
      → WriteAhead s.events
      → WriteAhead (standard_apply env adapter planned r).2.events
  standard_apply-WriteAhead adapter planned prior journal s (none, journal', s') p h = rw p h
  standard_apply-WriteAhead adapter planned prior journal s (some id, journal', s') (p, q) h =
      save-WriteAhead _ _ (
        unfold apply_change in
        (opened planned prior journal journal' s'.events s.events p q, rw p h))

  standard_observed-WriteAhead :
      (plan_id : Text) (adapter : Adapter W) (planned : PlannedChange) (journal : Journal)
      (r : Result AdapterError PriorState × W) (s : Service W)
      → WriteAhead s.events
      → WriteAhead (standard_observed env plan_id adapter planned journal r s).2.events
  standard_observed-WriteAhead plan_id adapter planned journal (err e, w) s h = h
  standard_observed-WriteAhead plan_id adapter planned journal (ok current, w) s h = ground (
    arith,
    standard_apply-WriteAhead adapter planned current journal (record s { world = w })
        (write_intent env plan_id planned current journal (record s { world = w }))
        (write_intent_lem plan_id planned current journal (record s { world = w })) h,
  )

  standard_with-WriteAhead :
      (plan_id : Text) (adapter : Option (Adapter W)) (planned : PlannedChange) (journal : Journal)
      (s : Service W)
      → WriteAhead s.events
      → WriteAhead (standard_with env plan_id adapter planned journal s).2.events
  standard_with-WriteAhead plan_id none planned journal s h = h
  standard_with-WriteAhead plan_id (some adapter) planned journal s h =
      standard_observed-WriteAhead plan_id adapter planned journal
        (adapter.observe planned.change s.world) s h

  pub execute_standard-WriteAhead :
      (plan_id : Text) (planned : PlannedChange) (journal : Journal) (s : Service W)
      → WriteAhead s.events
      → WriteAhead (execute_standard env plan_id planned journal s).2.events
  unfolding execute_standard
  execute_standard-WriteAhead plan_id planned journal s h =
      standard_with-WriteAhead plan_id (env.adapter planned.system_module) planned journal s h

  abbrev pub Head : List (ℕ × PlannedChange) → Journal → Service W → Journal → Service W → Type 0
  Head [] journal s journal' s' = (journal' ≡ journal) × (s'.events ≡ s.events)
  Head (_ ∷ _) journal s journal' s' = (evs : List Event) × (s'.events ≡ saved journal' ∷ evs)

  abbrev pub WroteAll :
      List (ℕ × PlannedChange)
      → Journal
      → Service W
      → Bool × List Text × Journal × Service W
      → Type 0
  WroteAll items journal s (false, ids, journal', s') = WriteAhead s'.events
  WroteAll items journal s (true, ids, journal', s') =
      WriteAhead s'.events
      × All (λ item. Any (OpensWith (request item)) (interrupted_entries journal')) items
      × ((extra : List JournalEntry) × (interrupted_entries journal'
            ≡ interrupted_entries journal ++ extra))
      × Head items journal s journal' s'

  Head-cons :
      (rest : List (ℕ × PlannedChange)) (journal journal' : Journal) (s s' : Service W)
      (evs : List Event)
      → s.events ≡ saved journal ∷ evs
      → Head rest journal s journal' s'
      → (evs' : List Event) × (s'.events ≡ saved journal' ∷ evs')
  Head-cons [] journal journal' s s' evs p (q, r) = (evs, r ∙ p ∙ ap (λ j. saved j ∷ evs) (sym q))
  Head-cons (_ ∷ _) journal journal' s s' evs p h = h

  WroteAll-cons :
      (index : ℕ) (planned : PlannedChange) (rest : List (ℕ × PlannedChange))
      (journal journal' : Journal) (s s' : Service W) (r : Bool × List Text × Journal × Service W)
      → IntentWritten planned planned.expected_prior journal s (some [], journal', s')
      → WroteAll rest journal' s' r
      → WroteAll ((index, planned) ∷ rest) journal s r
  WroteAll-cons index planned rest journal journal' s s' (false, ids, j, t) w h = h
  WroteAll-cons index planned rest journal journal' s s' (true, ids, j, t) (p, (e, q, c, b))
        (a, all, (extra, x), head) =
      (
        a,
        (
          rw x (
              Any-append_first (OpensWith (request (index, planned))) (interrupted_entries journal')
                extra
                (rw q (
                  Any-append_last (OpensWith (request (index, planned)))
                    (interrupted_entries journal) e (c, b)))),
          all,
        ),
        (
          e ∷ extra,
          x ∙ ap (λ l. l ++ extra) q ∙ append_assoc (interrupted_entries journal) (e ∷ []) extra,
        ),
        Head-cons rest journal' j s' t s.events p head,
      )

  write_intents_step :
      (plan_id : Text) (index : ℕ) (planned : PlannedChange) (rest : List (ℕ × PlannedChange))
      (ids : List Text) (journal : Journal) (s : Service W) (r : Option Text × Journal × Service W)
      → IntentWritten planned planned.expected_prior journal s r
      → WriteAhead s.events
      → ((ids' : List Text) (j : Journal) (s' : Service W)
          → WriteAhead s'.events
          → WroteAll rest j s' (write_intents env plan_id rest ids' j s'))
      → WroteAll
          ((index, planned) ∷ rest)
          journal
          s
          (elim r.0 as (λ x. Bool × List Text × Journal × Service W) [
            | none ↦ (false, ids, r.1, r.2)
            | some id ↦ write_intents env plan_id rest (ids ++ id ∷ []) r.1 r.2
          ])
  write_intents_step plan_id index planned rest ids journal s (none, j, s') p h ih = rw p h
  write_intents_step plan_id index planned rest ids journal s (some id, j, s') p h ih =
      WroteAll-cons index planned rest journal j s s'
        (write_intents env plan_id rest (ids ++ id ∷ []) j s') p
        (ih (ids ++ id ∷ []) j s' (rw p.0 h))

  pub write_intents_lem :
      (plan_id : Text) (items : List (ℕ × PlannedChange)) (ids : List Text) (journal : Journal)
      (s : Service W)
      → WriteAhead s.events
      → WroteAll items journal s (write_intents env plan_id items ids journal s)
  unfolding write_intents
  write_intents_lem plan_id [] ids journal s h = (h, tt, ([], sym (append-nil _)), (refl, refl))
  write_intents_lem plan_id ((index, planned) ∷ rest) ids journal s h =
      write_intents_step plan_id index planned rest ids journal s
        (write_intent env plan_id planned planned.expected_prior journal s)
        (write_intent_lem plan_id planned planned.expected_prior journal s) h
        (λ ids' j s'. write_intents_lem plan_id rest ids' j s')
