-- ===== src/Service/Reachable.antt =====
-- The states that the service can reach, whatever its clients call and in whatever order.
use supa_diska_klinah.Base.{
  ℕ, ◌≡◌, refl, Bool, false, Option, none, some, List, [], arith, Text, length, replicate,
}
use supa_diska_klinah.Contract.Types.{SystemChange}
use supa_diska_klinah.Contract.Journal.{Journal, interrupted_entries}
use supa_diska_klinah.Contract.Entries.{JournalIsSound}
use supa_diska_klinah.Service.Types.{Env, Service}
use supa_diska_klinah.Service.Plans.{lookup}
use supa_diska_klinah.Service.Planning.{
  create_plan, create_rollback_plan, confirm_start, confirm_answer,
}
use supa_diska_klinah.Service.Execution.{save_journal}
use supa_diska_klinah.Service.Execute.{execute}
use supa_diska_klinah.Service.Recovery.{
  reconcile_interrupted, reconcile_loaded, resolved_count, settle_pending,
}
use supa_diska_klinah.Service.WriteAheadRun.{execute-WriteAhead}
use supa_diska_klinah.Service.SoundnessRun.{LoadsSound, execute-SavedSound}
use supa_diska_klinah.Service.Lifecycle.{
  ServiceIsSound, Quiet, store_plan-Quiet, rollback_loaded-Quiet, start_found-Quiet,
  confirm_answer-Quiet, execute-plans, settle_pending_sound,
}

-- `SystemChangeService::new`.
unfoldable pub new_service : {W : Type 0} → W → Service W
new_service w = record { world = w; plans = []; running = false; events = [] }

module _ {W : Type 0} (env : Env W) where
  -- One call of a client, a change of the world by others, or the lock `running` taken or given back
  -- by another thread.
  pub data Step (s : Service W) (t : Service W) : Type 0 where
    created : (changes : List SystemChange) → t ≡ (create_plan env changes s).1 → Step s t
    created_rollback : (ids : List Text) → t ≡ (create_rollback_plan env ids s).1 → Step s t
    asked : (id : Text) → t ≡ (confirm_start env id s).1 → Step s t
    answered : (id : Text) (yes_given : Bool) → t ≡ (confirm_answer env id yes_given s).1 → Step s t
    executed : (id : Text) → t ≡ (execute env id s).1 → Step s t
    reconciled : t ≡ (reconcile_interrupted env s).1 → Step s t
    world_moved : (w : W) → t ≡ record s { world = w } → Step s t
    lock_moved : (b : Bool) → t ≡ record s { running = b } → Step s t

  pub data Reach (s : Service W) : Service W → Type 0 where
    here : Reach s s
    next : {t u : Service W} → Reach s t → Step t u → Reach s u

  Quiet-sound : (s t : Service W) → Quiet env s t → ServiceIsSound s → ServiceIsSound t
  Quiet-sound s t (m, e) h = record {
    plans = m;
    saved_journals = rw e h.saved_journals;
    write_ahead = rw e h.write_ahead;
  }

  create_plan-ServiceIsSound :
      (changes : List SystemChange) (s : Service W)
      → ServiceIsSound s
      → ServiceIsSound (create_plan env changes s).1
  unfolding create_plan
  create_plan-ServiceIsSound changes s h =
      Quiet-sound s _ (store_plan-Quiet env changes (replicate (length changes) none) s h.plans) h

  create_rollback_plan-ServiceIsSound :
      (ids : List Text) (s : Service W)
      → ServiceIsSound s
      → ServiceIsSound (create_rollback_plan env ids s).1
  unfolding create_rollback_plan
  create_rollback_plan-ServiceIsSound ids s h =
      Quiet-sound s _ (rollback_loaded-Quiet env ids (env.load s.world) s h.plans) h

  confirm_start-ServiceIsSound :
      (id : Text) (s : Service W) → ServiceIsSound s → ServiceIsSound (confirm_start env id s).1
  unfolding confirm_start
  confirm_start-ServiceIsSound id s h =
      Quiet-sound s _ (start_found-Quiet env (lookup id s.plans) s h.plans) h

  execute-ServiceIsSound :
      (id : Text) (s : Service W)
      → LoadsSound env
      → ServiceIsSound s
      → ServiceIsSound (execute env id s).1
  execute-ServiceIsSound id s l h = record {
    plans = execute-plans env id s h.plans;
    saved_journals = execute-SavedSound env id s l h.plans h.saved_journals;
    write_ahead = execute-WriteAhead env id s h.write_ahead;
  }

  -- the last part of a reconciliation
  saved-ServiceIsSound :
      (journal : Journal) (resolved : ℕ) (w : W) (s : Service W)
      → JournalIsSound journal
      → ServiceIsSound s
      → ServiceIsSound
          (resolved_count env resolved (save_journal env journal (record s { world = w }))).1
  unfolding save_journal
  saved-ServiceIsSound journal resolved w s j h = ground arith

  reconcile_loaded-ServiceIsSound :
      (loaded : Option Journal × W) (s : Service W)
      → ((journal : Journal) → loaded.0 ≡ some journal → JournalIsSound journal)
      → ServiceIsSound s
      → ServiceIsSound (reconcile_loaded env loaded s).1
  reconcile_loaded-ServiceIsSound (none, w) s l h = Quiet-sound s _ (h.plans, refl) h
  reconcile_loaded-ServiceIsSound (some journal, w) s l h =
      let ((journal', resolved), w') =
        settle_pending env (interrupted_entries journal) (journal, 0) w in
      saved-ServiceIsSound journal' resolved w' s
        (settle_pending_sound env (interrupted_entries journal) (journal, 0) w (l journal refl)) h

  reconcile-ServiceIsSound :
      (s : Service W)
      → LoadsSound env
      → ServiceIsSound s
      → ServiceIsSound (reconcile_interrupted env s).1
  unfolding reconcile_interrupted
  reconcile-ServiceIsSound s l h =
      ground (arith, reconcile_loaded-ServiceIsSound (env.load s.world) s (l s.world) h)

  pub Step-ServiceIsSound :
      {s t : Service W} → Step s t → LoadsSound env → ServiceIsSound s → ServiceIsSound t
  Step-ServiceIsSound {s} (created changes e) l h = rw e (create_plan-ServiceIsSound changes s h)
  Step-ServiceIsSound {s} (created_rollback ids e) l h =
      rw e (create_rollback_plan-ServiceIsSound ids s h)
  Step-ServiceIsSound {s} (asked id e) l h = rw e (confirm_start-ServiceIsSound id s h)
  Step-ServiceIsSound {s} (answered id y e) l h =
      rw e (Quiet-sound s _ (confirm_answer-Quiet env id y s h.plans) h)
  Step-ServiceIsSound {s} (executed id e) l h = rw e (execute-ServiceIsSound id s l h)
  Step-ServiceIsSound {s} (reconciled e) l h = rw e (reconcile-ServiceIsSound s l h)
  Step-ServiceIsSound {s} (world_moved w e) l h = rw e (Quiet-sound s _ (h.plans, refl) h)
  Step-ServiceIsSound {s} (lock_moved b e) l h = rw e (Quiet-sound s _ (h.plans, refl) h)

  Reach-keeps : {s t : Service W} → Reach s t → LoadsSound env → ServiceIsSound s → ServiceIsSound t
  Reach-keeps here l h = h
  Reach-keeps (next r step) l h = Step-ServiceIsSound step l (Reach-keeps r l h)

  new_service-ServiceIsSound : (w : W) → ServiceIsSound (new_service w)
  unfolding new_service
  new_service-ServiceIsSound w = record { plans = tt; saved_journals = tt; write_ahead = tt }

  -- Where the journal store loads only journals whose entries carry the reversibility of their
  -- change and the inverse for their recorded prior state, every state that a new service can
  -- reach by creating plans and rollback plans, asking and answering confirmations, executing,
  -- reconciling, changes of the world by others and the lock changing hands has stored plans whose
  -- changes carry their module, privilege, reversibility and inverse, has saved only journals of
  -- that kind, and has applied a change or called the helper only when the latest event was the
  -- save of a journal with an open intent for that change, for each change of a helper call also
  -- with the prior state that is sent.
  pub reachable-ServiceIsSound :
      (w : W) (t : Service W) → Reach (new_service w) t → LoadsSound env → ServiceIsSound t
  reachable-ServiceIsSound w t r l = Reach-keeps r l (new_service-ServiceIsSound w)
