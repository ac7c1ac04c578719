-- ===== src/Contract/Trimming.antt =====
-- The trimming of the journal: which entries go, and which stay.
use supa_diska_klinah.Base.{
  ℕ, zero, suc, ◌+◌, ◌-◌, ◌≤◌, ◌<◌, ◌≡◌, refl, ap, ◌∙◌, ◌⊎◌, inl, inr, true, none, some, List, [],
  ◌∷◌, ◌++◌, arith, Option-cases, length, keep, keep-append, All, if◌then◌else◌,
}
use supa_diska_klinah.Contract.Journal.{
  Journal, JournalEntry, is_interrupted, max_journal_entries, position_settled, remove, trim,
  trim_step, trim_loop, record_intent, interrupted_entries,
}

-- The specification: the oldest `n` entries that have an outcome are left out.
unfoldable pub drop_settled : ℕ → List JournalEntry → List JournalEntry
drop_settled zero es = es
drop_settled (suc n) [] = []
drop_settled (suc n) (e ∷ es) =
    let kept = e ∷ drop_settled (suc n) es in
    let dropped = drop_settled n es in if is_interrupted e then kept else dropped

position-none :
    (n : ℕ) (es : List JournalEntry) → position_settled es ≡ none → drop_settled n es ≡ es
unfolding drop_settled position_settled
position-none zero es h = refl
position-none (suc n) [] h = refl
position-none (suc n) (e ∷ es) h = ground (arith, position-none (suc n) es)

position-some :
    (n i : ℕ) (es : List JournalEntry)
    → position_settled es ≡ some i
    → drop_settled (suc n) es ≡ drop_settled n (remove es i)
unfolding drop_settled position_settled
position-some n i [] h = cc
position-some zero zero (e ∷ es) h = ground arith
position-some zero (suc i) (e ∷ es) h = ground (arith, position-some zero i es)
position-some (suc n) zero (e ∷ es) h = ground arith
position-some (suc n) (suc i) (e ∷ es) h = ground (arith, position-some (suc n) i es)

length-remove :
    (i : ℕ) (es : List JournalEntry)
    → position_settled es ≡ some i
    → length es ≡ suc (length (remove es i))
unfolding position_settled
length-remove i [] h = cc
length-remove zero (e ∷ es) h = refl
length-remove (suc i) (e ∷ es) h = ground (arith, length-remove i es)

trim_loop_lem :
    (fuel k : ℕ) (es : List JournalEntry)
    → length es ≤ max_journal_entries + k
    → (0 < k → length es ≡ max_journal_entries + k)
    → k ≤ fuel
    → trim_loop fuel es ≡ drop_settled k es
unfolding trim_loop trim_step
trim_loop_lem zero zero es h e f = unfold drop_settled in refl
trim_loop_lem zero (suc k) es h e f = absurd (omega arith)
trim_loop_lem (suc fuel) zero es h e f = unfold drop_settled in ground arith
trim_loop_lem (suc fuel) (suc k) es h e f = elim (Option-cases (position_settled es)) [
  | inl p ↦ ground (arith, position-none (suc k) es p)
  | inr (i, p) ↦
      ground
        (arith, position-some k i es p, length-remove i es p, trim_loop_lem fuel k (remove es i))
]

-- The loop of trim gives the journal without its first n entries that have an outcome (or without
-- all of them where they are fewer), with the order kept, for n the number of entries beyond the
-- limit of 500.
pub trim_lem :
    (journal : Journal)
    → (trim journal).entries
      ≡ drop_settled (length journal.entries - max_journal_entries) journal.entries
unfolding trim
trim_lem journal =
    trim_loop_lem (length journal.entries) (length journal.entries - max_journal_entries)
      journal.entries (omega arith) (omega arith) (omega arith)

pub interrupted-drop_settled :
    (n : ℕ) (es : List JournalEntry)
    → keep is_interrupted (drop_settled n es) ≡ keep is_interrupted es
unfolding drop_settled
interrupted-drop_settled zero es = refl
interrupted-drop_settled (suc n) [] = refl
interrupted-drop_settled (suc n) (e ∷ es) =
    ground (arith, interrupted-drop_settled (suc n) es, interrupted-drop_settled n es)

-- no interrupted intent is dropped
pub interrupted-trim :
    (journal : Journal) → interrupted_entries (trim journal) ≡ interrupted_entries journal
unfolding interrupted_entries
interrupted-trim journal =
    ap (keep is_interrupted) (trim_lem journal)
    ∙ interrupted-drop_settled (length journal.entries - max_journal_entries) journal.entries

length-drop_settled :
    (n : ℕ) (es : List JournalEntry)
    → (length (drop_settled n es) + n ≡ length es)
      ⊎ All (λ e. is_interrupted e ≡ true) (drop_settled n es)
unfolding drop_settled
length-drop_settled zero es = inl (omega arith)
length-drop_settled (suc n) [] = inr tt
length-drop_settled (suc n) (e ∷ es) =
    ground (arith, length-drop_settled (suc n) es, length-drop_settled n es)

-- After trim the journal has at most 500 entries, or every entry in it is interrupted.
pub trim_bound :
    (journal : Journal)
    → (length (trim journal).entries ≤ max_journal_entries)
      ⊎ All (λ e. is_interrupted e ≡ true) (trim journal).entries
trim_bound journal = rw trim_lem (
    ground
      (arith, length-drop_settled (length journal.entries - max_journal_entries) journal.entries))

-- Recording an entry without an outcome adds it to the end of the interrupted entries and loses
-- none of those before, also where the journal is trimmed.
pub record_intent-interrupted :
    (journal : Journal) (entry : JournalEntry)
    → is_interrupted entry ≡ true
    → interrupted_entries (record_intent journal entry) ≡ interrupted_entries journal ++ entry ∷ []
unfolding record_intent
record_intent-interrupted journal entry h =
    interrupted-trim (record journal { entries = journal.entries ++ entry ∷ [] })
    ∙ unfold interrupted_entries in (keep-append is_interrupted journal.entries (entry ∷ []) ∙ rw h)
