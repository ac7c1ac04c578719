-- ===== src/Tests/Evaluate.antt =====
-- The decided equalities of the data model compute on concrete values.
use supa_diska_klinah.Base.{◌≡◌, refl, Text-discrete, same, codes, true, false, some, ℕ_discrete}
use supa_diska_klinah.Contract.Types.{
  SystemChange-discrete, set_hibernation, Privilege-discrete, helper, PriorState-discrete,
  registry_value,
}

equal_texts : same Text-discrete (codes "ab") (codes "ab") ≡ true
unfolding Text-discrete ℕ_discrete
equal_texts = refl

different_changes :
    same SystemChange-discrete (set_hibernation true) (set_hibernation false) ≡ false
unfolding SystemChange-discrete ℕ_discrete
different_changes = refl

equal_privileges : same Privilege-discrete helper helper ≡ true
unfolding Privilege-discrete
equal_privileges = refl

equal_states : same PriorState-discrete (registry_value (some 1)) (registry_value (some 1)) ≡ true
unfolding PriorState-discrete ℕ_discrete
equal_states = refl
