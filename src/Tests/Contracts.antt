-- ===== src/Tests/Contracts.antt =====
-- Concrete cases for the laws of crates/cleanup-core/src/system_change.rs.
use supa_diska_klinah.Base.{
  ◌≡◌, refl, ◌↔◌, ◌⊎◌, Text, Text-discrete, ℕ_discrete, codes, true, none, some, [], ◌∷◌, ◌++◌, ok,
  arith, keep, length, replicate, all, All, ◌-◌, ◌<◌, ◌≤◌, List,
}
use supa_diska_klinah.Contract.Ids.{is_guid, is_driver_package, is_lower_hex}
use supa_diska_klinah.Contract.Types.{
  SystemChange, set_user_setting, edit_hosts, remove_scan_schedule, disable, restore_line,
  registry_value, hosts_file, HostsLineOp, reversible, PriorState, hosts,
}
use supa_diska_klinah.Contract.Changes.{
  inverse, inverse_of, inverse_action, is_satisfied_by, module_of, privilege, reversibility,
  is_reversible, validate, validate_hosts, sort_unstable, insert_sorted, any_adjacent_equal,
  op_lines, max_hosts_line_ops,
}
use supa_diska_klinah.Contract.Plans.{applied}
use supa_diska_klinah.Contract.Journal.{
  Journal, JournalEntry, is_interrupted, rollback_status, trim, record_intent, record_outcome, find,
  interrupted_entries, max_journal_entries,
}
use supa_diska_klinah.Contract.Trimming.{
  trim_lem, trim_bound, record_intent-interrupted, drop_settled,
}
use supa_diska_klinah.Contract.Inverse.{inverse_restores, inverse_scope, inverse_valid}
use supa_diska_klinah.Contract.Entries.{
  available-restores, record_outcome-interrupted, EntryIsSound, other_than,
}
use supa_diska_klinah.Contract.Outcomes.{RecordsFound, find-record_outcome}
use supa_diska_klinah.Contract.HostsEdit.{hosts_edit_accepted, AllDistinct}
use supa_diska_klinah.Contract.IdLaws.{guid_plain, is_guid_char, driver_package_shape, IsDecimal}

abbrev setting : SystemChange
setting = set_user_setting (record { as_str = codes "telemetry" }) (some 0)

abbrev setting_back : SystemChange
setting_back = set_user_setting (record { as_str = codes "telemetry" }) (some 1)

abbrev two_lines : List HostsLineOp
two_lines = record { line = 3; action = disable } ∷ record { line = 1; action = restore_line } ∷ []

abbrev two_lines_back : List HostsLineOp
two_lines_back =
    record { line = 3; action = restore_line } ∷ record { line = 1; action = disable } ∷ []

abbrev hosts_before : PriorState
hosts_before = hosts_file (record { as_str = codes "aa" })

abbrev hosts_after : PriorState
hosts_after = hosts_file (record { as_str = codes "bb" })

abbrev entry_with : Text → JournalEntry
entry_with id = record {
  id = id;
  plan_id = codes "p";
  recorded_at = 5;
  change = setting;
  prior = registry_value (some 1);
  undoing = reversible;
  inverse_change = some setting_back;
  outcome = none;
  rolled_back_by = none;
}

abbrev done_entry : JournalEntry
done_entry = record (entry_with (codes "a")) { outcome = some applied }

abbrev two_entries : Journal
two_entries = record { version = 1; entries = done_entry ∷ entry_with (codes "b") ∷ [] }

inverse_restores_example :
    (is_satisfied_by setting_back (registry_value (some 1)) ≡ some true)
    ⊎ (module_of setting ≡ hosts)
inverse_restores_example =
    inverse_restores setting setting_back (registry_value (some 1))
      (unfold inverse inverse_of reversibility is_reversible in refl)

inverse_scope_example :
    (module_of setting_back ≡ module_of setting) × (privilege setting_back ≡ privilege setting)
inverse_scope_example =
    inverse_scope setting setting_back (registry_value (some 1))
      (unfold inverse inverse_of reversibility is_reversible in refl)

inverse_valid_example : validate (edit_hosts two_lines_back) ≡ ok tt
inverse_valid_example =
    inverse_valid (edit_hosts two_lines) (edit_hosts two_lines_back) hosts_before
      (unfold validate validate_hosts sort_unstable insert_sorted any_adjacent_equal in refl) tt
      (unfold inverse inverse_of reversibility is_reversible inverse_action in refl)

abbrev no_schedule : SystemChange
no_schedule = remove_scan_schedule (record { as_str = codes "s" })

hosts_edit_accepted_example : (validate_hosts two_lines ≡ ok tt) ↔ (
    (0 < length two_lines)
    × (length two_lines ≤ max_hosts_line_ops)
    × AllDistinct (op_lines two_lines))
hosts_edit_accepted_example = hosts_edit_accepted two_lines

done_entry-EntryIsSound : EntryIsSound done_entry
done_entry-EntryIsSound = record {
  undoing_of = unfold reversibility in refl;
  inverse_of = unfold inverse inverse_of reversibility is_reversible in refl;
}

available-restores_example :
    (undo : SystemChange) × (done_entry.inverse_change ≡ some undo)
    × (done_entry.outcome ≡ some applied)
    × ((is_satisfied_by undo done_entry.prior ≡ some true) ⊎ (module_of done_entry.change ≡ hosts))
available-restores_example =
    available-restores done_entry done_entry-EntryIsSound
      (unfold rollback_status is_reversible in refl)

-- A journal above the limit.
abbrev long_journal : Journal
long_journal = record { version = 1; entries = entry_with (codes "b") ∷ replicate 501 done_entry }

trim_lem_example :
    (trim long_journal).entries
    ≡ drop_settled (length long_journal.entries - max_journal_entries) long_journal.entries
trim_lem_example = trim_lem long_journal

trim_bound_example :
    (length (trim long_journal).entries ≤ max_journal_entries)
    ⊎ All (λ e. is_interrupted e ≡ true) (trim long_journal).entries
trim_bound_example = trim_bound long_journal

record_intent-interrupted_example :
    interrupted_entries (record_intent long_journal (entry_with (codes "c")))
    ≡ interrupted_entries long_journal ++ entry_with (codes "c") ∷ []
record_intent-interrupted_example =
    record_intent-interrupted long_journal (entry_with (codes "c")) (unfold is_interrupted in refl)

find-record_outcome_example :
    RecordsFound applied
      (some (registry_value (some 1)))
      (find two_entries (codes "b"))
      (find
        (record_outcome two_entries (codes "b") applied (some (registry_value (some 1)))).0
        (codes "b"))
      (record_outcome two_entries (codes "b") applied (some (registry_value (some 1)))).1
    × ((codes "b" ≡ codes "a")
        ⊎ (find
              (record_outcome two_entries (codes "b") applied (some (registry_value (some 1)))).0
              (codes "a")
            ≡ find two_entries (codes "a")))
find-record_outcome_example =
    find-record_outcome two_entries (codes "b") (codes "a") applied (some (registry_value (some 1)))

record_outcome-interrupted_example :
    interrupted_entries (record_outcome two_entries (codes "b") applied none).0
    ≡ keep (other_than (codes "b")) (interrupted_entries two_entries)
record_outcome-interrupted_example =
    record_outcome-interrupted two_entries (codes "b") applied none ((ground arith, tt), (tt, tt))

abbrev guid : Text
guid = codes "01234567-89ab-cdef-0123-456789abcdef"

guid_plain_example : (length guid ≡ 36) × (all is_guid_char guid ≡ true)
guid_plain_example = guid_plain guid (unfold is_guid is_lower_hex Text-discrete ℕ_discrete in refl)

driver_package_shape_example : (is_driver_package (codes "oem42.inf") ≡ true) ↔ (
    (digits : Text) × (codes "oem42.inf" ≡ codes "oem" ++ (digits ++ codes ".inf"))
    × ((1 ≤ length digits) × (length digits ≤ 5) × All IsDecimal digits))
driver_package_shape_example = driver_package_shape (codes "oem42.inf")
