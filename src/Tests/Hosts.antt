-- ===== src/Tests/Hosts.antt =====
-- A concrete hosts file for the laws of crates/windows-platform/src/hosts/mod.rs.
use supa_diska_klinah.Base.{
  arith, ℕ, ◌≡◌, refl, codes, Option, none, some, List, [], ◌∷◌, ◌++◌, true, false, all, is_empty,
  is_ascii_digit, ok, ◌>>=◌, ◌>>◌, All, replicate, take, ◌==◌, ◌||◌, not, ◌&&◌, if◌then◌else◌, ◌≢◌,
  get_elem?,
}
use supa_diska_klinah.Contract.Ids.{Sha256Digest}
use supa_diska_klinah.Contract.Types.{
  SystemChange, edit_hosts, HostsLineOp, disable, restore_line, hosts_file,
}
use supa_diska_klinah.Contract.Changes.{
  op_lines, validate, validate_hosts, inverse, sort_unstable, insert_sorted, any_adjacent_equal,
}
use supa_diska_klinah.HostsFile.Document.{
  HostsLibrary, parse_document, to_bytes, classify, classify_line, body_offset, starts_with,
  trim_ascii, trim_start, trim_end, before_hash, words, valid_hostname, parse_mapping,
}
use supa_diska_klinah.HostsFile.Edit.{
  edit, edit_ops, edit_op, op_state, state_of, changed_line, check_ops, validated_ops, ops_of,
}
use supa_diska_klinah.HostsFile.RoundTrip.{
  parse_document-to_bytes, IsCanonical, to_bytes-parse_document,
}
use supa_diska_klinah.HostsFile.Restoring.{HasWork}
use supa_diska_klinah.HostsFile.Report.{findings, max_findings}
use supa_diska_klinah.HostsFile.Findings.{all_findings, findings_lem}
use supa_diska_klinah.HostsFile.Rollback.{edit_rejected, edit_restored, edit_settled}

-- Addresses are rows of digits and dots.
abbrev digits : List ℕ → Option (List ℕ)
digits bytes =
    if not (is_empty bytes) && all (λ b. is_ascii_digit b || (b == b'.')) bytes
    then some bytes
    else none

abbrev dotted : HostsLibrary
dotted = record {
  IpAddr = List ℕ;
  parse_ip = digits;
  is_loopback = λ ip. false;
  is_unspecified = λ ip. false;
  ip_text = λ ip. ip;
  is_utf8 = λ bytes. true;
  sha256_hex = λ bytes. replicate 64 b'0';
}

dotted_no_bom : (bs : List ℕ) → digits (0xef ∷ bs) ≡ none
dotted_no_bom bs = refl

abbrev line_feed : List ℕ
line_feed = 10 ∷ []

abbrev two_mappings : List ℕ
two_mappings =
    codes "127.0.0.1 localhost"
    ++ (line_feed ++ (codes "#sdk-disabled# 1.2.3.4 Ads.example # x" ++ line_feed))

abbrev both_ops : List HostsLineOp
both_ops = record { line = 0; action = disable } ∷ record { line = 1; action = restore_line } ∷ []

abbrev two_mappings_edited : List ℕ
two_mappings_edited =
    codes "#sdk-disabled# 127.0.0.1 localhost"
    ++ (line_feed ++ (codes "1.2.3.4 Ads.example # x" ++ line_feed))

abbrev zero_digest : Sha256Digest
zero_digest = record { as_str = replicate 64 b'0' }

two_mappings-edit : edit dotted two_mappings both_ops ≡ ok two_mappings_edited
unfolding edit edit_ops edit_op op_state state_of changed_line validated_ops validate validate_hosts
    sort_unstable insert_sorted any_adjacent_equal classify classify_line body_offset starts_with
    trim_ascii trim_start trim_end before_hash words valid_hostname parse_mapping parse_document
    to_bytes
two_mappings-edit = refl

two_mappings-validate : validate_hosts both_ops ≡ ok tt
unfolding validate_hosts sort_unstable insert_sorted any_adjacent_equal
two_mappings-validate = refl

two_mappings-HasWork : All (HasWork dotted (parse_document two_mappings)) both_ops
unfolding op_state state_of classify classify_line body_offset starts_with trim_ascii trim_start
    trim_end before_hash words valid_hostname parse_mapping parse_document
two_mappings-HasWork = (refl, (refl, tt))

edit_restored_example :
    (updated : List ℕ) × ((edit dotted two_mappings both_ops ≡ ok updated)
      × ((undo : SystemChange) × ((inverse (edit_hosts both_ops) (hosts_file zero_digest)
              ≡ ok (some undo))
            × ((ops_of undo >>= edit dotted updated) ≡ ok two_mappings))))
edit_restored_example =
    edit_restored dotted dotted_no_bom two_mappings both_ops zero_digest two_mappings-validate
      two_mappings-HasWork

edit_settled_example :
    All (λ op. op_state dotted (parse_document two_mappings_edited) op ≡ ok true) both_ops
    × ((l : ℕ)
        → All (λ k. l ≢ k) (op_lines both_ops)
        → get_elem? (parse_document two_mappings_edited).lines l
          ≡ get_elem? (parse_document two_mappings).lines l)
edit_settled_example =
    edit_settled dotted dotted_no_bom two_mappings both_ops two_mappings_edited two_mappings-edit

edit_rejected_example :
    (edit dotted two_mappings both_ops >>= λ _. ok tt)
    ≡ (validated_ops both_ops >> check_ops dotted (parse_document two_mappings) both_ops)
edit_rejected_example = edit_rejected dotted two_mappings both_ops

to_bytes-parse_document_example : to_bytes (parse_document two_mappings) ≡ two_mappings
to_bytes-parse_document_example = to_bytes-parse_document two_mappings

findings_lem_example :
    findings dotted (parse_document two_mappings)
    ≡ take max_findings (all_findings dotted 0 (parse_document two_mappings).lines)
findings_lem_example = findings_lem dotted (parse_document two_mappings)

ab-IsCanonical :
    IsCanonical (record { lines = codes "a" ∷ codes "b" ∷ []; trailing_newline = true })
ab-IsCanonical = ground arith

parse_document-to_bytes_example :
    parse_document
      (to_bytes (record { lines = codes "a" ∷ codes "b" ∷ []; trailing_newline = true }))
    ≡ record { lines = codes "a" ∷ codes "b" ∷ []; trailing_newline = true }
parse_document-to_bytes_example =
    parse_document-to_bytes (record { lines = codes "a" ∷ codes "b" ∷ []; trailing_newline = true })
      ab-IsCanonical
