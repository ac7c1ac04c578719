-- ===== src/Tests/Packs.antt =====
-- A concrete rule pack for the laws of crates/protection-core/src/pack.rs.
use supa_diska_klinah.Base.{
  ◌≡◌, ◌↔◌, refl, Text-discrete, ℕ_discrete, same, codes, none, some, [], ◌∷◌, ◌++◌, ok, replicate,
  ℕ, List, length, false, ◌≤◌, ◌+◌,
}
use supa_diska_klinah.Protection.Pack.{
  RulePack, high, sha256_match, bytes_match, file_name_match, validate_pack, validate_rules,
  validate_rule, validate_match, bounded_text, valid_id, is_timestamp, parse_version,
  max_pattern_offset, max_pattern_bytes, triple_lt,
}
use supa_diska_klinah.Protection.Hex.{from_hex}
use supa_diska_klinah.Protection.PackVerifier.{
  PackLibrary, PackIsSigned, verify_pack, pack_signature, strip_single_newline,
  verify_pack-PackIsSigned,
}
use supa_diska_klinah.Protection.Matcher.{MatcherLibrary, new_matcher, finish, compile}
use supa_diska_klinah.Protection.Streaming.{concat, feed, whole, feed_lem, compile-bound}
use mathlib.Core.List.{append_assoc, append-nil}
use supa_diska_klinah.Protection.PackLaws.{PackIsValid, validate_pack_lem}

abbrev three_rules : RulePack
three_rules = record {
  format = 1;
  sequence = 7;
  created = codes "2026-01-31T12:00:00Z";
  min_app_version = codes "1.2.0";
  description = codes "demo";
  rules =
      record {
        id = codes "a.1";
        name = codes "first";
        severity = high;
        provenance = codes "lab";
        matcher = sha256_match (replicate 64 b'a');
      }
      ∷ record {
        id = codes "a.2";
        name = codes "second";
        severity = high;
        provenance = codes "lab";
        matcher = bytes_match (codes "0011aaFF") 0 512 none;
      }
      ∷ record {
        id = codes "a.3";
        name = codes "third";
        severity = high;
        provenance = codes "lab";
        matcher = file_name_match (codes "evil.exe");
      }
      ∷ [];
}

validate_pack_lem_example :
    (validate_pack three_rules (codes "1.10.0") ≡ ok tt) ↔ PackIsValid three_rules (codes "1.10.0")
validate_pack_lem_example = validate_pack_lem three_rules (codes "1.10.0")

three_rules_accepted : validate_pack three_rules (codes "1.10.0") ≡ ok tt
unfolding validate_pack validate_rules validate_rule validate_match bounded_text valid_id
    is_timestamp parse_version triple_lt from_hex Text-discrete ℕ_discrete
three_rules_accepted = refl

-- A library with one signature and one pack.
abbrev one_pack : PackLibrary
one_pack = record {
  Key = ℕ;
  key_from_bytes = λ bytes. some (length bytes);
  is_weak = λ key. false;
  verify_strict = λ key message signature. same Text-discrete signature (replicate 64 170);
  decode_pack = λ bytes. some three_rules;
}

pack_is_verified :
    verify_pack one_pack 3 (1 ∷ 2 ∷ []) (replicate 128 b'a' ++ 10 ∷ []) (codes "1.10.0")
    ≡ ok three_rules
unfolding verify_pack pack_signature strip_single_newline validate_pack validate_rules validate_rule
    validate_match bounded_text valid_id is_timestamp parse_version triple_lt from_hex Text-discrete
    ℕ_discrete
pack_is_verified = refl

verify_pack-PackIsSigned_example :
    PackIsSigned one_pack 3
      (1 ∷ 2 ∷ [])
      (replicate 128 b'a' ++ 10 ∷ [])
      (codes "1.10.0")
      three_rules
verify_pack-PackIsSigned_example =
    verify_pack-PackIsSigned one_pack 3 (1 ∷ 2 ∷ []) (replicate 128 b'a' ++ 10 ∷ [])
      (codes "1.10.0") three_rules pack_is_verified

-- A hash that keeps everything, and a search that finds nothing.
abbrev plain_hash : MatcherLibrary
plain_hash = record {
  Hasher = List ℕ;
  new_hasher = [];
  hash_update = λ h bytes. h ++ bytes;
  finalize = λ h. h;
  to_lowercase = λ text. text;
  find_overlapping = λ patterns head. [];
}

abbrev two_chunks : List (List ℕ)
two_chunks = (1 ∷ 2 ∷ []) ∷ (3 ∷ []) ∷ []

feed_lem_example :
    finish plain_hash
      (compile plain_hash three_rules)
      (feed plain_hash (compile plain_hash three_rules) (new_matcher plain_hash) two_chunks)
    ≡ finish plain_hash
        (compile plain_hash three_rules)
        (whole plain_hash (compile plain_hash three_rules) (concat two_chunks))
feed_lem_example =
    feed_lem plain_hash append_assoc append-nil (compile plain_hash three_rules) two_chunks

compile-bound_example :
    length
      (feed plain_hash (compile plain_hash three_rules) (new_matcher plain_hash) two_chunks).head
    ≤ max_pattern_offset + max_pattern_bytes
compile-bound_example =
    compile-bound plain_hash three_rules (codes "1.10.0") two_chunks three_rules_accepted
