-- ===== src/Protection/PackLaws.antt =====
-- Which rule packs `validate` of crates/protection-core/src/pack.rs accepts.
use supa_diska_klinah.Base.{
  ℕ, ◌≤◌, ◌<◌, ◌≡◌, ◌≢◌, ◌↔◌, inl, inr, true, false, some, List, [], ◌∷◌, Text, Text-discrete,
  as_bytes, length, all, any, is_control, eq_of_same, same_of_eq, ok, arith, All, Option-cases,
}
use supa_diska_klinah.Protection.Hex.{from_hex}
use supa_diska_klinah.Protection.Pack.{
  RulePack, Rule, RuleMatch, sha256_match, bytes_match, file_name_match, TextField, pack_format,
  max_rules, max_name_chars, max_provenance_chars, min_pattern_bytes, max_pattern_bytes,
  max_pattern_offset, max_file_name_chars, parse_version, triple_lt, is_timestamp, bounded_text,
  valid_id, is_lower_digit, is_separator, contains, validate_match, validate_rule, validate_rules,
  validate_pack,
}

-- Between one and so many characters, none of them a control character.
abbrev pub TextIsBounded : Text → ℕ → Type 0
TextIsBounded value max = (0 < length value) × (length value ≤ max) × (any is_control value ≡ false)

abbrev pub MatchIsValid : RuleMatch → Type 0
MatchIsValid (sha256_match sha256) =
    (length (as_bytes sha256) ≡ 64) × (all is_lower_digit (as_bytes sha256) ≡ true)
MatchIsValid (bytes_match pattern_hex offset_min offset_max max_file_size) =
    (bytes : List ℕ) × (from_hex pattern_hex ≡ some bytes)
    × (min_pattern_bytes ≤ length bytes)
    × (length bytes ≤ max_pattern_bytes)
    × (offset_min ≤ offset_max)
    × (offset_max ≤ max_pattern_offset)
    × (max_file_size ≢ some 0)
MatchIsValid (file_name_match name) =
    TextIsBounded name max_file_name_chars × (any is_separator name ≡ false)

pub record RuleIsValid (rule : Rule) : Type 0 where
  pub id_is_valid : valid_id rule.id ≡ true
  pub name_is_bounded : TextIsBounded rule.name max_name_chars
  pub provenance_is_bounded : TextIsBounded rule.provenance max_provenance_chars
  pub match_is_valid : MatchIsValid rule.matcher

-- No two rules have the same identifier.
abbrev pub DistinctRules : List Rule → Type 0
DistinctRules [] = Unit
DistinctRules (rule ∷ rules) =
    All (λ (other : Rule). rule.id ≢ other.id) rules × DistinctRules rules

pub record PackIsValid (pack : RulePack) (app_version : Text) : Type 0 where
  pub format_is : pack.format ≡ pack_format
  pub has_sequence : 0 < pack.sequence
  pub has_timestamp : is_timestamp pack.created ≡ true
  pub version_is_met :
      (required running : ℕ × ℕ × ℕ) × (parse_version pack.min_app_version ≡ some required)
      × (parse_version app_version ≡ some running)
      × (triple_lt running required ≡ false)
  pub description_is_bounded : TextIsBounded pack.description max_provenance_chars
  pub some_rules : 0 < length pack.rules
  pub rules_bounded : length pack.rules ≤ max_rules
  pub rules_are_valid : All RuleIsValid pack.rules
  pub rules_are_distinct : DistinctRules pack.rules

bounded_text_lem :
    (field : TextField) (value : Text) (max : ℕ)
    → (bounded_text field value max ≡ ok tt) ↔ TextIsBounded value max
unfolding bounded_text
bounded_text_lem field value max = ground arith

validate_match_lem : (id : Text) (m : RuleMatch) → (validate_match id m ≡ ok tt) ↔ MatchIsValid m
unfolding validate_match
validate_match_lem id (sha256_match sha256) = ground arith
validate_match_lem id (bytes_match pattern_hex offset_min offset_max max_file_size) =
    elim (Option-cases (from_hex pattern_hex)) [
      | inl p ↦ ground arith
      | inr (bytes, p) ↦ ground arith
    ]
validate_match_lem id (file_name_match name) = ground arith

-- No identifier seen before is that of the rule.
abbrev NewTo : List Text → Rule → Type 0
NewTo ids rule = All (λ id. id ≢ rule.id) ids

contains_lem :
    (id : Text) (ids : List Text) → (contains id ids ≡ false) ↔ All (λ other. other ≢ id) ids
contains_lem id [] = ground arith
contains_lem id (other ∷ ids) = ground (
  arith,
  contains_lem id ids,
  eq_of_same Text-discrete other id,
  same_of_eq Text-discrete other id,
)

validate_rule_lem :
    (ids : List Text) (rule : Rule)
    → (validate_rule ids rule ≡ ok tt) ↔ (NewTo ids rule × RuleIsValid rule)
unfolding validate_rule
validate_rule_lem ids rule =
    ground (arith, contains_lem rule.id ids, validate_match_lem rule.id rule.matcher)

-- splits off the identifier seen last
NewTo-split :
    (id : Text) (ids : List Text) (rules : List Rule)
    → All (NewTo (id ∷ ids)) rules
      ↔ (All (λ (other : Rule). id ≢ other.id) rules × All (NewTo ids) rules)
NewTo-split id ids [] = ground arith
NewTo-split id ids (rule ∷ rules) = ground (arith, NewTo-split id ids rules)

validate_rules_lem :
    (ids : List Text) (rules : List Rule)
    → (validate_rules ids rules ≡ ok tt)
      ↔ (All (NewTo ids) rules × All RuleIsValid rules × DistinctRules rules)
unfolding validate_rules
validate_rules_lem ids [] = ground arith
validate_rules_lem ids (rule ∷ rules) = ground (
  arith,
  validate_rule_lem ids rule,
  validate_rules_lem (rule.id ∷ ids) rules,
  NewTo-split rule.id ids rules,
)

All-NewTo_none : (rules : List Rule) → All (NewTo []) rules
All-NewTo_none [] = tt
All-NewTo_none (rule ∷ rules) = (tt, All-NewTo_none rules)

pack_accepted :
    (pack : RulePack) (app_version : Text)
    → validate_pack pack app_version ≡ ok tt
    → PackIsValid pack app_version
unfolding validate_pack
pack_accepted pack app_version h = elim (Option-cases (parse_version pack.min_app_version)) [
  | inl p ↦ absurd (ground arith)
  | inr (required, p) ↦ elim (Option-cases (parse_version app_version)) [
    | inl q ↦ absurd (ground arith)
    | inr (running, q) ↦ ground (arith, validate_rules_lem [] pack.rules, p, q)
  ]
]

pack_complete :
    (pack : RulePack) (app_version : Text)
    → PackIsValid pack app_version
    → validate_pack pack app_version ≡ ok tt
unfolding validate_pack
pack_complete pack app_version v =
    let (required, running, p, q, met) = v.version_is_met in
    ground (
      arith,
      validate_rules_lem [] pack.rules,
      All-NewTo_none pack.rules,
      p,
      q,
      met,
      v.format_is,
      v.has_sequence,
      v.has_timestamp,
      v.description_is_bounded,
      v.some_rules,
      v.rules_bounded,
      v.rules_are_valid,
      v.rules_are_distinct,
    )

-- A rule pack passes validate exactly if it has format 1, a sequence from 1, a timestamp of the
-- accepted form, a minimum version that parses and is not above the parsed running one, a bounded
-- description, 1 to 4096 rules, no two rules with one identifier, and each rule has an accepted
-- identifier, a bounded name and provenance and a valid matcher.
pub validate_pack_lem :
    (pack : RulePack) (app_version : Text)
    → (validate_pack pack app_version ≡ ok tt) ↔ PackIsValid pack app_version
validate_pack_lem pack app_version =
    (pack_accepted pack app_version, pack_complete pack app_version)
