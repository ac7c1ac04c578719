-- ===== src/Protection/Pack.antt =====
-- The rule packs of crates/protection-core/src/pack.rs: their types and `validate`. The text that
-- `PackError::Invalid` carries is a value that stands for it, `InvalidPack`; that of `Malformed`, which
-- the JSON decoder makes, is left out.
use supa_diska_klinah.Protection.Options.{◌>>=◌ as bind_option}
use supa_diska_klinah.Base.{
  ℕ, suc, ◌*◌, Bool, true, false, not, ◌&&◌, ◌||◌, Option, none, some, List, [], ◌∷◌, Text,
  Text-discrete, as_bytes, length, all, any, is_empty, is_ascii_digit, is_ascii_lowercase,
  is_control, split, leb, ltb, ◌==◌, if◌then◌else◌, same, Result, ok, err, ◌>>=◌, ◌>>◌, guard,
  ok_or,
}
use supa_diska_klinah.Protection.Hex.{from_hex}
use supa_diska_klinah.Protection.Version.{decimal_from, u32_max}

abbrev pub pack_format : ℕ
pack_format = 1

abbrev pub max_rules : ℕ
max_rules = 4096

abbrev pub max_id_chars : ℕ
max_id_chars = 64

abbrev pub max_name_chars : ℕ
max_name_chars = 128

abbrev pub max_provenance_chars : ℕ
max_provenance_chars = 256

abbrev pub min_pattern_bytes : ℕ
min_pattern_bytes = 4

abbrev pub max_pattern_bytes : ℕ
max_pattern_bytes = 256

abbrev pub max_pattern_offset : ℕ
max_pattern_offset = 1024 * 1024

abbrev pub max_file_name_chars : ℕ
max_file_name_chars = 255

pub data TextField : Type 0 where
  description_field name_field provenance_field file_name_field : TextField

pub data InvalidPack : Type 0 where
  bad_sequence bad_created bad_min_app_version bad_app_version bad_rule_count : InvalidPack
  bad_text : (field : TextField) (max : ℕ) → InvalidPack
  bad_id bad_sha256 bad_pattern bad_pattern_length bad_offsets bad_max_file_size bad_file_name :
      (id : Text) → InvalidPack

pub data PackError : Type 0 where
  too_large empty malformed_signature malformed_key bad_signature malformed : PackError
  unsupported_format : (format : ℕ) → PackError
  requires_newer_app : (version : Text) → PackError
  invalid : (detail : InvalidPack) → PackError
  duplicate_rule_id : (id : Text) → PackError
  rollback : (candidate floor : ℕ) → PackError
  no_previous : PackError

pub data Severity : Type 0 where
  low medium high : Severity

pub data RuleMatch : Type 0 where
  sha256_match : (sha256 : Text) → RuleMatch
  bytes_match :
      (pattern_hex : Text) (offset_min offset_max : ℕ) (max_file_size : Option ℕ) → RuleMatch
  file_name_match : (name : Text) → RuleMatch

pub record Rule : Type 0 where
  pub id : Text
  pub name : Text
  pub severity : Severity
  pub provenance : Text
  pub matcher : RuleMatch

pub record RulePack : Type 0 where
  pub format : ℕ
  pub sequence : ℕ
  pub created : Text
  pub min_app_version : Text
  pub description : Text
  pub rules : List Rule

abbrev without_plus : List ℕ → List ℕ
without_plus [] = []
without_plus (b ∷ bs) = if b == b'+' then bs else b ∷ bs

-- `str::parse::<u32>().ok()`: a plus sign and leading zeros are allowed.
unfoldable pub parse_number : Text → Option ℕ
unfolding decimal_from
parse_number text =
    let digits = without_plus (as_bytes text) in
    if not (is_empty digits) && all is_ascii_digit digits && leb (decimal_from 0 digits) u32_max
    then some (decimal_from 0 digits)
    else none

abbrev pub parse_version_parts : List Text → Option (ℕ × ℕ × ℕ)
parse_version_parts (a ∷ b ∷ c ∷ []) = bind_option (parse_number a) (λ major.
    bind_option (parse_number b)
      (λ minor. bind_option (parse_number c) (λ patch. some (major, minor, patch))))
parse_version_parts _ = none

unfoldable pub parse_version : Text → Option (ℕ × ℕ × ℕ)
unfolding parse_number
parse_version text = parse_version_parts (split b'.' text)

-- The order of the tuples.
unfoldable pub triple_lt : ℕ × ℕ × ℕ → ℕ × ℕ × ℕ → Bool
triple_lt (a, b, c) (x, y, z) = ltb a x || ((a == x) && (ltb b y || ((b == y) && ltb c z)))

abbrev timestamp_byte : ℕ → ℕ → Bool
timestamp_byte index byte =
    if (index == 4) || (index == 7)
    then byte == b'-'
    else if index == 10
    then byte == b'T'
    else if (index == 13) || (index == 16)
    then byte == b':'
    else if index == 19
    then byte == b'Z'
    else is_ascii_digit byte

unfoldable pub timestamp_from : ℕ → List ℕ → Bool
timestamp_from index [] = true
timestamp_from index (byte ∷ bytes) = timestamp_byte index byte && timestamp_from (suc index) bytes

unfoldable pub is_timestamp : Text → Bool
unfolding timestamp_from
is_timestamp text = (length (as_bytes text) == 20) && timestamp_from 0 (as_bytes text)

unfoldable pub bounded_text : TextField → Text → ℕ → Result PackError (Unit {0})
bounded_text field value max =
    if (length value == 0) || ltb max (length value) || any is_control value
    then err (invalid (bad_text field max))
    else ok tt

abbrev pub is_id_byte : ℕ → Bool
is_id_byte byte =
    is_ascii_lowercase byte
    || is_ascii_digit byte
    || (byte == b'.')
    || (byte == b'_')
    || (byte == b'-')

unfoldable pub valid_id : Text → Bool
valid_id id =
    not (is_empty (as_bytes id))
    && leb (length (as_bytes id)) max_id_chars
    && all is_id_byte (as_bytes id)

abbrev pub is_lower_digit : ℕ → Bool
is_lower_digit b = is_ascii_digit b || (leb b'a' b && leb b b'f')

-- A backslash, a slash or a colon.
abbrev pub is_separator : ℕ → Bool
is_separator c = (c == 92) || (c == 47) || (c == 58)

abbrev pub is_zero_size : Option ℕ → Bool
is_zero_size none = false
is_zero_size (some n) = n == 0

unfoldable pub validate_match : Text → RuleMatch → Result PackError (Unit {0})
unfolding bounded_text
validate_match id (sha256_match sha256) =
    guard ((length (as_bytes sha256) == 64) && all is_lower_digit (as_bytes sha256))
      (invalid (bad_sha256 id))
validate_match id (bytes_match pattern_hex offset_min offset_max max_file_size) = do
  bytes ← ok_or (from_hex pattern_hex) (invalid (bad_pattern id))
  guard (leb min_pattern_bytes (length bytes) && leb (length bytes) max_pattern_bytes)
      (invalid (bad_pattern_length id))
  guard (not (ltb offset_max offset_min || ltb max_pattern_offset offset_max))
      (invalid (bad_offsets id))
  guard (not (is_zero_size max_file_size)) (invalid (bad_max_file_size id))
validate_match id (file_name_match name) = do
  bounded_text file_name_field name max_file_name_chars
  guard (not (any is_separator name)) (invalid (bad_file_name id))

-- `ids.insert(id)` is false.
abbrev pub contains : Text → List Text → Bool
contains id ids = any (λ other. same Text-discrete other id) ids

-- The body of the loop over the rules, with the identifiers before this one.
unfoldable pub validate_rule : List Text → Rule → Result PackError (Unit {0})
unfolding bounded_text validate_match
validate_rule ids rule = do
  guard (valid_id rule.id) (invalid (bad_id rule.id))
  guard (not (contains rule.id ids)) (duplicate_rule_id rule.id)
  bounded_text name_field rule.name max_name_chars
  bounded_text provenance_field rule.provenance max_provenance_chars
  validate_match rule.id rule.matcher

unfoldable pub validate_rules : List Text → List Rule → Result PackError (Unit {0})
unfolding validate_rule
validate_rules ids [] = ok tt
validate_rules ids (rule ∷ rules) = validate_rule ids rule >> validate_rules (rule.id ∷ ids) rules

unfoldable pub validate_pack : RulePack → Text → Result PackError (Unit {0})
unfolding validate_rules bounded_text
validate_pack pack app_version = do
  guard (pack.format == pack_format) (unsupported_format pack.format)
  guard (not (pack.sequence == 0)) (invalid bad_sequence)
  guard (is_timestamp pack.created) (invalid bad_created)
  required ← ok_or (parse_version pack.min_app_version) (invalid bad_min_app_version)
  running ← ok_or (parse_version app_version) (invalid bad_app_version)
  guard (not (triple_lt running required)) (requires_newer_app pack.min_app_version)
  bounded_text description_field pack.description max_provenance_chars
  guard (not (is_empty pack.rules || ltb max_rules (length pack.rules))) (invalid bad_rule_count)
  validate_rules [] pack.rules

unfoldable pub check_install_sequence : ℕ → ℕ → Result PackError (Unit {0})
check_install_sequence candidate highest_installed =
    if leb candidate highest_installed then err (rollback candidate highest_installed) else ok tt

unfoldable pub check_restore_previous : Option ℕ → Result PackError ℕ
check_restore_previous previous = ok_or previous no_previous
