-- ===== src/Contract/Ids.antt =====
-- The validated identifiers of crates/cleanup-core/src/system_change.rs: `ContractError`, the
-- predicates, and the seven types that the macro `validated_string!` makes.
use supa_diska_klinah.Base.{
  ℕ, Bool, false, not, ◌&&◌, ◌||◌, Option, none, some, List, [], ◌∷◌, map, Result, ok, err, Text,
  codes, as_bytes, utf16_count, is_ascii_lowercase, is_ascii_digit, is_control, is_blank,
  strip_prefix, and_then_strip_suffix, split, length, all, any, is_empty, leb, ◌==◌, if◌then◌else◌,
  Text-discrete, ℕ_discrete, same,
}

pub data ContractError : Type 0 where
  invalid_catalog_id invalid_entry_name invalid_driver_package invalid_schedule_id : ContractError
  invalid_digest invalid_power_scheme invalid_description invalid_schedule : ContractError
  too_many_line_ops empty_line_ops duplicate_line unsupported_journal_version : ContractError

abbrev pub max_entry_name_utf16 : ℕ
max_entry_name_utf16 = 256

abbrev pub max_restore_description_utf16 : ℕ
max_restore_description_utf16 = 128

-- The first byte, tested behind `!bytes.is_empty()`.
abbrev first_is : (ℕ → Bool) → List ℕ → Bool
first_is p [] = false
first_is p (b ∷ _) = p b

abbrev pub is_catalog_byte : ℕ → Bool
is_catalog_byte b = is_ascii_lowercase b || is_ascii_digit b || (b == b'-') || (b == b'.')

unfoldable pub is_catalog_id : Text → Bool
is_catalog_id value =
    let bytes = as_bytes value in
    not (is_empty bytes)
    && leb (length bytes) 64
    && first_is is_ascii_lowercase bytes
    && all is_catalog_byte bytes

unfoldable pub is_entry_name : Text → Bool
is_entry_name value =
    not (is_blank value)
    && leb (utf16_count value) max_entry_name_utf16
    && not (any is_control value)

abbrev pub is_package_digits : Text → Bool
is_package_digits digits =
    (leb 1 (length (as_bytes digits)) && leb (length (as_bytes digits)) 5)
    && all is_ascii_digit (as_bytes digits)

abbrev pub is_package_stem : Option Text → Bool
is_package_stem none = false
is_package_stem (some digits) = is_package_digits digits

unfoldable pub is_driver_package : Text → Bool
is_driver_package value =
    is_package_stem (and_then_strip_suffix (codes ".inf") (strip_prefix (codes "oem") value))

abbrev pub is_hex_byte : ℕ → Bool
is_hex_byte b = is_ascii_digit b || (leb b'a' b && leb b b'f')

unfoldable pub is_lower_hex : Text → Bool
is_lower_hex value = all is_hex_byte (as_bytes value)

abbrev pub guid_lengths : List ℕ
guid_lengths = 8 ∷ 4 ∷ 4 ∷ 4 ∷ 12 ∷ []

unfoldable pub is_guid : Text → Bool
unfolding is_lower_hex
is_guid value =
    let groups = split b'-' value in
    (length groups == 5)
    && same Text-discrete (map (λ group. length (as_bytes group)) groups) guid_lengths
    && all is_lower_hex groups

unfoldable pub is_sha256 : Text → Bool
unfolding is_lower_hex
is_sha256 value = (length (as_bytes value) == 64) && is_lower_hex value

unfoldable pub is_description : Text → Bool
is_description value =
    not (is_blank value)
    && leb (utf16_count value) max_restore_description_utf16
    && not (any is_control value)

pub record CatalogId : Type 0 where
  pub as_str : Text

pub record EntryName : Type 0 where
  pub as_str : Text

pub record DriverPackageName : Type 0 where
  pub as_str : Text

pub record ScheduleId : Type 0 where
  pub as_str : Text

pub record Sha256Digest : Type 0 where
  pub as_str : Text

pub record PowerSchemeId : Type 0 where
  pub as_str : Text

pub record ChangeDescription : Type 0 where
  pub as_str : Text

-- The body of `parse` in the macro, for each validator, error and wrapper.
unfoldable pub parse_validated :
    {T : Type 0} → (Text → Bool) → ContractError → (Text → T) → Text → Result ContractError T
parse_validated validate error wrap value = if validate value then ok (wrap value) else err error

unfoldable pub parse_catalog_id : Text → Result ContractError CatalogId
unfolding parse_validated is_catalog_id
parse_catalog_id = parse_validated is_catalog_id invalid_catalog_id (λ v. record { as_str = v })

unfoldable pub parse_entry_name : Text → Result ContractError EntryName
unfolding parse_validated is_entry_name
parse_entry_name = parse_validated is_entry_name invalid_entry_name (λ v. record { as_str = v })

unfoldable pub parse_driver_package : Text → Result ContractError DriverPackageName
unfolding parse_validated is_driver_package
parse_driver_package =
    parse_validated is_driver_package invalid_driver_package (λ v. record { as_str = v })

unfoldable pub parse_schedule_id : Text → Result ContractError ScheduleId
unfolding parse_validated is_guid
parse_schedule_id = parse_validated is_guid invalid_schedule_id (λ v. record { as_str = v })

unfoldable pub parse_digest : Text → Result ContractError Sha256Digest
unfolding parse_validated is_sha256
parse_digest = parse_validated is_sha256 invalid_digest (λ v. record { as_str = v })

unfoldable pub parse_power_scheme : Text → Result ContractError PowerSchemeId
unfolding parse_validated is_guid
parse_power_scheme = parse_validated is_guid invalid_power_scheme (λ v. record { as_str = v })

unfoldable pub parse_description : Text → Result ContractError ChangeDescription
unfolding parse_validated is_description
parse_description = parse_validated is_description invalid_description (λ v. record { as_str = v })

unfoldable pub CatalogId-discrete : Discrete CatalogId
CatalogId-discrete = hlevel ℕ_discrete
