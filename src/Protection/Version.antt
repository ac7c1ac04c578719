-- ===== src/Protection/Version.antt =====
-- `AppVersion` of crates/protection-core/src/update.rs: its parser, its order and its printer.
use supa_diska_klinah.Protection.Options.{◌>>=◌}
use supa_diska_klinah.Base.{
  ℕ, zero, suc, ◌+◌, ◌-◌, ◌*◌, ◌/◌, ◌%◌, ◌^◌, Bool, true, false, not, ◌&&◌, ◌||◌, Option, none,
  some, List, [], ◌∷◌, ◌++◌, Text, codes, as_bytes, length, all, is_ascii_digit, is_empty, split,
  leb, ltb, ◌==◌, if◌then◌else◌,
}

pub record AppVersion : Type 0 where
  pub major : ℕ
  pub minor : ℕ
  pub patch : ℕ

abbrev pub u32_max : ℕ
u32_max = 2 ^ 32 - 1

-- The number that a row of digits writes.
unfoldable pub decimal_from : ℕ → Text → ℕ
decimal_from acc [] = acc
decimal_from acc (c ∷ cs) = decimal_from (acc * 10 + (c - b'0')) cs

abbrev pub starts_with_zero : Text → Bool
starts_with_zero [] = false
starts_with_zero (c ∷ _) = c == b'0'

abbrev pub is_zero_text : Text → Bool
is_zero_text [] = false
is_zero_text (c ∷ []) = c == b'0'
is_zero_text (c ∷ _ ∷ _) = false

unfoldable pub is_number : Text → Bool
is_number part =
    not (is_empty part)
    && all is_ascii_digit (as_bytes part)
    && (is_zero_text part || not (starts_with_zero part))

-- `part.parse::<u32>().ok()` of a row of digits.
unfoldable pub parse_u32 : Text → Option ℕ
unfolding decimal_from
parse_u32 part = if leb (decimal_from 0 part) u32_max then some (decimal_from 0 part) else none

-- The closure `next`, at a part that the split has.
unfoldable pub parse_part : Text → Option ℕ
unfolding is_number parse_u32
parse_part part = if is_number part then parse_u32 part else none

abbrev pub parse_parts : List Text → Option AppVersion
parse_parts (a ∷ b ∷ c ∷ []) = do
  major ← parse_part a
  minor ← parse_part b
  patch ← parse_part c
  some (record { major = major; minor = minor; patch = patch })
parse_parts _ = none

unfoldable pub parse : Text → Option AppVersion
unfolding parse_part
parse text = if ltb 32 (length (as_bytes text)) then none else parse_parts (split b'.' text)

-- The derived order: by `major`, then `minor`, then `patch`.
unfoldable pub version_lt : AppVersion → AppVersion → Bool
version_lt a b =
    if ltb a.major b.major
    then true
    else if ltb b.major a.major
    then false
    else if ltb a.minor b.minor
    then true
    else if ltb b.minor a.minor
    then false
    else ltb a.patch b.patch

-- Decimal digits, as `{}` prints a `u32`; one more than the number is enough fuel.
unfoldable pub print_fuel : ℕ → ℕ → Text
print_fuel zero n = []
print_fuel (suc fuel) n =
    let longer = print_fuel fuel (n / 10) ++ (b'0' + n % 10) ∷ [] in
    if ltb n 10 then (b'0' + n) ∷ [] else longer

unfoldable pub print_u32 : ℕ → Text
unfolding print_fuel
print_u32 n = print_fuel (suc n) n

unfoldable pub display : AppVersion → Text
unfolding print_u32
display v = print_u32 v.major ++ b'.' ∷ (print_u32 v.minor ++ b'.' ∷ print_u32 v.patch)

unfoldable pub installer_name : AppVersion → Text
unfolding display
installer_name v = codes "Supa-Diska-Klinah_" ++ (display v ++ codes "_x64-setup.exe")
