-- ===== src/Protection/VersionRoundTrip.antt =====
-- What is printed is parsed, and only what would be printed.
use supa_diska_klinah.Base.{
  ℕ, zero, suc, ◌+◌, ◌-◌, ◌*◌, ◌<◌, ◌≤◌, ◌≡◌, refl, sym, ap, ◌∙◌, inl, inr, Bool, true, false, not,
  ◌&&◌, ◌||◌, some, List, [], ◌∷◌, ◌++◌, arith, Text, as_bytes, ascii_bytes, as_bytes_ascii,
  all-append, and_true, length, length-append, all, is_ascii_digit, is_empty, split, ltb, ◌==◌,
  Bool-cases, join, join-split,
}
use supa_diska_klinah.Protection.Version.{
  AppVersion, u32_max, decimal_from, starts_with_zero, is_zero_text, is_number, parse_u32,
  parse_part, parse_parts, parse, print_u32, display,
}
use supa_diska_klinah.Protection.VersionLaws.{printed, print_small, length-print, grow}

digit_small : (b : ℕ) → is_ascii_digit b ≡ true → b < 0x80
digit_small b h = ground arith

digits_ascii : (v : Text) → all is_ascii_digit v ≡ true → all (λ c. ltb c 0x80) v ≡ true
digits_ascii [] h = refl
digits_ascii (c ∷ cs) h =
    let (d, ds) = and_true (is_ascii_digit c) _ h in rw (digits_ascii cs ds) (ground arith)

abbrev canonical : Text → Bool
canonical part = is_zero_text part || not (starts_with_zero part)

print_canonical : (n : ℕ) → canonical (print_u32 n) ≡ true
print_canonical zero = rw (print_small 0 (omega arith)) refl
print_canonical (suc n) = ground (arith, (printed (suc (suc n)) (suc n) (omega arith)).3)

not_empty : (v : Text) → 0 < length v → not (is_empty v) ≡ true
not_empty [] h = absurd (omega arith)
not_empty (c ∷ v) h = refl

parse_part-print : (n : ℕ) → n ≤ u32_max → parse_part (print_u32 n) ≡ some n
unfolding parse_part is_number parse_u32
parse_part-print n h =
    let (value, digits, some_digit, _) = printed (suc n) n (omega arith) in
    let ascii = as_bytes_ascii (print_u32 n) (digits_ascii (print_u32 n) digits) in
    rw (ascii, digits, not_empty (print_u32 n) some_digit, print_canonical n, value) (ground arith)

-- a number without a leading zero is what is printed for its value
canonical-print :
    (part : Text)
    → not (is_empty part) ≡ true
    → all is_ascii_digit part ≡ true
    → canonical part ≡ true
    → print_u32 (decimal_from 0 part) ≡ part
unfolding decimal_from
canonical-print [] e d h = cc
canonical-print (c ∷ cs) e d h = elim (Bool-cases (c == b'0')) [
  | inl zero_first ↦ only_zero cs zero_first h
  | inr other ↦
      let (dc, ds) = and_true (is_ascii_digit c) _ d in
      grow (0 * 10 + (c - b'0')) cs (ground arith) ds
      ∙ ap (λ t. t ++ cs)
          (print_small (0 * 10 + (c - b'0')) (ground arith) ∙ ap (λ x. x ∷ []) (ground arith))
]
  where
    only_zero :
        (rest : Text)
        → (c == b'0') ≡ true
        → canonical (c ∷ rest) ≡ true
        → print_u32 (decimal_from (0 * 10 + (c - b'0')) rest) ≡ c ∷ rest
    only_zero [] z k =
        print_small (0 * 10 + (c - b'0')) (ground arith) ∙ ap (λ x. x ∷ []) (ground arith)
    only_zero (x ∷ rest) z k = absurd (ground arith)

number_parts : (part : Text) → is_number part ≡ true → print_u32 (decimal_from 0 part) ≡ part
unfolding is_number
number_parts part h =
    let (front, canon) =
      and_true (not (is_empty part) && all is_ascii_digit (as_bytes part)) (canonical part) h in
    let (some_char, digits) =
      and_true (not (is_empty part)) (all is_ascii_digit (as_bytes part)) front in
    let ascii = ascii_bytes is_ascii_digit part digit_small digits in
    canonical-print part some_char (rw ascii at digits) canon

parse_u32_sound :
    (part : Text) (n : ℕ) → parse_u32 part ≡ some n → (n ≤ u32_max) × (n ≡ decimal_from 0 part)
unfolding parse_u32
parse_u32_sound part n h = ground arith

parse_part_sound :
    (part : Text) (n : ℕ) → parse_part part ≡ some n → (n ≤ u32_max) × (print_u32 n ≡ part)
unfolding parse_part
parse_part_sound part n h = elim (Bool-cases (is_number part)) [
  | inl valid ↦
      let (bound, value) = parse_u32_sound part n (rw valid at h) in
      (bound, ap print_u32 value ∙ number_parts part valid)
  | inr bad ↦ absurd (ground arith)
]

split-digits :
    (a r : Text) → all is_ascii_digit a ≡ true → split b'.' (a ++ b'.' ∷ r) ≡ a ∷ split b'.' r
split-digits [] r h = refl
split-digits (c ∷ a) r h =
    let (d, ds) = and_true (is_ascii_digit c) _ h in
    let other : (c == b'.') ≡ false = ground arith in rw (split-digits a r ds) (rw other refl)

split-digits_end : (a : Text) → all is_ascii_digit a ≡ true → split b'.' a ≡ a ∷ []
split-digits_end [] h = refl
split-digits_end (c ∷ a) h =
    let (d, ds) = and_true (is_ascii_digit c) _ h in
    let other : (c == b'.') ≡ false = ground arith in rw (split-digits_end a ds) (rw other refl)

pub record FitsU32 (v : AppVersion) : Type 0 where
  pub major_fits : v.major ≤ u32_max
  pub minor_fits : v.minor ≤ u32_max
  pub patch_fits : v.patch ≤ u32_max

split-display :
    (v : AppVersion)
    → split b'.' (display v) ≡ print_u32 v.major ∷ print_u32 v.minor ∷ print_u32 v.patch ∷ []
unfolding display
split-display v =
    split-digits (print_u32 v.major) _ (printed (suc v.major) v.major (omega arith)).1
    ∙ ap (λ gs. print_u32 v.major ∷ gs)
        (split-digits (print_u32 v.minor) _ (printed (suc v.minor) v.minor (omega arith)).1
          ∙ ap (λ gs. print_u32 v.minor ∷ gs)
              (split-digits_end (print_u32 v.patch)
                (printed (suc v.patch) v.patch (omega arith)).1))

abbrev is_ascii : Text → Bool
is_ascii = all (λ c. ltb c 0x80)

ascii_append : (xs ys : Text) → is_ascii xs ≡ true → is_ascii ys ≡ true → is_ascii (xs ++ ys) ≡ true
ascii_append xs ys h k = all-append (λ c. ltb c 0x80) xs ys ∙ rw (h, k)

printed-ascii : (n : ℕ) → is_ascii (print_u32 n) ≡ true
printed-ascii n = digits_ascii (print_u32 n) (printed (suc n) n (omega arith)).1

display-ascii : (v : AppVersion) → is_ascii (display v) ≡ true
unfolding display
display-ascii v =
    ascii_append (print_u32 v.major) _ (printed-ascii v.major)
      (ascii_append (print_u32 v.minor) _ (printed-ascii v.minor) (printed-ascii v.patch))

print_short : (n : ℕ) → n ≤ u32_max → length (print_u32 n) ≤ 10
print_short n h = length-print 9 n (omega arith)

display_short : (v : AppVersion) → FitsU32 v → length (display v) ≤ 32
unfolding display
display_short v f = omega (
  arith,
  length-append {0} (print_u32 v.major) (b'.' ∷ (print_u32 v.minor ++ b'.' ∷ print_u32 v.patch)),
  length-append {0} (print_u32 v.minor) (b'.' ∷ print_u32 v.patch),
  print_short v.major f.major_fits,
  print_short v.minor f.minor_fits,
  print_short v.patch f.patch_fits,
)

-- A version whose three numbers fit in 32 bits is parsed back from the text that it prints.
pub parse-display : (v : AppVersion) → FitsU32 v → parse (display v) ≡ some v
unfolding parse
parse-display v f =
    rw
      (
        as_bytes_ascii (display v) (display-ascii v),
        split-display v,
        parse_part-print v.major f.major_fits,
        parse_part-print v.minor f.minor_fits,
        parse_part-print v.patch f.patch_fits,
      )
      (ground (arith, display_short v f))

parse_parts_sound :
    (gs : List Text) (v : AppVersion)
    → parse_parts gs ≡ some v
    → FitsU32 v × (gs ≡ print_u32 v.major ∷ print_u32 v.minor ∷ print_u32 v.patch ∷ [])
parse_parts_sound [] v h = cc
parse_parts_sound (a ∷ []) v h = cc
parse_parts_sound (a ∷ b ∷ []) v h = cc
parse_parts_sound (a ∷ b ∷ c ∷ []) v h =
    ground
      (arith, parse_part_sound a v.major, parse_part_sound b v.minor, parse_part_sound c v.patch)
parse_parts_sound (a ∷ b ∷ c ∷ d ∷ gs) v h = cc

-- If a text parses to a version, then the three numbers fit in 32 bits and the version prints
-- exactly this text, so each version has one accepted spelling.
pub display-parse :
    (text : Text) (v : AppVersion) → parse text ≡ some v → FitsU32 v × (display v ≡ text)
unfolding parse
display-parse text v h =
    let (fits, parts) = parse_parts_sound (split b'.' text) v (ground arith) in
    (fits, unfold display in (sym (ap (join b'.') parts) ∙ join-split b'.' text))
