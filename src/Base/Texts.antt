-- ===== src/Base/Texts.antt =====
-- Rust's `str` and `String` as the list of their Unicode scalar values, with the parts of the
-- standard library that the code calls: UTF-8 bytes, UTF-16 length, character classes, affixes.
use Prim.Native.Nat.{ℕ, ◌+◌, ◌/◌, ◌%◌}
use Prim.Native.Char.{code}
use Prim.Native.String.{String}
use mathlib.Core.Bool.{Bool, ◌&&◌, ◌||◌}
use mathlib.Core.Option.{Option, none, some}
use mathlib.Core.List.{List, [], ◌∷◌, ◌++◌, reverse}
use native.Mathlib.Decide.{ℕ_discrete}
use supa_diska_klinah.Base.Tests.{ltb, leb, ◌==◌, if◌then◌else◌}
use supa_diska_klinah.Base.Lists.{all}

abbrev pub Text : Type 0
Text = List ℕ

-- The code points of a literal.
abbrev pub codes : String → Text
codes String.[] = []
codes (String.◌∷◌ c s) = code c ∷ codes s

unfoldable pub Text-discrete : Discrete Text
Text-discrete = hlevel ℕ_discrete

-- The UTF-8 encoding of one scalar value.
abbrev pub utf8_char : ℕ → List ℕ
utf8_char c =
    if ltb c 0x80
    then c ∷ []
    else if ltb c 0x800
    then (0xc0 + c / 64) ∷ (0x80 + c % 64) ∷ []
    else if ltb c 0x10000
    then (0xe0 + c / 4096) ∷ (0x80 + c / 64 % 64) ∷ (0x80 + c % 64) ∷ []
    else (0xf0 + c / 262144) ∷ (0x80 + c / 4096 % 64) ∷ (0x80 + c / 64 % 64) ∷ (0x80 + c % 64) ∷ []

-- `value.as_bytes()`.
abbrev pub as_bytes : Text → List ℕ
as_bytes [] = []
as_bytes (c ∷ cs) = utf8_char c ++ as_bytes cs

-- `value.encode_utf16().count()`.
abbrev pub utf16_count : Text → ℕ
utf16_count [] = 0
utf16_count (c ∷ cs) = (if ltb c 0x10000 then 1 else 2) + utf16_count cs

abbrev pub is_ascii_lowercase : ℕ → Bool
is_ascii_lowercase b = leb b'a' b && leb b b'z'

abbrev pub is_ascii_digit : ℕ → Bool
is_ascii_digit b = leb b'0' b && leb b b'9'

-- `char::is_control`: the general category Cc.
abbrev pub is_control : ℕ → Bool
is_control c = ltb c 0x20 || (leb 0x7f c && leb c 0x9f)

-- `char::is_whitespace`: the property White_Space.
abbrev pub is_whitespace : ℕ → Bool
is_whitespace c =
    (leb 0x09 c && leb c 0x0d)
    || (c == 0x20)
    || (c == 0x85)
    || (c == 0xa0)
    || (c == 0x1680)
    || (leb 0x2000 c && leb c 0x200a)
    || (c == 0x2028)
    || (c == 0x2029)
    || (c == 0x202f)
    || (c == 0x205f)
    || (c == 0x3000)

-- `value.trim().is_empty()`: nothing but white space.
abbrev pub is_blank : Text → Bool
is_blank = all is_whitespace

-- `value.strip_prefix(prefix)`.
abbrev pub strip_prefix : Text → Text → Option Text
strip_prefix [] value = some value
strip_prefix (p ∷ ps) [] = none
strip_prefix (p ∷ ps) (c ∷ cs) = if p == c then strip_prefix ps cs else none

abbrev pub strip_suffix_of : Option Text → Option Text
strip_suffix_of none = none
strip_suffix_of (some rest) = some (reverse rest)

-- `value.strip_suffix(suffix)`.
abbrev pub strip_suffix : Text → Text → Option Text
strip_suffix suffix value = strip_suffix_of (strip_prefix (reverse suffix) (reverse value))

-- `option.and_then(|rest| rest.strip_suffix(suffix))`.
abbrev pub and_then_strip_suffix : Text → Option Text → Option Text
and_then_strip_suffix suffix none = none
and_then_strip_suffix suffix (some rest) = strip_suffix suffix rest

-- One more character at the front of the first piece.
abbrev pub onto_first : ℕ → List Text → List Text
onto_first c [] = (c ∷ []) ∷ []
onto_first c (g ∷ gs) = (c ∷ g) ∷ gs

-- `value.split(separator).collect()`: never empty.
abbrev pub split : ℕ → Text → List Text
split separator [] = [] ∷ []
split separator (c ∷ cs) =
    let rest = split separator cs in if c == separator then [] ∷ rest else onto_first c rest
