-- ===== src/Contract/IdLaws.antt =====
-- What an accepted identifier is made of.
use mathlib.Core.List.{reverse, reverse-append, reverse-reverse}
use mathlib.Core.Path.{ap₂, subst}
use supa_diska_klinah.Base.{
  ℕ, suc, ◌+◌, ◌≤◌, ◌<◌, ◌≡◌, refl, sym, ap, ◌∙◌, ◌↔◌, inl, inr, Bool, true, not, ◌||◌, Option,
  none, some, List, [], ◌∷◌, ◌++◌, map, arith, Option-cases, Bool-cases, length, all, Text,
  Text-discrete, codes, as_bytes, strip_prefix, strip_suffix, and_then_strip_suffix, split,
  onto_first, is_empty, leb→le, ◌&&◌, ◌==◌, same, eq_of_same, and_true, ascii_bytes, as_bytes_ascii,
  ltb, All, is_ascii_digit, ==_iff,
}
use supa_diska_klinah.Contract.Ids.{
  is_catalog_id, is_catalog_byte, is_driver_package, is_package_digits, is_package_stem,
  is_hex_byte, is_lower_hex, is_guid, guid_lengths,
}

catalog_byte_small : (b : ℕ) → is_catalog_byte b ≡ true → b < 0x80
catalog_byte_small b h = ground arith

nonempty : (bytes : List ℕ) → not (is_empty bytes) ≡ true → 0 < length bytes
nonempty [] h = cc
nonempty (b ∷ bytes) h = omega arith

-- A text that is accepted as a catalog identifier has 1 to 64 characters, each a lower-case ASCII
-- letter, a digit, a dash or a dot.
catalog_id_plain :
    (v : Text)
    → is_catalog_id v ≡ true
    → (all is_catalog_byte v ≡ true) × (0 < length v) × (length v ≤ 64)
unfolding is_catalog_id
catalog_id_plain v h =
    let (front, plain) = and_true _ _ h in
    let (sized, lead) = and_true _ _ front in
    let (some_byte, short) = and_true _ _ sized in
    let ascii = ascii_bytes is_catalog_byte v catalog_byte_small plain in
    (
      rw ascii at plain,
      rw ascii at (nonempty (as_bytes v) some_byte),
      rw ascii at (leb→le (length (as_bytes v)) 64 short),
    )

strip_prefix_sound : (p v r : Text) → strip_prefix p v ≡ some r → v ≡ p ++ r
strip_prefix_sound [] v r h = ground arith
strip_prefix_sound (x ∷ p) [] r h = cc
strip_prefix_sound (x ∷ p) (c ∷ v) r h = ground (arith, strip_prefix_sound p v r)

strip_prefix_complete : (p r : Text) → strip_prefix p (p ++ r) ≡ some r
strip_prefix_complete [] r = refl
strip_prefix_complete (x ∷ p) r = ground (arith, strip_prefix_complete p r)

strip_suffix_sound : (p v r : Text) → strip_suffix p v ≡ some r → v ≡ r ++ p
strip_suffix_sound p v r h = elim (Option-cases (strip_prefix (reverse p) (reverse v))) [
  | inl missing ↦ cc
  | inr (rest, found) ↦
      sym (reverse-reverse v)
      ∙ ap reverse (strip_prefix_sound (reverse p) (reverse v) rest found)
      ∙ reverse-append (reverse p) rest
      ∙ ap (λ t. reverse rest ++ t) (reverse-reverse p)
      ∙ ap (λ t. t ++ p) (cc)
]

strip_suffix_complete : (p r : Text) → strip_suffix p (r ++ p) ≡ some r
strip_suffix_complete p r = rw reverse-append (rw strip_prefix_complete (rw reverse-reverse))

between_sound :
    (p q v d : Text) → and_then_strip_suffix q (strip_prefix p v) ≡ some d → v ≡ p ++ (d ++ q)
between_sound p q v d h = elim (Option-cases (strip_prefix p v)) [
  | inl missing ↦ absurd (ground (arith, missing))
  | inr (rest, found) ↦
      strip_prefix_sound p v rest found
      ∙ ap (λ t. p ++ t) (strip_suffix_sound q rest d (rw found at h))
]

between_complete :
    (p q d : Text) → and_then_strip_suffix q (strip_prefix p (p ++ (d ++ q))) ≡ some d
between_complete p q d = rw strip_prefix_complete (strip_suffix_complete q d)

stem_sound :
    (o : Option Text)
    → is_package_stem o ≡ true
    → (digits : Text) × (o ≡ some digits) × (is_package_digits digits ≡ true)
stem_sound none h = cc
stem_sound (some digits) h = (digits, refl, h)

-- A character from 0 to 9.
abbrev pub IsDecimal : ℕ → Type 0
IsDecimal c = (b'0' ≤ c) × (c ≤ b'9')

digit_small : (b : ℕ) → is_ascii_digit b ≡ true → b < 0x80
digit_small b h = ground (arith, h)

decimal_small : (c : ℕ) → IsDecimal c → ltb c 0x80 ≡ true
decimal_small c h = ground (arith, h)

digits-IsDecimal : (v : Text) → all is_ascii_digit v ≡ true → All IsDecimal v
digits-IsDecimal [] h = tt
digits-IsDecimal (c ∷ v) h =
    let (d, rest) = and_true (is_ascii_digit c) _ h in (ground (arith, d), digits-IsDecimal v rest)

IsDecimal-digits :
    (v : Text) → All IsDecimal v → (all is_ascii_digit v ≡ true) × (all (λ c. ltb c 0x80) v ≡ true)
IsDecimal-digits [] h = (refl, refl)
IsDecimal-digits (c ∷ v) h =
    let (digits, ascii) = IsDecimal-digits v h.1 in
    (ground (arith, h.0, digits), ground (arith, h.0, ascii))

package_digits_sound :
    (v : Text) → is_package_digits v ≡ true → (1 ≤ length v) × (length v ≤ 5) × All IsDecimal v
package_digits_sound v h =
    let (sized, digits) = and_true _ _ h in
    let (some_digit, short) = and_true _ _ sized in
    let ascii = ascii_bytes is_ascii_digit v digit_small digits in
    (
      rw ascii at (leb→le 1 (length (as_bytes v)) some_digit),
      rw ascii at (leb→le (length (as_bytes v)) 5 short),
      digits-IsDecimal v (rw ascii at digits),
    )

package_digits_complete :
    (v : Text) → 1 ≤ length v → length v ≤ 5 → All IsDecimal v → is_package_digits v ≡ true
package_digits_complete v l u d =
    let (digits, ascii) = IsDecimal-digits v d in
    rw (as_bytes_ascii v ascii, digits) (ground (arith, l, u))

-- A text is accepted as a driver package name exactly if it is oem, then one to five characters
-- from 0 to 9, then .inf.
pub driver_package_shape :
    (v : Text)
    → (is_driver_package v ≡ true) ↔ (
        (digits : Text) × (v ≡ codes "oem" ++ (digits ++ codes ".inf"))
        × ((1 ≤ length digits) × (length digits ≤ 5) × All IsDecimal digits))
unfolding is_driver_package
driver_package_shape v = (
  λ h.
      let (digits, e, d) =
        stem_sound (and_then_strip_suffix (codes ".inf") (strip_prefix (codes "oem") v)) h in
      (
        digits,
        between_sound (codes "oem") (codes ".inf") v digits e,
        package_digits_sound digits d,
      ),
  λ (digits, e, d).
      subst (λ t. is_driver_package t ≡ true) (sym e)
        (ap is_package_stem (between_complete (codes "oem") (codes ".inf") digits)
          ∙ package_digits_complete digits d.0 d.1 d.2),
)

sum : List ℕ → ℕ
sum [] = 0
sum (x ∷ xs) = x + sum xs

split_nonempty : (sep : ℕ) (v : Text) → 0 < length (split sep v)
split_nonempty sep [] = omega arith
split_nonempty sep (c ∷ v) = elim (Bool-cases (c == sep)) [
  | inl p ↦ rw p (omega arith)
  | inr p ↦ rw p (first (split sep v))
]
  where
    first : (gs : List Text) → 0 < length (onto_first c gs)
    first [] = omega arith
    first (g ∷ gs) = omega arith

length-onto_first :
    (c : ℕ) (gs : List Text)
    → 0 < length gs
    → (sum (map length (onto_first c gs)) ≡ suc (sum (map length gs)))
      × (length (onto_first c gs) ≡ length gs)
unfolding sum
length-onto_first c [] h = absurd (omega arith)
length-onto_first c (g ∷ gs) h = (omega arith, refl)

length-split :
    (sep : ℕ) (v : Text) → suc (length v) ≡ sum (map length (split sep v)) + length (split sep v)
unfolding sum
length-split sep [] = refl
length-split sep (c ∷ v) =
    ground (arith, length-split sep v, length-onto_first c (split sep v) (split_nonempty sep v))

abbrev pub is_guid_char : ℕ → Bool
is_guid_char c = is_hex_byte c || (c == b'-')

hex_small : (b : ℕ) → is_hex_byte b ≡ true → b < 0x80
hex_small b h = ground arith

lower_hex_plain : (v : Text) → is_lower_hex v ≡ true → (as_bytes v ≡ v) × (all is_hex_byte v ≡ true)
unfolding is_lower_hex
lower_hex_plain v h = let e = ascii_bytes is_hex_byte v hex_small h in (e, rw e at h)

byte_lengths :
    (gs : List Text)
    → all is_lower_hex gs ≡ true
    → map (λ g. length (as_bytes g)) gs ≡ map length gs
byte_lengths [] h = refl
byte_lengths (g ∷ gs) h =
    let (p, q) = and_true _ _ h in ap₂ ◌∷◌ (ap length (lower_hex_plain g p).0) (byte_lengths gs q)

chars_of_first :
    (c : ℕ) (gs : List Text)
    → 0 < length gs
    → all (all is_hex_byte) (onto_first c gs) ≡ true
    → (is_hex_byte c ≡ true) × (all (all is_hex_byte) gs ≡ true)
chars_of_first c [] l h = absurd (omega arith)
chars_of_first c (g ∷ gs) l h =
    let (p, q) = and_true _ _ h in let (a, b) = and_true _ _ p in (a, rw (b, q))

chars_of_split :
    (v : Text) → all (all is_hex_byte) (split b'-' v) ≡ true → all is_guid_char v ≡ true
chars_of_split [] h = refl
chars_of_split (c ∷ v) h = elim (Bool-cases (c == b'-')) [
  | inl p ↦ ground (arith, chars_of_split v (rw p at h))
  | inr p ↦
      let (a, b) = chars_of_first c (split b'-' v) (split_nonempty b'-' v) (rw p at h) in
      rw (a, chars_of_split v b)
]

hex_groups : (gs : List Text) → all is_lower_hex gs ≡ true → all (all is_hex_byte) gs ≡ true
hex_groups [] h = refl
hex_groups (g ∷ gs) h = let (p, q) = and_true _ _ h in rw ((lower_hex_plain g p).1, hex_groups gs q)

-- A text that is accepted as a GUID has 36 characters, each a lower-case hexadecimal digit or a
-- dash.
pub guid_plain : (v : Text) → is_guid v ≡ true → (length v ≡ 36) × (all is_guid_char v ≡ true)
unfolding is_guid
guid_plain v h =
    let groups = split b'-' v in
    let byte_counts = map (λ group. length (as_bytes group)) groups in
    let (front, hex) =
      and_true ((length groups == 5) && same Text-discrete byte_counts guid_lengths)
        (all is_lower_hex groups) h in
    let (five, shape) =
      and_true (length groups == 5) (same Text-discrete byte_counts guid_lengths) front in
    let lengths = sym (byte_lengths groups hex) ∙ eq_of_same Text-discrete _ _ shape in
    (
      omega (arith, length-split b'-' v, (==_iff (length groups) 5).0 five, ap sum lengths, total),
      chars_of_split v (hex_groups groups hex),
    )
  where
    total : sum guid_lengths ≡ 32
    total = unfold sum in refl
