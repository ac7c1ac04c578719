-- ===== src/Protection/Hex.antt =====
-- `to_hex` and `from_hex` of crates/protection-core/src/evidence.rs.
use supa_diska_klinah.Protection.Options.{◌>>=◌}
use supa_diska_klinah.Base.{
  ℕ, zero, suc, ◌+◌, ◌-◌, ◌*◌, ◌/◌, ◌%◌, ◌<◌, ◌≡◌, refl, ap, Bool, true, ◌&&◌, ◌||◌, Option, none,
  some, List, [], ◌∷◌, arith, Option-cases, inl, inr, Text, codes, as_bytes, as_bytes_ascii,
  and_true, length, get_or, all, All, leb, ltb, ◌==◌, if◌then◌else◌,
}

-- `DIGITS[n]`.
unfoldable pub digit : ℕ → ℕ
digit n = get_or (codes "0123456789abcdef") n 0

-- `byte >> 4` and `byte & 0x0f`.
unfoldable pub to_hex : List ℕ → Text
unfolding digit
to_hex [] = []
to_hex (byte ∷ bytes) = digit (byte / 16) ∷ digit (byte % 16) ∷ to_hex bytes

unfoldable pub nibble : ℕ → Option ℕ
nibble value =
    if leb b'0' value && leb value b'9'
    then some (value - b'0')
    else if leb b'a' value && leb value b'f'
    then some (value - b'a' + 10)
    else if leb b'A' value && leb value b'F'
    then some (value - b'A' + 10)
    else none

-- `chunks_exact(2)` and the decoding of each pair. The parts of `(hi << 4) | lo` share no bit.
unfoldable pub decode_pairs : List ℕ → Option (List ℕ)
unfolding nibble
decode_pairs [] = some []
decode_pairs (a ∷ []) = some []
decode_pairs (a ∷ b ∷ rest) = do
  hi ← nibble a
  lo ← nibble b
  bytes ← decode_pairs rest
  some ((hi * 16 + lo) ∷ bytes)

-- `from_hex` of the bytes of a text.
unfoldable pub from_hex_bytes : List ℕ → Option (List ℕ)
unfolding decode_pairs
from_hex_bytes bytes = if length bytes % 2 == 0 then decode_pairs bytes else none

unfoldable pub from_hex : Text → Option (List ℕ)
unfolding from_hex_bytes
from_hex text = from_hex_bytes (as_bytes text)

digit_lem : (n : ℕ) → n < 16 → (nibble (digit n) ≡ some n) × (ltb (digit n) 0x80 ≡ true)
unfolding digit nibble
digit_lem n h = ground arith

abbrev pub IsByte : ℕ → Type 0
IsByte b = b < 256

pub to_hex-ascii : (bytes : List ℕ) → All IsByte bytes → all (λ c. ltb c 0x80) (to_hex bytes) ≡ true
unfolding to_hex
to_hex-ascii [] h = refl
to_hex-ascii (b ∷ bytes) h = rw (
  (digit_lem (b / 16) (omega arith)).1,
  (digit_lem (b % 16) (omega arith)).1,
  to_hex-ascii bytes h.1,
)

pub length-to_hex : (bytes : List ℕ) → length (to_hex bytes) ≡ 2 * length bytes
unfolding to_hex
length-to_hex [] = omega arith
length-to_hex (b ∷ bytes) = omega (arith, length-to_hex bytes)

decode-to_hex : (bytes : List ℕ) → All IsByte bytes → decode_pairs (to_hex bytes) ≡ some bytes
unfolding decode_pairs to_hex
decode-to_hex [] h = refl
decode-to_hex (b ∷ bytes) h =
    rw
      (
        (digit_lem (b / 16) (omega arith)).0,
        (digit_lem (b % 16) (omega arith)).0,
        decode-to_hex bytes h.1,
      )
      (ap (λ x. some (x ∷ bytes)) (omega arith))

-- Bytes that are encoded in hexadecimal are decoded to the same bytes.
pub from_hex-to_hex : (bytes : List ℕ) → All IsByte bytes → from_hex (to_hex bytes) ≡ some bytes
unfolding from_hex
from_hex-to_hex bytes h =
    rw (as_bytes_ascii (to_hex bytes) (to_hex-ascii bytes h))
      (ground (arith, length-to_hex bytes, decode-to_hex bytes h))

abbrev pub is_hex_digit : ℕ → Bool
is_hex_digit b =
    (leb b'0' b && leb b b'9') || (leb b'a' b && leb b b'f') || (leb b'A' b && leb b b'F')

nibble_hex : (b : ℕ) → is_hex_digit b ≡ true → (v : ℕ) × (nibble b ≡ some v) × (v < 16)
unfolding nibble
nibble_hex b h = elim (Option-cases (nibble b)) [
  | inl e ↦ absurd (ground arith)
  | inr (v, e) ↦ (v, e, ground arith)
]

-- one byte for each pair of digits
pub decode_pairs_total :
    (n : ℕ) (text : List ℕ)
    → length text ≡ 2 * n
    → all is_hex_digit text ≡ true
    → (bytes : List ℕ) × (decode_pairs text ≡ some bytes) × (length bytes ≡ n) × All IsByte bytes
unfolding decode_pairs
decode_pairs_total zero [] e h = ([], refl, refl, tt)
decode_pairs_total zero (a ∷ rest) e h = absurd (omega arith)
decode_pairs_total (suc n) [] e h = absurd (omega arith)
decode_pairs_total (suc n) (a ∷ []) e h = absurd (omega arith)
decode_pairs_total (suc n) (a ∷ b ∷ rest) e h =
    let (ha, more) = and_true (is_hex_digit a) _ h in
    let (hb, hr) = and_true (is_hex_digit b) _ more in
    let (hi, e1, l1) = nibble_hex a ha in
    let (lo, e2, l2) = nibble_hex b hb in
    let (bytes, e3, len, small) = decode_pairs_total n rest (omega arith) hr in
    ((hi * 16 + lo) ∷ bytes, rw (e1, e2, e3), omega arith, (omega arith, small))
