-- ===== src/Protection/PackVerifier.antt =====
-- `PackVerifier` of crates/protection-core/src/pack.rs. The Ed25519 key of `ed25519_dalek` and the
-- decoder of `serde_json` are parameters.
use supa_diska_klinah.Base.{
  ℕ, ◌*◌, ◌≤◌, ◌<◌, ◌≡◌, ◌⊎◌, inl, inr, refl, Bool, true, false, not, Option, some, List, [], ◌∷◌,
  arith, Text, as_bytes, length, is_empty, ltb, ◌==◌, if◌then◌else◌, Result, ok, err, ◌>>=◌, ◌>>◌,
  guard, ok_or, strip_suffix, Option-cases,
}
use supa_diska_klinah.Protection.Options.{or_else, unwrap_or}
use supa_diska_klinah.Protection.Hex.{from_hex_bytes}
use supa_diska_klinah.Protection.Update.{array_of}
use supa_diska_klinah.Protection.Pack.{
  RulePack, PackError, too_large, empty, malformed_signature, malformed_key, bad_signature,
  malformed, validate_pack,
}
use supa_diska_klinah.Protection.PackLaws.{PackIsValid, validate_pack_lem}

abbrev pub max_pack_bytes : ℕ
max_pack_bytes = 1024 * 1024

-- `VerifyingKey` and `serde_json::from_slice::<RulePack>`.
pub record PackLibrary : Type 1 where
  pub Key : Type 0
  pub key_from_bytes : List ℕ → Option Key
  pub is_weak : Key → Bool
  pub verify_strict : Key → List ℕ → List ℕ → Bool
  pub decode_pack : List ℕ → Option RulePack

unfoldable pub strip_single_newline : List ℕ → List ℕ
strip_single_newline bytes =
    unwrap_or (or_else (strip_suffix (13 ∷ 10 ∷ []) bytes) (strip_suffix (10 ∷ []) bytes)) bytes

-- Bytes that are no UTF-8 have one that is no digit, and are refused by `from_hex` in place of
-- `from_utf8`, with the same error.
unfoldable pub pack_signature : List ℕ → Result PackError (List ℕ)
unfolding strip_single_newline
pack_signature file =
    let trimmed = strip_single_newline file in
    if not (length trimmed == 128)
    then err malformed_signature
    else ok_or (array_of 64 (from_hex_bytes trimmed)) malformed_signature

module _ (lib : PackLibrary) where
  open lib use {Key, key_from_bytes, is_weak, verify_strict, decode_pack}

  unfoldable pub pack_key : Text → Result PackError Key
  unfolding strip_single_newline
  pack_key text = do
    bytes ←
        ok_or (array_of 32 (from_hex_bytes (strip_single_newline (as_bytes text)))) malformed_key
    key ← ok_or (key_from_bytes bytes) malformed_key
    if is_weak key then err malformed_key else ok key

  unfoldable pub verify_pack : Key → List ℕ → List ℕ → Text → Result PackError RulePack
  verify_pack key pack_bytes signature_file app_version =
      if ltb max_pack_bytes (length pack_bytes)
      then err too_large
      else if is_empty pack_bytes
      then err empty
      else do
        signature ← pack_signature signature_file
        guard (verify_strict key pack_bytes signature) bad_signature
        pack ← ok_or (decode_pack pack_bytes) malformed
        validate_pack pack app_version
        ok pack

  -- What a verified pack rests on.
  abbrev pub PackIsSigned : Key → List ℕ → List ℕ → Text → RulePack → Type 0
  PackIsSigned key pack_bytes signature_file app_version pack =
      (signature : List ℕ) × (pack_signature signature_file ≡ ok signature)
      × (verify_strict key pack_bytes signature ≡ true)
      × (0 < length pack_bytes)
      × (length pack_bytes ≤ max_pack_bytes)
      × (decode_pack pack_bytes ≡ some pack)
      × PackIsValid pack app_version

  Result-cases :
      (r : Result PackError (List ℕ))
      → ((e : PackError) × (r ≡ err e)) ⊎ ((a : List ℕ) × (r ≡ ok a))
  Result-cases (err e) = inl (e, refl)
  Result-cases (ok a) = inr (a, refl)

  some_byte : (bs : List ℕ) → is_empty bs ≡ false → 0 < length bs
  some_byte [] h = absurd (ground arith)
  some_byte (b ∷ bs) h = ground arith

  -- If a pack is verified, then its bytes are between 1 and 1 MiB, the signature file holds a
  -- signature that the key verifies over exactly these bytes, the bytes decode to that pack, and
  -- the pack meets every requirement of validate.
  pub verify_pack-PackIsSigned :
      (key : Key) (pack_bytes signature_file : List ℕ) (app_version : Text) (pack : RulePack)
      → verify_pack key pack_bytes signature_file app_version ≡ ok pack
      → PackIsSigned key pack_bytes signature_file app_version pack
  unfolding verify_pack
  verify_pack-PackIsSigned key pack_bytes signature_file app_version pack h =
      elim (Result-cases (pack_signature signature_file)) [
        | inl (e, p) ↦ absurd (ground arith)
        | inr (signature, p) ↦ elim (Option-cases (decode_pack pack_bytes)) [
          | inl q ↦ absurd (ground arith)
          | inr (read, q) ↦ (
            signature,
            p,
            ground arith,
            ground (arith, some_byte pack_bytes),
            ground arith,
            ground arith,
            ground (arith, validate_pack_lem read app_version),
          )
        ]
      ]
