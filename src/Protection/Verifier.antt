-- ===== src/Protection/Verifier.antt =====
-- `UpdateVerifier` of crates/protection-core/src/update.rs. The Ed25519 key of `ed25519_dalek` and
-- the decoder of `serde_json` are parameters.
use supa_diska_klinah.Base.{
  ℕ, ◌≤◌, ◌≡◌, refl, Bool, true, Option, none, some, List, [], ◌∷◌, arith, Text, Text-discrete,
  codes, as_bytes, length, ltb, ◌==◌, if◌then◌else◌, same, Result, ok, err, ◌>>=◌, ◌>>◌, guard,
  ok_or, strip_suffix,
}
use supa_diska_klinah.Protection.Options.{or_else, unwrap_or}
use supa_diska_klinah.Protection.Hex.{from_hex, from_hex_bytes}
use supa_diska_klinah.Protection.Version.{AppVersion}
use supa_diska_klinah.Protection.Update.{
  ManifestFile, UpdateManifest, UpdateManifestError, not_configured, malformed_key, too_large,
  malformed_signature, bad_signature, malformed, check, array_of, max_update_manifest_bytes,
}

-- `VerifyingKey` and `serde_json::from_slice::<ManifestFile>`.
pub record UpdateLibrary : Type 1 where
  pub Key : Type 0
  pub key_from_bytes : List ℕ → Option Key
  pub is_weak : Key → Bool
  pub verify_strict : Key → List ℕ → List ℕ → Bool
  pub decode_manifest : List ℕ → Option ManifestFile

-- One line ending is taken off the end.
unfoldable pub trim_line_end : Text → Text
trim_line_end text =
    unwrap_or (or_else (strip_suffix (13 ∷ 10 ∷ []) text) (strip_suffix (10 ∷ []) text)) text

abbrev pub unconfigured_update_key : Text
unconfigured_update_key = codes "unconfigured"

-- The 32 bytes that a key file holds.
unfoldable pub key_bytes : Text → Option (List ℕ)
key_bytes trimmed = if length (as_bytes trimmed) == 64 then array_of 32 (from_hex trimmed) else none

-- The bytes of a signature file. A file that is no UTF-8 has a byte that is no digit, and
-- is refused by `from_hex` in place of `from_utf8`.
unfoldable pub parse_signature : List ℕ → Result UpdateManifestError (List ℕ)
unfolding trim_line_end
parse_signature file =
    let trimmed = trim_line_end file in
    ok_or (if length trimmed == 128 then array_of 64 (from_hex_bytes trimmed) else none)
      malformed_signature

module _ (lib : UpdateLibrary) where
  open lib use {Key, key_from_bytes, is_weak, verify_strict, decode_manifest}

  unfoldable pub from_key_file : Text → Result UpdateManifestError Key
  unfolding trim_line_end key_bytes
  from_key_file text =
      let trimmed = trim_line_end text in
      if same Text-discrete trimmed unconfigured_update_key then err not_configured else do
        bytes ← ok_or (key_bytes trimmed) malformed_key
        key ← ok_or (key_from_bytes bytes) malformed_key
        if is_weak key then err malformed_key else ok key

  unfoldable pub verify :
      Key → List ℕ → List ℕ → AppVersion → ℕ → Result UpdateManifestError UpdateManifest
  verify key manifest_bytes signature_file running now_unix =
      if ltb max_update_manifest_bytes (length manifest_bytes) then err too_large else do
        signature ← parse_signature signature_file
        guard (verify_strict key manifest_bytes signature) bad_signature
        file ← ok_or (decode_manifest manifest_bytes) malformed
        check file running now_unix

  -- What an accepted manifest rests on.
  abbrev pub Signed : Key → List ℕ → List ℕ → AppVersion → ℕ → UpdateManifest → Type 0
  Signed key manifest_bytes signature_file running now_unix manifest =
      (signature : List ℕ) × (file : ManifestFile) × (parse_signature signature_file ≡ ok signature)
      × (verify_strict key manifest_bytes signature ≡ true)
      × (length manifest_bytes ≤ max_update_manifest_bytes)
      × (decode_manifest manifest_bytes ≡ some file)
      × (check file running now_unix ≡ ok manifest)

  -- If verify accepts a manifest, then its bytes are at most 16 KiB, the signature file holds a
  -- signature that the key verifies over exactly these bytes, the bytes decode to a manifest file,
  -- and check accepts that file.
  pub verify-Signed :
      (key : Key) (manifest_bytes signature_file : List ℕ) (running : AppVersion) (now_unix : ℕ)
      (manifest : UpdateManifest)
      → verify key manifest_bytes signature_file running now_unix ≡ ok manifest
      → Signed key manifest_bytes signature_file running now_unix manifest
  unfolding verify
  verify-Signed key manifest_bytes signature_file running now_unix manifest h =
      from_signature (parse_signature signature_file) refl h
    where
      rest :
          (signature : List ℕ)
          → parse_signature signature_file ≡ ok signature
          → (f : Option ManifestFile) → decode_manifest manifest_bytes ≡ f
          → Signed key manifest_bytes signature_file running now_unix manifest
      rest signature e none d = absurd (ground arith)
      rest signature e (some file) d =
          (signature, file, e, ground arith, ground arith, d, ground arith)

      from_signature :
          (r : Result UpdateManifestError (List ℕ))
          → parse_signature signature_file ≡ r
          → verify key manifest_bytes signature_file running now_unix ≡ ok manifest
          → Signed key manifest_bytes signature_file running now_unix manifest
      from_signature (err x) e k = absurd (ground arith)
      from_signature (ok signature) e k = rest signature e (decode_manifest manifest_bytes) refl
