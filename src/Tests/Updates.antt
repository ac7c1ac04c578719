-- ===== src/Tests/Updates.antt =====
-- Concrete cases for the laws of crates/protection-core.
use supa_diska_klinah.Base.{
  ◌≡◌, refl, ◌↔◌, Text, Text-discrete, ℕ_discrete, same, codes, true, false, none, some, [], ◌∷◌,
  ◌++◌, ok, arith, if◌then◌else◌, length, replicate, All, ℕ, List, Bool,
}
use supa_diska_klinah.Protection.Hex.{from_hex, from_hex-to_hex, to_hex, IsByte}
use supa_diska_klinah.Protection.Version.{AppVersion, parse, display, version_lt, installer_name}
use supa_diska_klinah.Protection.VersionRoundTrip.{parse-display, display-parse, FitsU32}
use supa_diska_klinah.Protection.Update.{
  ManifestFile, UpdateManifest, check, check_versions, check_period, check_installer,
  signing_allowed, is_hex, array_of, unsigned,
}
use supa_diska_klinah.Protection.UpdateLaws.{Accepts, check_sound, check_complete, digest_decodes}
use supa_diska_klinah.Protection.Verifier.{
  UpdateLibrary, verify, parse_signature, verify-Signed, Signed,
}
use supa_diska_klinah.Protection.Policy.{
  UpdateCheckPolicy, update_check, capability_iff, CanMint, OptedIn, default_policy,
}

abbrev version_two : AppVersion
version_two = record { major = 1; minor = 20; patch = 3 }

abbrev version_one : AppVersion
version_one = record { major = 1; minor = 3; patch = 20 }

parse-display_example : parse (display version_two) ≡ some version_two
parse-display_example =
    parse-display version_two
      (record { major_fits = ground arith; minor_fits = ground arith; patch_fits = ground arith })

display-parse_example : FitsU32 version_two × (display version_two ≡ codes "1.20.3")
display-parse_example = display-parse (codes "1.20.3") version_two (unfold parse in refl)

from_hex-to_hex_example : from_hex (to_hex (0 ∷ 171 ∷ 255 ∷ [])) ≡ some (0 ∷ 171 ∷ 255 ∷ [])
from_hex-to_hex_example =
    from_hex-to_hex (0 ∷ 171 ∷ 255 ∷ []) (ground arith, (ground arith, (ground arith, tt)))

abbrev digest : Text
digest = replicate 64 b'a'

digest_decodes_example :
    (bytes : List ℕ) × (array_of 32 (from_hex digest) ≡ some bytes)
    × (length bytes ≡ 32)
    × All IsByte bytes
digest_decodes_example = digest_decodes digest (unfold is_hex in refl)

abbrev manifest_file : ManifestFile
manifest_file = record {
  format = 1;
  version = codes "1.20.3";
  minimum_version = codes "1.0.0";
  installer = record { name = installer_name version_two; size = 1000; sha256 = digest };
  not_before = 1000;
  expires = 5000;
  signing = unsigned;
  signer_thumbprint = none;
}

abbrev manifest : UpdateManifest
manifest = record {
  version = version_two;
  installer_file = installer_name version_two;
  installer_size = 1000;
  installer_sha256 = replicate 32 170;
  signing = unsigned;
  signer_thumbprint = none;
}

manifest_accepted : check manifest_file version_one 2000 ≡ ok manifest
unfolding check check_versions check_period check_installer signing_allowed is_hex parse version_lt
    from_hex installer_name Text-discrete ℕ_discrete
manifest_accepted = refl

check_sound_example :
    (minimum : AppVersion) × Accepts manifest_file version_one 2000 manifest.version minimum
    × (manifest.installer_file ≡ manifest_file.installer.name)
    × (manifest.installer_size ≡ manifest_file.installer.size)
    × (array_of 32 (from_hex manifest_file.installer.sha256) ≡ some manifest.installer_sha256)
    × (manifest.signing ≡ manifest_file.signing)
    × (manifest.signer_thumbprint ≡ manifest_file.signer_thumbprint)
check_sound_example = check_sound manifest_file version_one 2000 manifest manifest_accepted

abbrev version_zero : AppVersion
version_zero = record { major = 1; minor = 0; patch = 0 }

check_complete_example :
    (m : UpdateManifest) × (check manifest_file version_one 2000 ≡ ok m) × (m.version ≡ version_two)
check_complete_example =
    check_complete manifest_file version_one 2000 version_two version_zero (record {
      format_is = refl;
      version_is = unfold parse in refl;
      minimum_is = unfold parse in refl;
      minimum_met = unfold version_lt in refl;
      is_newer = unfold version_lt in refl;
      running_met = unfold version_lt in refl;
      has_period = ground arith;
      period_bounded = ground arith;
      has_begun = ground arith;
      not_over = ground arith;
      name_is = refl;
      some_size = ground arith;
      size_bounded = ground arith;
      digest_is_hex = unfold is_hex in refl;
      signing_is = unfold signing_allowed in refl;
    })

abbrev head_is : ℕ → List ℕ → Bool
head_is n [] = false
head_is n (b ∷ bs) = same ℕ_discrete n b

-- A library with one key, whose signatures are the byte 170 and then anything, and a decoder that
-- reads one manifest.
abbrev demo_library : UpdateLibrary
demo_library = record {
  Key = ℕ;
  key_from_bytes = λ bytes. some (length bytes);
  is_weak = λ key. same ℕ_discrete key 0;
  verify_strict = λ key message signature. head_is 170 signature;
  decode_manifest = λ bytes. if head_is 7 bytes then some manifest_file else none;
}

abbrev signature_file : List ℕ
signature_file = replicate 128 b'a' ++ 10 ∷ []

verify-Signed_example : Signed demo_library 32 (7 ∷ []) signature_file version_one 2000 manifest
verify-Signed_example =
    verify-Signed demo_library 32 (7 ∷ []) signature_file version_one 2000 manifest (
      unfold verify parse_signature check check_versions check_period check_installer
        signing_allowed is_hex parse version_lt from_hex installer_name Text-discrete ℕ_discrete in
      refl)

abbrev updates_only : UpdateCheckPolicy
updates_only = record { enabled = true }

capability_iff_example :
    CanMint default_policy updates_only update_check
    ↔ OptedIn default_policy updates_only update_check
capability_iff_example = capability_iff default_policy updates_only update_check
