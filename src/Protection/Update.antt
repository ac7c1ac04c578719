-- ===== src/Protection/Update.antt =====
-- The update manifest of crates/protection-core/src/update.rs: `verify`, `check` and what they call.
use supa_diska_klinah.Base.{
  ℕ, ◌+◌, ◌-◌, ◌*◌, ◌^◌, Bool, true, false, not, ◌&&◌, ◌||◌, Option, none, some, List, Text,
  Text-discrete, as_bytes, length, all, is_ascii_digit, leb, ltb, ◌==◌, if◌then◌else◌, same, Result,
  ok, err, ◌>>=◌, ◌>>◌, guard, ok_or, min,
}
use supa_diska_klinah.Protection.Hex.{from_hex}
use supa_diska_klinah.Protection.Version.{AppVersion, parse, version_lt, installer_name}

abbrev pub max_update_installer_bytes : ℕ
max_update_installer_bytes = 512 * 1024 * 1024

abbrev pub max_update_manifest_bytes : ℕ
max_update_manifest_bytes = 16 * 1024

abbrev pub max_update_validity_seconds : ℕ
max_update_validity_seconds = 90 * 24 * 60 * 60

abbrev pub clock_skew_seconds : ℕ
clock_skew_seconds = 10 * 60

abbrev pub u64_max : ℕ
u64_max = 2 ^ 64 - 1

pub data UpdateSigning : Type 0 where
  unsigned authenticode : UpdateSigning

pub record ManifestInstallerFile : Type 0 where
  pub name : Text
  pub size : ℕ
  pub sha256 : Text

pub record ManifestFile : Type 0 where
  pub format : ℕ
  pub version : Text
  pub minimum_version : Text
  pub installer : ManifestInstallerFile
  pub not_before : ℕ
  pub expires : ℕ
  pub signing : UpdateSigning
  pub signer_thumbprint : Option Text

pub record UpdateManifest : Type 0 where
  pub version : AppVersion
  pub installer_file : Text
  pub installer_size : ℕ
  pub installer_sha256 : List ℕ
  pub signing : UpdateSigning
  pub signer_thumbprint : Option Text

pub data UpdateManifestError : Type 0 where
  not_configured malformed_key too_large malformed_signature bad_signature : UpdateManifestError
  malformed not_newer below_minimum_version expired not_yet_valid : UpdateManifestError
  invalid_installer invalid_signing_policy : UpdateManifestError

abbrev hex_letter : Bool → ℕ → Bool
hex_letter true b = leb b'A' b && leb b b'F'
hex_letter false b = leb b'a' b && leb b b'f'

unfoldable pub is_hex : Text → ℕ → Bool → Bool
is_hex text len uppercase =
    (length (as_bytes text) == len)
    && all (λ b. is_ascii_digit b || hex_letter uppercase b) (as_bytes text)

-- `bytes.try_into::<[u8; n]>().ok()`.
abbrev pub array_of : ℕ → Option (List ℕ) → Option (List ℕ)
array_of n none = none
array_of n (some bytes) = if length bytes == n then some bytes else none

-- `now.saturating_add(CLOCK_SKEW_SECONDS)` on a `u64`.
abbrev pub with_skew : ℕ → ℕ
with_skew now = min (now + clock_skew_seconds) u64_max

unfoldable pub signing_allowed : UpdateSigning → Option Text → Bool
unfolding is_hex
signing_allowed unsigned none = true
signing_allowed unsigned (some _) = false
signing_allowed authenticode none = false
signing_allowed authenticode (some thumbprint) = is_hex thumbprint 40 true

-- The tests of `check` on the two versions and the running one, in the code's order.
unfoldable pub check_versions :
    AppVersion → AppVersion → AppVersion → Result UpdateManifestError (Unit {0})
check_versions version minimum running =
    if version_lt version minimum
    then err malformed
    else if not (version_lt running version)
    then err not_newer
    else if version_lt running minimum
    then err below_minimum_version
    else ok tt

-- The tests on the period of validity.
unfoldable pub check_period : ManifestFile → ℕ → Result UpdateManifestError (Unit {0})
check_period file now =
    if leb file.expires file.not_before
      || ltb max_update_validity_seconds (file.expires - file.not_before)
    then err malformed
    else if ltb (with_skew now) file.not_before
    then err not_yet_valid
    else if leb file.expires now
    then err expired
    else ok tt

-- The test on the installer's description.
unfoldable pub check_installer :
    ManifestInstallerFile → AppVersion → Result UpdateManifestError (Unit {0})
unfolding is_hex
check_installer installer version =
    if not (same Text-discrete installer.name (installer_name version))
      || (installer.size == 0)
      || ltb max_update_installer_bytes installer.size
      || not (is_hex installer.sha256 64 false)
    then err invalid_installer
    else ok tt

unfoldable pub check : ManifestFile → AppVersion → ℕ → Result UpdateManifestError UpdateManifest
check file running now = do
  guard (file.format == 1) malformed
  version ← ok_or (parse file.version) malformed
  minimum ← ok_or (parse file.minimum_version) malformed
  check_versions version minimum running
  check_period file now
  check_installer file.installer version
  installer_sha256 ← ok_or (array_of 32 (from_hex file.installer.sha256)) invalid_installer
  guard (signing_allowed file.signing file.signer_thumbprint) invalid_signing_policy
  ok (record {
    version = version;
    installer_file = file.installer.name;
    installer_size = file.installer.size;
    installer_sha256 = installer_sha256;
    signing = file.signing;
    signer_thumbprint = file.signer_thumbprint;
  })
