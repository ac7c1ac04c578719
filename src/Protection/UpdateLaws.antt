-- ===== src/Protection/UpdateLaws.antt =====
-- Which update manifests are accepted.
use supa_diska_klinah.Base.{
  ℕ, ◌-◌, ◌<◌, ◌≤◌, ◌≡◌, ◌↔◌, refl, inl, inr, true, false, ◌&&◌, ◌||◌, some, List, [], ◌∷◌, arith,
  Text, Text-discrete, as_bytes, length, all, is_ascii_digit, leb, ◌==◌, eq_of_same, same_of_eq,
  and_true, ==_iff, ok, Option-cases, All,
}
use supa_diska_klinah.Protection.Hex.{from_hex, decode_pairs_total, is_hex_digit, IsByte}
use supa_diska_klinah.Protection.Version.{AppVersion, parse, version_lt, installer_name}
use supa_diska_klinah.Protection.Update.{
  ManifestFile, ManifestInstallerFile, UpdateManifest, check, check_versions, check_period,
  check_installer, signing_allowed, is_hex, array_of, with_skew, max_update_validity_seconds,
  max_update_installer_bytes,
}

-- What the code asks of a manifest, for the versions that its texts stand for.
pub record Accepts (file : ManifestFile) (running : AppVersion) (now : ℕ)
    (version minimum : AppVersion) : Type 0 where
  pub format_is : file.format ≡ 1
  pub version_is : parse file.version ≡ some version
  pub minimum_is : parse file.minimum_version ≡ some minimum
  pub minimum_met : version_lt version minimum ≡ false
  pub is_newer : version_lt running version ≡ true
  pub running_met : version_lt running minimum ≡ false
  pub has_period : file.not_before < file.expires
  pub period_bounded : file.expires - file.not_before ≤ max_update_validity_seconds
  pub has_begun : file.not_before ≤ with_skew now
  pub not_over : now < file.expires
  pub name_is : file.installer.name ≡ installer_name version
  pub some_size : 0 < file.installer.size
  pub size_bounded : file.installer.size ≤ max_update_installer_bytes
  pub digest_is_hex : is_hex file.installer.sha256 64 false ≡ true
  pub signing_is : signing_allowed file.signing file.signer_thumbprint ≡ true

check_versions_lem :
    (version minimum running : AppVersion)
    → (check_versions version minimum running ≡ ok tt) ↔ (
        (version_lt version minimum ≡ false)
        × (version_lt running version ≡ true)
        × (version_lt running minimum ≡ false))
unfolding check_versions
check_versions_lem version minimum running = ground arith

check_period_lem :
    (file : ManifestFile) (now : ℕ)
    → (check_period file now ≡ ok tt) ↔ (
        (file.not_before < file.expires)
        × (file.expires - file.not_before ≤ max_update_validity_seconds)
        × (file.not_before ≤ with_skew now)
        × (now < file.expires))
unfolding check_period
check_period_lem file now = ground arith

check_installer_lem :
    (installer : ManifestInstallerFile) (version : AppVersion)
    → (check_installer installer version ≡ ok tt) ↔ (
        (installer.name ≡ installer_name version)
        × (0 < installer.size)
        × (installer.size ≤ max_update_installer_bytes)
        × (is_hex installer.sha256 64 false ≡ true))
unfolding check_installer
check_installer_lem installer version = ground (
  arith,
  eq_of_same Text-discrete installer.name (installer_name version),
  same_of_eq Text-discrete installer.name (installer_name version),
)

lower_is_hex :
    (b : ℕ) → (is_ascii_digit b || (leb b'a' b && leb b b'f')) ≡ true → is_hex_digit b ≡ true
lower_is_hex b h = ground arith

all_lower_hex :
    (bs : List ℕ)
    → all (λ b. is_ascii_digit b || (leb b'a' b && leb b b'f')) bs ≡ true
    → all is_hex_digit bs ≡ true
all_lower_hex [] h = refl
all_lower_hex (b ∷ bs) h =
    let (p, q) = and_true (is_ascii_digit b || (leb b'a' b && leb b b'f')) _ h in
    rw (lower_is_hex b p, all_lower_hex bs q)

-- A text that passes the test for 64 lower-case hexadecimal digits decodes to an array of 32
-- bytes, so that the error after this test is never met.
pub digest_decodes :
    (text : Text)
    → is_hex text 64 false ≡ true
    → (bytes : List ℕ) × (array_of 32 (from_hex text) ≡ some bytes)
      × (length bytes ≡ 32)
      × All IsByte bytes
unfolding is_hex
digest_decodes text h =
    let (len, digits) = and_true (length (as_bytes text) == 64) _ h in
    let size = (==_iff (length (as_bytes text)) 64).0 len in
    let (bytes, decoded, n, small) =
      decode_pairs_total 32 (as_bytes text) (omega arith) (all_lower_hex (as_bytes text) digits) in
    (bytes, unfold from_hex in ground arith, n, small)

-- If check accepts a manifest file, then the file meets every requirement: format 1, two version
-- texts that parse, a version not below its minimum and above the running one, a running version
-- not below the minimum, a period of validity that is not empty, is at most 90 days long, has
-- begun up to the clock skew and is not over, an installer with the name of the version, a size
-- from 1 to 512 MiB and a digest of 64 lower-case hexadecimal digits, and an allowed signing
-- policy; and the manifest has the installer's name and size, the decoded 32 bytes of the digest,
-- and the signing fields of the file.
pub check_sound :
    (file : ManifestFile) (running : AppVersion) (now : ℕ) (manifest : UpdateManifest)
    → check file running now ≡ ok manifest
    → (minimum : AppVersion) × Accepts file running now manifest.version minimum
      × (manifest.installer_file ≡ file.installer.name)
      × (manifest.installer_size ≡ file.installer.size)
      × (array_of 32 (from_hex file.installer.sha256) ≡ some manifest.installer_sha256)
      × (manifest.signing ≡ file.signing)
      × (manifest.signer_thumbprint ≡ file.signer_thumbprint)
unfolding check
check_sound file running now manifest h = elim (Option-cases (parse file.version)) [
  | inl e ↦ absurd (ground arith)
  | inr (version, e) ↦ elim (Option-cases (parse file.minimum_version)) [
    | inl e' ↦ absurd (ground arith)
    | inr (minimum, e') ↦ (
      minimum,
      ground (
        arith,
        check_versions_lem version minimum running,
        check_period_lem file now,
        check_installer_lem file.installer version,
      ),
      ground arith,
      ground arith,
      ground arith,
      ground arith,
      ground arith,
    )
  ]
]

-- Every manifest file that meets all these requirements for a version, a minimum, the running
-- version and the time is accepted, with that version.
pub check_complete :
    (file : ManifestFile) (running : AppVersion) (now : ℕ) (version minimum : AppVersion)
    → Accepts file running now version minimum
    → (manifest : UpdateManifest) × (check file running now ≡ ok manifest)
      × (manifest.version ≡ version)
unfolding check
check_complete file running now version minimum a =
    let (bytes, decoded, _, _) = digest_decodes file.installer.sha256 a.digest_is_hex in
    (
      record {
        version = version;
        installer_file = file.installer.name;
        installer_size = file.installer.size;
        installer_sha256 = bytes;
        signing = file.signing;
        signer_thumbprint = file.signer_thumbprint;
      },
      ground (
        arith,
        decoded,
        (check_versions_lem version minimum running).1 (a.minimum_met, a.is_newer, a.running_met),
        (check_period_lem file now).1 (a.has_period, a.period_bounded, a.has_begun, a.not_over),
        (check_installer_lem file.installer version).1
            (a.name_is, a.some_size, a.size_bounded, a.digest_is_hex),
      ),
      refl,
    )
