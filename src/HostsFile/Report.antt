-- ===== src/HostsFile/Report.antt =====
-- The report on the hosts file, in crates/windows-platform/src/hosts/mod.rs: what each line is and
-- which mappings look tampered with.
use supa_diska_klinah.Base.{
  skip, ℕ, suc, ◌-◌, Bool, not, ◌&&◌, ◌||◌, List, [], ◌∷◌, ◌++◌, Text, codes, Text-discrete, same,
  length, take, any, is_empty, leb, ltb, ◌==◌, if◌then◌else◌,
}
use supa_diska_klinah.Protection.Version.{print_u32}
use supa_diska_klinah.HostsFile.Document.{
  HostsLibrary, HostsDocument, HostsLine, HostsLineKind, invalid, mapping, kind_of, parse_document,
  body_offset, classify_line,
}

abbrev pub max_report_lines : ℕ
max_report_lines = 10000

abbrev pub max_text_chars : ℕ
max_text_chars = 512

abbrev pub max_findings : ℕ
max_findings = 1000

abbrev sensitive_domains : List Text
sensitive_domains =
    codes "microsoft.com"
    ∷ codes "windowsupdate.com"
    ∷ codes "update.microsoft.com"
    ∷ codes "download.windowsupdate.com"
    ∷ codes "live.com"
    ∷ codes "login.microsoftonline.com"
    ∷ codes "google.com"
    ∷ codes "facebook.com"
    ∷ codes "paypal.com"
    ∷ codes "apple.com"
    ∷ codes "amazon.com"
    ∷ codes "avast.com"
    ∷ codes "avg.com"
    ∷ codes "kaspersky.com"
    ∷ codes "eset.com"
    ∷ codes "norton.com"
    ∷ codes "mcafee.com"
    ∷ codes "malwarebytes.com"
    ∷ codes "bitdefender.com"
    ∷ codes "sophos.com"
    ∷ []

abbrev security_domains : List Text
security_domains =
    codes "windowsupdate.com"
    ∷ codes "update.microsoft.com"
    ∷ codes "download.windowsupdate.com"
    ∷ codes "avast.com"
    ∷ codes "avg.com"
    ∷ codes "kaspersky.com"
    ∷ codes "eset.com"
    ∷ codes "norton.com"
    ∷ codes "mcafee.com"
    ∷ codes "malwarebytes.com"
    ∷ codes "bitdefender.com"
    ∷ codes "sophos.com"
    ∷ []

-- `host.trim_end_matches('.')`.
unfoldable pub trim_dots : Text → Text
trim_dots [] = []
trim_dots (c ∷ cs) =
    let rest = trim_dots cs in if is_empty rest && (c == b'.') then [] else c ∷ rest

-- The host is longer, ends with the domain, and the byte before that is a dot.
abbrev is_subdomain : Text → Text → Bool
is_subdomain host domain =
    ltb (length domain) (length host)
    && same Text-discrete (skip (length host - length domain) host) domain
    && same Text-discrete (take 1 (skip (length host - length domain - 1) host)) (codes ".")

unfoldable pub matches_domain : Text → List Text → Bool
unfolding trim_dots
matches_domain host domains =
    any
      (λ domain. same Text-discrete (trim_dots host) domain || is_subdomain (trim_dots host) domain)
      domains

pub data FindingSeverity : Type 0 where
  low high : FindingSeverity

pub data FindingKind : Type 0 where
  redirect security_blocked custom_mapping invalid_line : FindingKind

pub record HostsFinding : Type 0 where
  pub line : ℕ
  pub severity : FindingSeverity
  pub kind : FindingKind
  pub detail : Text

pub record HostsLineView : Type 0 where
  pub index : ℕ
  pub kind : HostsLineKind
  pub text : Text

pub record HostsReport : Type 0 where
  pub path : Text
  pub sha256 : Text
  pub size_bytes : ℕ
  pub total_lines : ℕ
  pub lines_truncated : Bool
  pub lines : List HostsLineView
  pub findings : List HostsFinding

abbrev bounded : Text → Text
bounded text = take max_text_chars text

abbrev join_comma : List Text → Text
join_comma [] = []
join_comma (part ∷ []) = part
join_comma (part ∷ other ∷ parts) = part ++ (codes ", " ++ join_comma (other ∷ parts))

abbrev more_suffix : ℕ → Text
more_suffix more = if ltb 0 more then codes " and " ++ (print_u32 more ++ codes " more") else []

-- The hosts for which the test holds.
abbrev pub select : (Text → Bool) → List Text → List Text
select test [] = []
select test (host ∷ hosts) = let rest = select test hosts in if test host then host ∷ rest else rest

module _ (lib : HostsLibrary) where
  unfoldable pub describe_hosts : List Text → lib.IpAddr → Text
  describe_hosts hosts ip =
      let shown = take 3 hosts in
      bounded (
        join_comma shown
        ++ (more_suffix (length hosts - length shown) ++ (codes " -> " ++ lib.ip_text ip)))

  abbrev finding_of : ℕ → lib.IpAddr → List Text → FindingSeverity → FindingKind → List HostsFinding
  finding_of line ip hosts severity kind =
      if is_empty hosts
      then []
      else record {
        line = line;
        severity = severity;
        kind = kind;
        detail = describe_hosts hosts ip;
      }
        ∷ []

  abbrev blocking : lib.IpAddr → Bool
  blocking ip = lib.is_loopback ip || lib.is_unspecified ip

  abbrev redirected : lib.IpAddr → List Text → List Text
  redirected ip = select (λ host. not (blocking ip) && matches_domain host sensitive_domains)

  abbrev blocked : lib.IpAddr → List Text → List Text
  blocked ip = select (λ host. blocking ip && matches_domain host security_domains)

  abbrev custom : lib.IpAddr → List Text → List Text
  custom ip = select (λ host. not (blocking ip) && not (matches_domain host sensitive_domains))

  -- The body of the loop of `findings`.
  unfoldable pub line_findings : ℕ → HostsLine lib.IpAddr → List HostsFinding
  unfolding describe_hosts matches_domain
  line_findings line (mapping ip hostnames) =
      finding_of line ip (redirected ip hostnames) high redirect
      ++ (finding_of line ip (blocked ip hostnames) high security_blocked
          ++ finding_of line ip (custom ip hostnames) low custom_mapping)
  line_findings line invalid =
      record {
        line = line;
        severity = low;
        kind = invalid_line;
        detail = codes "Line is not a valid hosts entry.";
      }
      ∷ []
  line_findings line _ = []

  -- The loop, which stops once there are enough findings.
  unfoldable pub findings_loop : List (List ℕ) → ℕ → List HostsFinding → List HostsFinding
  unfolding line_findings classify_line
  findings_loop [] index found = found
  findings_loop (raw ∷ lines) index found =
      let rest =
        findings_loop lines (suc index)
          (found ++ line_findings index (classify_line lib index raw)) in
      if leb max_findings (length found) then found else rest

  unfoldable pub findings : HostsDocument → List HostsFinding
  unfolding findings_loop
  findings document = take max_findings (findings_loop document.lines 0 [])

  module _ (lossy : List ℕ → Text) where
    abbrev strip_cr : List ℕ → List ℕ
    strip_cr [] = []
    strip_cr (b ∷ []) = if b == 13 then [] else b ∷ []
    strip_cr (b ∷ c ∷ cs) = b ∷ strip_cr (c ∷ cs)

    abbrev line_views : ℕ → List (List ℕ) → List HostsLineView
    line_views index [] = []
    line_views index (raw ∷ lines) =
        record {
          index = index;
          kind = kind_of (classify_line lib index raw);
          text = bounded (lossy (strip_cr (skip (body_offset index raw) raw)));
        }
        ∷ line_views (suc index) lines

    unfoldable pub build_report : Text → List ℕ → HostsReport
    unfolding classify_line kind_of body_offset findings parse_document
    build_report path bytes =
        let document = parse_document bytes in
        record {
          path = bounded path;
          sha256 = lib.sha256_hex bytes;
          size_bytes = length bytes;
          total_lines = length document.lines;
          lines_truncated = ltb max_report_lines (length document.lines);
          lines = line_views 0 (take max_report_lines document.lines);
          findings = findings document;
        }
