-- ===== src/HostsFile/Document.antt =====
-- The hosts file as lines of bytes, and what each line is: the parsing part of
-- crates/windows-platform/src/hosts/mod.rs. Host names are rows of ASCII bytes. `IpAddr`, its parser,
-- its tests and its printer, UTF-8 validation and SHA-256 are parameters.
use supa_diska_klinah.Base.{
  skip, ℕ, ◌+◌, ◌*◌, Bool, true, false, not, ◌&&◌, ◌||◌, Option, none, some, List, [], ◌∷◌, ◌++◌,
  map, Text, codes, length, all, any, is_empty, get_elem?, is_ascii_digit, is_ascii_lowercase,
  strip_prefix, split, onto_first, join, pop, ends_with, leb, ltb, ◌==◌, if◌then◌else◌,
}
use supa_diska_klinah.Service.Types.{
  AdapterError, adapter_unsupported, adapter_denied, adapter_failed,
}
use supa_diska_klinah.Contract.Plans.{api_unavailable, not_present}

abbrev pub max_hosts_bytes : ℕ
max_hosts_bytes = 1024 * 1024

abbrev pub disabled_prefix : List ℕ
disabled_prefix = codes "#sdk-disabled# "

abbrev pub utf8_bom : List ℕ
utf8_bom = 0xef ∷ 0xbb ∷ 0xbf ∷ []

abbrev pub max_hostnames_per_line : ℕ
max_hostnames_per_line = 64

pub data HostsError : Type 0 where
  system_directory not_found denied_access too_large io_failed state_changed : HostsError

-- `From<HostsError> for AdapterError`.
unfoldable pub adapter_error : HostsError → AdapterError
adapter_error system_directory = adapter_unsupported api_unavailable
adapter_error not_found = adapter_unsupported not_present
adapter_error denied_access = adapter_denied
adapter_error too_large = adapter_failed
adapter_error io_failed = adapter_failed
adapter_error state_changed = adapter_failed

pub record HostsLibrary : Type 1 where
  pub IpAddr : Type 0
  pub parse_ip : List ℕ → Option IpAddr
  pub is_loopback : IpAddr → Bool
  pub is_unspecified : IpAddr → Bool
  pub ip_text : IpAddr → Text
  pub is_utf8 : List ℕ → Bool
  pub sha256_hex : List ℕ → Text

pub data HostsLineKind : Type 0 where
  blank_kind comment_kind mapping_kind app_disabled_kind invalid_kind : HostsLineKind

pub data HostsLine (IpAddr : Type 0) : Type 0 where
  blank comment invalid : HostsLine IpAddr
  mapping app_disabled : (ip : IpAddr) (hostnames : List (List ℕ)) → HostsLine IpAddr

unfoldable pub kind_of : {A : Type 0} → HostsLine A → HostsLineKind
kind_of blank = blank_kind
kind_of comment = comment_kind
kind_of (mapping _ _) = mapping_kind
kind_of (app_disabled _ _) = app_disabled_kind
kind_of invalid = invalid_kind

pub record HostsDocument : Type 0 where
  pub lines : List (List ℕ)
  pub trailing_newline : Bool

abbrev pub newline : ℕ
newline = 10

unfoldable pub parse_document : List ℕ → HostsDocument
parse_document bytes =
    if is_empty bytes then record { lines = []; trailing_newline = false } else record {
      lines = if ends_with newline bytes then pop (split newline bytes) else split newline bytes;
      trailing_newline = ends_with newline bytes;
    }

unfoldable pub to_bytes : HostsDocument → List ℕ
to_bytes document =
    if document.trailing_newline
    then join newline document.lines ++ newline ∷ []
    else join newline document.lines

unfoldable pub starts_with : List ℕ → List ℕ → Bool
starts_with prefix value = elim (strip_prefix prefix value) [ none ↦ false | some _ ↦ true ]

unfoldable pub body_offset : ℕ → List ℕ → ℕ
unfolding starts_with
body_offset index raw = if (index == 0) && starts_with utf8_bom raw then 3 else 0

-- `u8::is_ascii_whitespace`.
abbrev pub is_space : ℕ → Bool
is_space b = (b == 32) || (b == 9) || (b == 10) || (b == 12) || (b == 13)

unfoldable pub trim_start : List ℕ → List ℕ
trim_start [] = []
trim_start (b ∷ bs) = let rest = trim_start bs in if is_space b then rest else b ∷ bs

unfoldable pub trim_end : List ℕ → List ℕ
trim_end [] = []
trim_end (b ∷ bs) = let rest = trim_end bs in if is_empty rest && is_space b then [] else b ∷ rest

-- `body.trim_ascii()`.
unfoldable pub trim_ascii : List ℕ → List ℕ
unfolding trim_start trim_end
trim_ascii bytes = trim_end (trim_start bytes)

-- The first piece of the split at `#`.
unfoldable pub before_hash : List ℕ → List ℕ
before_hash [] = []
before_hash (b ∷ bs) = if b == b'#' then [] else b ∷ before_hash bs

abbrev starts_word : List ℕ → Bool
starts_word [] = false
starts_word (b ∷ _) = not (is_space b)

-- `text.split_ascii_whitespace()`.
unfoldable pub words : List ℕ → List (List ℕ)
words [] = []
words (b ∷ bs) =
    let rest = words bs in
    if is_space b then rest else if starts_word bs then onto_first b rest else (b ∷ []) ∷ rest

abbrev is_ascii_uppercase : ℕ → Bool
is_ascii_uppercase b = leb b'A' b && leb b b'Z'

abbrev pub to_ascii_lowercase : List ℕ → List ℕ
to_ascii_lowercase = map (λ b. if is_ascii_uppercase b then b + 32 else b)

abbrev is_name_byte : ℕ → Bool
is_name_byte b =
    is_ascii_lowercase b
    || is_ascii_uppercase b
    || is_ascii_digit b
    || (b == b'-')
    || (b == b'.')
    || (b == b'_')

unfoldable pub valid_hostname : List ℕ → Bool
valid_hostname name =
    (leb 1 (length name) && leb (length name) 253)
    && all is_name_byte name
    && any (λ b. not (b == b'.')) name

module _ (lib : HostsLibrary) where
  open lib use {IpAddr, parse_ip, is_utf8}

  abbrev accept_names : IpAddr → List (List ℕ) → Option (IpAddr × List (List ℕ))
  accept_names ip hostnames =
      if is_empty hostnames
        || ltb max_hostnames_per_line (length hostnames)
        || not (all valid_hostname hostnames)
      then none
      else some (ip, hostnames)

  abbrev accept_ip : Option IpAddr → List (List ℕ) → Option (IpAddr × List (List ℕ))
  accept_ip none tokens = none
  accept_ip (some ip) tokens = accept_names ip (map to_ascii_lowercase tokens)

  abbrev accept_tokens : List (List ℕ) → Option (IpAddr × List (List ℕ))
  accept_tokens [] = none
  accept_tokens (address ∷ tokens) = accept_ip (parse_ip address) tokens

  unfoldable pub parse_mapping : List ℕ → Option (IpAddr × List (List ℕ))
  parse_mapping bytes =
      let content = before_hash bytes in
      if is_utf8 content then accept_tokens (words content) else none

  abbrev pub line_of_rest : Option (IpAddr × List (List ℕ)) → HostsLine IpAddr
  line_of_rest (some (ip, hostnames)) = app_disabled ip hostnames
  line_of_rest none = comment

  abbrev pub line_of_mapping : Option (IpAddr × List (List ℕ)) → HostsLine IpAddr
  line_of_mapping (some (ip, hostnames)) = mapping ip hostnames
  line_of_mapping none = invalid

  abbrev pub classify_plain : List ℕ → HostsLine IpAddr
  classify_plain body =
      let trimmed = trim_ascii body in
      if is_empty trimmed
      then blank
      else if starts_with (b'#' ∷ []) trimmed
      then comment
      else line_of_mapping (parse_mapping body)

  abbrev pub classify_stripped : List ℕ → Option (List ℕ) → HostsLine IpAddr
  classify_stripped body (some rest) = line_of_rest (parse_mapping rest)
  classify_stripped body none = classify_plain body

  unfoldable pub classify_line : ℕ → List ℕ → HostsLine IpAddr
  unfolding body_offset
  classify_line index raw =
      let body = skip (body_offset index raw) raw in
      classify_stripped body (strip_prefix disabled_prefix body)

  unfoldable pub classify : HostsDocument → ℕ → Option (HostsLine IpAddr)
  unfolding classify_line
  classify document index = elim (get_elem? document.lines index) [
    | none ↦ none
    | some raw ↦ some (classify_line index raw)
  ]
