-- ===== src/Storage/Paths.antt =====
-- Paths as crates/cleanup-core/src/filesystem.rs compares them, and the kinds and identities of
-- entries. A `Path`, its conversions and Unicode lower case are parameters.
use supa_diska_klinah.Base.{
  ℕ, Bool, true, false, not, ◌&&◌, ◌||◌, Option, none, some, [], ◌∷◌, map, Text, codes, as_bytes,
  Text-discrete, same, length, any, is_empty, is_ascii_lowercase, is_control, strip_prefix, split,
  ends_with, leb, ◌==◌, if◌then◌else◌,
}
use mathlib.Core.List.{reverse}

pub record FileIdentity : Type 0 where
  pub volume : ℕ
  pub file : ℕ

pub data EntryKind : Type 0 where
  file_kind directory_kind link_like_kind : EntryKind

unfoldable pub EntryKind-discrete : Discrete EntryKind
EntryKind-discrete = hlevel

pub record PathLibrary : Type 1 where
  pub PathBuf : Type 0
  pub path_new : Text → PathBuf
  pub to_str : PathBuf → Option Text
  pub to_string_lossy : PathBuf → Text
  pub is_absolute : PathBuf → Bool
  pub to_lowercase : Text → Text

pub data PathSemantics : Type 0 where
  case_sensitive case_insensitive : PathSemantics

-- `replace('\\', "/")`.
unfoldable pub forward_slashes : Text → Text
forward_slashes = map (λ c. if c == b'\\' then b'/' else c)

abbrev is_ascii_alphabetic : ℕ → Bool
is_ascii_alphabetic c = is_ascii_lowercase c || (leb b'A' c && leb c b'Z')

abbrev is_disk : Text → Bool
is_disk (letter ∷ colon ∷ slash ∷ _) =
    is_ascii_alphabetic letter && (colon == b':') && (slash == b'/')
is_disk _ = false

abbrev disk_only : Option Text → Option Text
disk_only none = none
disk_only (some disk) = if is_disk disk then some disk else none

unfoldable pub local_verbatim_disk : Text → Option Text
local_verbatim_disk normalized = disk_only (strip_prefix (codes "//?/") normalized)

abbrev unwrap_or : Option Text → Text → Text
unwrap_or none value = value
unwrap_or (some found) value = found

abbrev starts_with_colon : Text → Bool
starts_with_colon [] = false
starts_with_colon (c ∷ _) = c == b':'

-- The loop that pops slashes, on the reversed text.
unfoldable pub pop_slashes : Text → Text
pop_slashes [] = []
pop_slashes (c ∷ rest) =
    let popped = pop_slashes rest in
    if (c == b'/') && not (is_empty rest) && not (starts_with_colon rest) then popped else c ∷ rest

-- A `:` only as the second character, after a letter.
abbrev has_stray_colon : Text → Bool
has_stray_colon [] = false
has_stray_colon (c ∷ []) = c == b':'
has_stray_colon (c ∷ d ∷ rest) =
    (c == b':') || ((d == b':') && not (is_ascii_alphabetic c)) || any (λ e. e == b':') rest

module _ (paths : PathLibrary) where
  open paths use {PathBuf, to_str, to_string_lossy, is_absolute, to_lowercase}

  abbrev cased : PathSemantics → Text → Text
  cased case_sensitive value = value
  cased case_insensitive value = to_lowercase value

  unfoldable pub key : PathSemantics → PathBuf → Text
  unfolding forward_slashes local_verbatim_disk pop_slashes
  key semantics path =
      let normalized = forward_slashes (to_string_lossy path) in
      cased semantics
        (reverse (pop_slashes (reverse (unwrap_or (local_verbatim_disk normalized) normalized))))

  unfoldable pub equivalent : PathSemantics → PathBuf → PathBuf → Bool
  unfolding key
  equivalent semantics left right = same Text-discrete (key semantics left) (key semantics right)

  abbrev starts_with_slash : Text → Bool
  starts_with_slash [] = false
  starts_with_slash (c ∷ _) = c == b'/'

  abbrev tail_is_below : Text → Option Text → Bool
  tail_is_below root none = false
  tail_is_below root (some tail) = ends_with b'/' root || starts_with_slash tail

  unfoldable pub contains_path : PathSemantics → PathBuf → PathBuf → Bool
  unfolding key
  contains_path semantics root candidate =
      same Text-discrete (key semantics candidate) (key semantics root)
      || tail_is_below (key semantics root)
          (strip_prefix (key semantics root) (key semantics candidate))

  abbrev is_local_text : PathBuf → Text → Text → Bool
  is_local_text path text normalized =
      is_absolute path
      && leb (length (as_bytes text)) 4096
      && not (any is_control text)
      && elim (strip_prefix (codes "//") normalized) [ none ↦ true | some _ ↦ false ]
      && not (
          any (λ part. same Text-discrete part (codes ".") || same Text-discrete part (codes ".."))
            (split b'/' normalized))
      && not (has_stray_colon normalized)

  abbrev is_local_str : PathBuf → Option Text → Bool
  is_local_str path none = false
  is_local_str path (some text) =
      let normalized = forward_slashes text in
      is_local_text path text (unwrap_or (local_verbatim_disk normalized) normalized)

  unfoldable pub is_local_storage_path : PathBuf → Bool
  unfolding forward_slashes local_verbatim_disk
  is_local_storage_path path = is_local_str path (to_str path)
