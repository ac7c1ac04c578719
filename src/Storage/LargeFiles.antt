-- ===== src/Storage/LargeFiles.antt =====
-- The collector of large files, in crates/cleanup-core/src/storage/large_files.rs. Times of the
-- file system and the extension of a path are parameters.
use supa_diska_klinah.Base.{
  ℕ, ◌*◌, ◌/◌, ◌^◌, Bool, true, not, ◌&&◌, ◌||◌, Option, none, some, List, [], ◌∷◌, ◌++◌, Text,
  codes, same, is_empty, length, leb, ltb, if◌then◌else◌, Result, ok, err, ◌>>◌,
}
use supa_diska_klinah.Storage.Paths.{
  PathLibrary, FileIdentity, EntryKind, file_kind, EntryKind-discrete,
}
use supa_diska_klinah.Storage.Types.{read_only, StorageError, invalid_request, within, max_records}
use supa_diska_klinah.Storage.Requests.{
  FileFilter, FileCategory, any_category, documents, images, audio, video, archives, other,
  size_sort, validate_filter, contains_text,
}
use supa_diska_klinah.Storage.Records.{FileRecord}
use supa_diska_klinah.Storage.Evidence.{ObservedEntry}

unfoldable pub FileCategory-discrete : Discrete FileCategory
FileCategory-discrete = hlevel

pub record EntryMetadata (SystemTime : Type 0) : Type 0 where
  pub kind : EntryKind
  pub identity : Option FileIdentity
  pub size : ℕ
  pub modified : Option SystemTime

abbrev pub default_filter : FileFilter
default_filter = record {
  minimum_bytes = 10 * 1024 * 1024;
  maximum_bytes = none;
  extensions = [];
  category = any_category;
  sort = size_sort;
  descending = true;
}

abbrev one_of : List Text → Text → Bool
one_of names ext = contains_text ext names

unfoldable pub category_of : Text → FileCategory
category_of ext =
    if one_of
      (codes "pdf"
        ∷ codes "doc"
        ∷ codes "docx"
        ∷ codes "xls"
        ∷ codes "xlsx"
        ∷ codes "ppt"
        ∷ codes "pptx"
        ∷ codes "txt"
        ∷ codes "rtf"
        ∷ codes "odt"
        ∷ codes "csv"
        ∷ [])
      ext
    then documents
    else if one_of
        (codes "jpg"
          ∷ codes "jpeg"
          ∷ codes "png"
          ∷ codes "gif"
          ∷ codes "bmp"
          ∷ codes "webp"
          ∷ codes "svg"
          ∷ codes "tif"
          ∷ codes "tiff"
          ∷ codes "heic"
          ∷ [])
        ext
    then images
    else if one_of
        (codes "mp3"
          ∷ codes "wav"
          ∷ codes "flac"
          ∷ codes "aac"
          ∷ codes "ogg"
          ∷ codes "m4a"
          ∷ codes "wma"
          ∷ [])
        ext
    then audio
    else if one_of
        (codes "mp4"
          ∷ codes "mkv"
          ∷ codes "avi"
          ∷ codes "mov"
          ∷ codes "wmv"
          ∷ codes "webm"
          ∷ codes "m4v"
          ∷ [])
        ext
    then video
    else if one_of
        (codes "zip"
          ∷ codes "7z"
          ∷ codes "rar"
          ∷ codes "gz"
          ∷ codes "tar"
          ∷ codes "bz2"
          ∷ codes "xz"
          ∷ [])
        ext
    then archives
    else other

pub data WalkControl : Type 0 where
  continue_walk stop_walk : WalkControl

module _ (paths : PathLibrary) (SystemTime : Type 0) (since_epoch : SystemTime → Option ℕ)
    (extension_str : paths.PathBuf → Option Text) where
  open paths use {PathBuf, to_string_lossy, to_lowercase}

  -- `path.extension().and_then(|s| s.to_str()).unwrap_or("").to_lowercase()`.
  abbrev extension : PathBuf → Text
  extension path = to_lowercase (elim (extension_str path) [ none ↦ [] | some ext ↦ ext ])

  abbrev at_most : Option ℕ → ℕ → Bool
  at_most none size = true
  at_most (some maximum) size = leb size maximum

  unfoldable pub matches : FileFilter → PathBuf → EntryMetadata SystemTime → Bool
  unfolding category_of
  matches filter path metadata =
      same EntryKind-discrete metadata.kind file_kind
      && leb filter.minimum_bytes metadata.size
      && at_most filter.maximum_bytes metadata.size
      && (is_empty filter.extensions || contains_text (extension path) filter.extensions)
      && (same FileCategory-discrete filter.category any_category
          || same FileCategory-discrete filter.category (category_of (extension path)))

  -- An entry that the walk reports, with what is allocated for it.
  abbrev pub WalkEntry : Type 0
  WalkEntry = PathBuf × (EntryMetadata SystemTime × Option ℕ)

  abbrev modified_nanos : Option SystemTime → Option ℕ
  modified_nanos none = none
  modified_nanos (some m) = since_epoch m

  abbrev seconds : Option ℕ → Option ℕ
  seconds none = none
  seconds (some n) = some (n / 1000000000)

  abbrev observed :
      PathBuf
      → EntryMetadata SystemTime
      → Option ℕ
      → Option FileIdentity
      → Option ℕ
      → Option (ObservedEntry PathBuf)
  observed path metadata allocated (some identity) (some nanos) =
      if ltb nanos (2 ^ 64)
      then some (record {
        canonical_path = path;
        identity = identity;
        kind = metadata.kind;
        logical_bytes = metadata.size;
        allocated_bytes = allocated;
        modified_unix_nanos = nanos;
      })
      else none
  observed path metadata allocated _ _ = none

  unfoldable pub collected_file : WalkEntry → FileRecord × Option (ObservedEntry PathBuf)
  collected_file (path, (metadata, allocated)) =
      let modified = modified_nanos metadata.modified in
      (
        record {
          record_id = [];
          display_path = to_string_lossy path;
          logical_bytes = metadata.size;
          allocated_bytes = allocated;
          modified_unix_seconds = seconds modified;
          eligibility = read_only;
        },
        observed path metadata allocated metadata.identity modified,
      )

  pub record LargeFiles : Type 0 where
    pub filter : FileFilter
    pub limit : ℕ
    pub files : List (FileRecord × Option (ObservedEntry PathBuf))

  unfoldable pub new_large_files : FileFilter → ℕ → Result StorageError LargeFiles
  unfolding validate_filter
  new_large_files filter limit =
      validate_filter filter
      >> (if not (within 1 max_records limit)
          then err invalid_request
          else ok (record { filter = filter; limit = limit; files = [] }))

  -- `observe` of an entry; other events of the walk change nothing.
  unfoldable pub observe : WalkEntry → LargeFiles → WalkControl × LargeFiles
  observe entry state =
      if matches state.filter entry.0 entry.1.0
      then (if leb state.limit (length state.files)
          then (stop_walk, state)
          else (continue_walk, record state { files = state.files ++ collected_file entry ∷ [] }))
      else (continue_walk, state)
