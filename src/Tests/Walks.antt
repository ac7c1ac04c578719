-- ===== src/Tests/Walks.antt =====
-- Concrete walks for the collector of crates/cleanup-core/src/storage/large_files.rs.
use supa_diska_klinah.Base.{
  ℕ, ◌≡◌, refl, Text, codes, none, some, List, [], ◌∷◌, ok, keep, Option, take, map,
}
use supa_diska_klinah.Storage.Paths.{file_kind}
use supa_diska_klinah.Storage.Requests.{validate_filter}
use supa_diska_klinah.Storage.LargeFiles.{
  EntryMetadata, LargeFiles, default_filter, collected_file, new_large_files,
}
use supa_diska_klinah.Storage.Collecting.{Walked, observe_all, is_match, observe_all_lem}
use supa_diska_klinah.Tests.Snapshots.{plain_paths}

abbrev metadata_of : ℕ → EntryMetadata ℕ
metadata_of size = record {
  kind = file_kind;
  identity = none;
  size = size;
  modified = some 5000000000;
}

abbrev no_extension : Text → Option Text
no_extension path = none

abbrev NumberWalked : Type 0
NumberWalked = Walked plain_paths ℕ (λ t. some t) no_extension

abbrev three_entries : List NumberWalked
three_entries =
    (codes "a", (metadata_of 20000000, some 20000256))
    ∷ (codes "b", (metadata_of 3, none))
    ∷ (codes "c", (metadata_of 30000000, none))
    ∷ []

abbrev one_large : LargeFiles plain_paths ℕ (λ t. some t) no_extension
one_large = record { filter = default_filter; limit = 1; files = [] }

one_large_made :
    new_large_files plain_paths ℕ (λ t. some t) no_extension default_filter 1 ≡ ok one_large
unfolding new_large_files validate_filter
one_large_made = refl

observe_all_lem_example :
    (observe_all plain_paths ℕ (λ t. some t) no_extension three_entries one_large).files
    ≡ take 1 (
        map
          (collected_file plain_paths ℕ (λ t. some t) no_extension)
          (keep (is_match plain_paths ℕ (λ t. some t) no_extension default_filter) three_entries))
observe_all_lem_example =
    observe_all_lem plain_paths ℕ (λ t. some t) no_extension three_entries default_filter 1
      one_large one_large_made
