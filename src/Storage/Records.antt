-- ===== src/Storage/Records.antt =====
-- The records of storage scans, in crates/cleanup-core/src/storage: paging.rs, large_files.rs,
-- analysis.rs, duplicates.rs and empty_folders.rs.
use supa_diska_klinah.Base.{ℕ, Bool, Option, none, some, Text, same}
use supa_diska_klinah.Storage.Types.{
  StorageModule, disk_analyzer, duplicates, empty_folders, uninstaller, drives,
  StorageModule-discrete, Completeness, CandidateEligibility,
}
use supa_diska_klinah.Storage.Requests.{
  PageCollection, files, tree, extensions_collection, duplicate_groups, duplicate_members,
  empty_folders_collection, drives_collection, programs, holds_files,
}

pub record FileRecord : Type 0 where
  pub record_id : Text
  pub display_path : Text
  pub logical_bytes : ℕ
  pub allocated_bytes : Option ℕ
  pub modified_unix_seconds : Option ℕ
  pub eligibility : CandidateEligibility

pub record InstalledProgram : Type 0 where
  pub program_id : Text
  pub name : Text
  pub publisher : Option Text
  pub version : Option Text
  pub install_date : Option Text
  pub estimated_size_bytes : Option ℕ
  pub last_used_at : Option ℕ
  pub leftover_support : Text

pub record DirectorySummary : Type 0 where
  pub node_id : Text
  pub parent_id : Option Text
  pub display_path : Text
  pub logical_bytes : ℕ
  pub allocated_bytes : Option ℕ
  pub independent_files : ℕ
  pub hard_link_entries : ℕ
  pub completeness : Completeness

pub record ExtensionSummary : Type 0 where
  pub extension : Text
  pub file_count : ℕ
  pub logical_bytes : ℕ
  pub allocated_bytes : Option ℕ
  pub completeness : Completeness

pub record DriveSummary : Type 0 where
  pub drive_id : Text
  pub display_mount : Text
  pub drive_label : Text
  pub filesystem : Text
  pub total_bytes : ℕ
  pub free_bytes : ℕ
  pub used_bytes : ℕ
  pub system : Option Bool

pub record DuplicateGroup : Type 0 where
  pub group_id : Text
  pub member_count : ℕ
  pub independent_copies : ℕ
  pub bytes_per_copy : ℕ
  pub completeness : Completeness

pub record DuplicateMember : Type 0 where
  pub group_id : Text
  pub file : FileRecord

pub record EmptyFolderRecord : Type 0 where
  pub record_id : Text
  pub display_path : Text
  pub depth : ℕ
  pub descendant_directories : ℕ
  pub completeness : Completeness
  pub eligibility : CandidateEligibility

pub data StorageRecord : Type 0 where
  file_record : FileRecord → StorageRecord
  program_record : InstalledProgram → StorageRecord
  directory_record : DirectorySummary → StorageRecord
  extension_record : ExtensionSummary → StorageRecord
  drive_record : DriveSummary → StorageRecord
  group_record : DuplicateGroup → StorageRecord
  member_record : DuplicateMember → StorageRecord
  empty_folder_record : EmptyFolderRecord → StorageRecord

unfoldable pub collection_of : StorageRecord → PageCollection
collection_of (file_record _) = files
collection_of (program_record _) = programs
collection_of (directory_record _) = tree
collection_of (extension_record _) = extensions_collection
collection_of (drive_record _) = drives_collection
collection_of (group_record _) = duplicate_groups
collection_of (member_record _) = duplicate_members
collection_of (empty_folder_record _) = empty_folders_collection

unfoldable pub parent_of : StorageRecord → Option Text
parent_of (directory_record r) = r.parent_id
parent_of (member_record r) = some r.group_id
parent_of _ = none

unfoldable pub eligibility_of : StorageRecord → Option CandidateEligibility
eligibility_of (file_record r) = some r.eligibility
eligibility_of (member_record r) = some r.file.eligibility
eligibility_of (empty_folder_record r) = some r.eligibility
eligibility_of _ = none

unfoldable pub id_of : StorageRecord → Option Text
id_of (file_record r) = some r.record_id
id_of (program_record r) = some r.program_id
id_of (directory_record r) = some r.node_id
id_of (drive_record r) = some r.drive_id
id_of (group_record r) = some r.group_id
id_of (member_record r) = some r.file.record_id
id_of (empty_folder_record r) = some r.record_id
id_of (extension_record _) = none

unfoldable pub belongs_to : StorageRecord → StorageModule → Bool
unfolding holds_files
belongs_to (file_record _) m = holds_files m
belongs_to (directory_record _) m = same StorageModule-discrete m disk_analyzer
belongs_to (extension_record _) m = same StorageModule-discrete m disk_analyzer
belongs_to (drive_record _) m = same StorageModule-discrete m drives
belongs_to (program_record _) m = same StorageModule-discrete m uninstaller
belongs_to (group_record _) m = same StorageModule-discrete m duplicates
belongs_to (member_record _) m = same StorageModule-discrete m duplicates
belongs_to (empty_folder_record _) m = same StorageModule-discrete m empty_folders
