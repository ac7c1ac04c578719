-- ===== src/Lib.antt =====
-- Supa Diska Klinah is a Windows desktop application that cleans storage and changes system settings.
-- This library models the parts that decide what may be changed and how it is undone, and those that
-- decide whether an update or a rule pack is to be trusted:
--
-- Contract: src-tauri/crates/cleanup-core/src/system_change.rs, the closed model of system changes.
--   Contract/Ids       validated identifiers (`validated_string!` and the predicates before it)
--   Contract/Types     `SystemChange`, `PriorState` and the types in them
--   Contract/Changes   `module` (module_of), `privilege`, `reversibility`, `validate`,
--                      `is_satisfied_by`, `inverse`
--   Contract/Plans     `PlannedChange`, `ChangeOutcome`, `ExecutionReport`
--   Contract/Journal   `JournalEntry`, `Journal` and its methods
--   Contract/Inverse, HostsEdit, IdLaws, Trimming, Entries and Outcomes hold the proofs.
--   The fields `module`, `privilege`, `reversibility` and `inverse` are named system_module, needs,
--   undoing and inverse_change, since functions have these names.
--
-- Service: src-tauri/crates/windows-platform/src/system_change/mod.rs, which plans, confirms, executes,
--   journals and rolls back changes.
--   Service/Types      the types, and the environment: adapters, helper, journal store, clocks, random
--                      identifiers, as functions on a world W
--   Service/Plans      the map of stored plans
--   Service/Planning   `preview`, `create_plan`, `create_rollback_plan`, `store_plan`,
--                      `confirm_with_strings` (split at the prompt, where the lock is given back)
--   Service/Execution  `execute_standard` and `record_intent` (write_intent)
--   Service/Batch      `execute_helper_batch`
--   Service/Execute    `execute`
--   Service/Recovery   `journal`, `interrupted`, `reconcile_interrupted`
--   Service/WriteAhead, WriteAheadRun, Soundness, SoundnessRun, Reports, Confirmation, PlanChecks,
--   PlanLaws and Lifecycle hold the
--   proofs, and Service/Reachable the calls as a step relation.
--   A service state holds the world, the plans, whether `running` is held, and the events so far: saves
--   of the journal, applied changes and helper calls.
--
-- HostsFile: src-tauri/crates/windows-platform/src/hosts/mod.rs, the adapter for EditHosts changes.
--   HostsFile/Document   the file as lines of bytes, and what a line is
--   HostsFile/Edit       line edits, observe_ops, apply_ops, satisfied and describe, over a reader and
--                        a writer; elevated.rs calls the same functions
--   HostsFile/Report     the findings and the report
--   HostsFile/RoundTrip, Lines, Restoring, Canonical, Rollback and Findings hold the proofs.
--   `IpAddr`, UTF-8 validation, the lossy decoder and SHA-256 are parameters. That no address begins
--   with the first byte of the byte order mark is a hypothesis (`no_bom_address`), which the ASCII
--   grammar of addresses in the standard library gives.
--
-- Storage: src-tauri/crates/cleanup-core/src/storage, what a storage scan hands to the interface.
--   Storage/Paths       paths and identities of filesystem.rs
--   Storage/Types, Requests   mod.rs, the page requests of paging.rs and the filter of large_files.rs
--   Storage/LargeFiles  the collector `LargeFiles` of large_files.rs; Collecting hands it the entries of a walk
--   Storage/Evidence    evidence.rs
--   Storage/Records     the records of paging.rs, analysis.rs, duplicates.rs and empty_folders.rs
--   Storage/Duplicates  duplicates.rs
--   Storage/Snapshots   `StorageSnapshot` of paging.rs and its `page` (snapshot_page)
--   Storage/Builder, Finish   `SnapshotBuilder` of paging.rs; the loop over ancestors has MAX_DEPTH
--                       rounds, as in the code
--   Storage/Pages       `SnapshotPages` of paging.rs
--   Storage/Keeping, PageRows, Indexing, Selecting, Places, Enumeration, Collecting, Retention and Resolution hold
--   the proofs.
--   A hash map is the list of its entries, in whatever order it is iterated. Times are nanoseconds. The
--   field `module` is named storage_module. Paths, Unicode lower case, JSON and random bytes are
--   parameters; that the random source fills its buffer is a hypothesis (`FillsBuffer`).
--
-- Protection: src-tauri/crates/protection-core/src, the update manifest, hexadecimal text, the
--   network opt-ins, signed rule packs and the streaming matcher.
--   Protection/Hex       `to_hex` and `from_hex` of evidence.rs
--   Protection/Policy    policy.rs
--   Protection/Version   `AppVersion` of update.rs
--   Protection/Update    `check` of update.rs
--   Protection/Verifier  `UpdateVerifier` of update.rs
--   Protection/Pack          `RulePack` and `validate` of pack.rs
--   Protection/PackVerifier  `PackVerifier` of pack.rs
--   Protection/Matcher       `CompiledPack` and `FileMatcher` of engine.rs
--   Protection/Options       the combinators of Option that these call
--   Protection/VersionLaws, VersionRoundTrip, UpdateLaws, PackLaws and Streaming hold the proofs.
--
-- Base holds the shared lists, results, texts and tests; Tests holds concrete cases.
--
-- Texts are lists of code points, as_bytes is their UTF-8 form. Integers are natural numbers; u32 and
-- u64 bounds are written out where the code depends on them. trim_loop runs on the length of the
-- journal as fuel, which is enough since each round removes an entry; print_fuel runs on the number
-- plus one.
--
-- Not modelled: serde, Ed25519, SHA-256, Aho-Corasick, Windows calls and locks that are poisoned are parameters or left out;
-- the journal file, the replacement of the hosts file and its backups, the helper's pipe, the other adapters, the walk of
-- the file system, the cleanup engine, the commands and
-- the web interface are outside.
pub mod Base
pub mod Contract
pub mod Service
pub mod Protection
pub mod HostsFile
pub mod Storage
pub mod Tests
