-- ===== src/HostsFile/Edit.antt =====
-- Line edits of the hosts file, and what the adapter and the helper do with them, in
-- crates/windows-platform/src/hosts/mod.rs and elevated.rs. A reader and a writer are functions on a
-- world.
use supa_diska_klinah.Base.{
  skip, ℕ, suc, ◌+◌, ◌-◌, Bool, true, false, ◌&&◌, Option, none, some, List, [], ◌∷◌, ◌++◌, Text,
  codes, Text-discrete, same, length, take, get_elem?, set, ltb, ◌==◌, if◌then◌else◌, Result, ok,
  err, ◌>>=◌, ◌>>◌, ok_or, map_err,
}
use supa_diska_klinah.Contract.Ids.{Sha256Digest, parse_digest}
use supa_diska_klinah.Contract.Types.{
  SystemChange, edit_hosts, HostsLineOp, HostsLineAction, disable, restore_line, PriorState,
  hosts_file, ImpactSummary, no_restart, medium,
}
use supa_diska_klinah.Contract.Changes.{validate}
use supa_diska_klinah.Contract.Plans.{not_present}
use supa_diska_klinah.Protection.Version.{print_u32}
use supa_diska_klinah.Service.Types.{AdapterError, adapter_unsupported, adapter_failed}
use supa_diska_klinah.HostsFile.Document.{
  HostsLibrary, HostsDocument, HostsLine, mapping, app_disabled, HostsError, adapter_error,
  disabled_prefix, parse_document, to_bytes, body_offset, classify,
}

abbrev line_missing : AdapterError
line_missing = adapter_unsupported not_present

unfoldable pub state_of : {A : Type 0} → HostsLineAction → HostsLine A → Result AdapterError Bool
state_of disable (mapping _ _) = ok false
state_of restore_line (app_disabled _ _) = ok false
state_of disable (app_disabled _ _) = ok true
state_of restore_line (mapping _ _) = ok true
state_of action line = err line_missing

-- The splice or the drain on one line.
unfoldable pub changed_line : HostsLineAction → ℕ → List ℕ → List ℕ
unfolding body_offset
changed_line disable index raw =
    let offset = body_offset index raw in take offset raw ++ (disabled_prefix ++ skip offset raw)
changed_line restore_line index raw =
    let offset = body_offset index raw in
    take offset raw ++ skip (offset + length disabled_prefix) raw

unfoldable pub validated_ops : List HostsLineOp → Result AdapterError (Unit {0})
unfolding validate
validated_ops line_ops = map_err (λ _. adapter_failed) (validate (edit_hosts line_ops))

module _ (lib : HostsLibrary) where
  unfoldable pub op_state : HostsDocument → HostsLineOp → Result AdapterError Bool
  unfolding classify state_of
  op_state document op = do
    line ← ok_or (classify lib document op.line) line_missing
    state_of op.action line

  abbrev change_found :
      HostsDocument → HostsLineOp → Option (List ℕ) → Result AdapterError HostsDocument
  change_found document op none = err line_missing
  change_found document op (some raw) =
      ok (record document {
        lines = set document.lines op.line (changed_line op.action op.line raw);
      })

  -- The body of the loop of `edit`.
  unfoldable pub edit_op : HostsDocument → HostsLineOp → Result AdapterError HostsDocument
  unfolding op_state changed_line
  edit_op document op = do
    done ← op_state document op
    if done then ok document else change_found document op (get_elem? document.lines op.line)

  unfoldable pub edit_ops : HostsDocument → List HostsLineOp → Result AdapterError HostsDocument
  unfolding edit_op
  edit_ops document [] = ok document
  edit_ops document (op ∷ ops) = edit_op document op >>= λ document'. edit_ops document' ops

  unfoldable pub edit : List ℕ → List HostsLineOp → Result AdapterError (List ℕ)
  unfolding validated_ops edit_ops
  edit bytes line_ops = do
    validated_ops line_ops
    document ← edit_ops (parse_document bytes) line_ops
    ok (to_bytes document)

  -- `for op in line_ops { op_state(&document, op)?; }`.
  unfoldable pub check_ops : HostsDocument → List HostsLineOp → Result AdapterError (Unit {0})
  unfolding op_state
  check_ops document [] = ok tt
  check_ops document (op ∷ ops) = op_state document op >>= λ _. check_ops document ops

  unfoldable pub sha256_digest : List ℕ → Result AdapterError Sha256Digest
  sha256_digest bytes = map_err (λ _. adapter_failed) (parse_digest (lib.sha256_hex bytes))

  -- `observe_ops`, with what the reader gives.
  unfoldable pub observe_ops :
      Result HostsError (List ℕ) → List HostsLineOp → Result AdapterError PriorState
  unfolding check_ops sha256_digest validated_ops
  observe_ops read line_ops = do
    validated_ops line_ops
    bytes ← map_err adapter_error read
    check_ops (parse_document bytes) line_ops
    sha256 ← sha256_digest bytes
    ok (hosts_file sha256)

  abbrev all_done : HostsDocument → List HostsLineOp → Bool
  all_done document [] = true
  all_done document (op ∷ ops) =
      elim (op_state document op) [ ok done ↦ done | err _ ↦ false ] && all_done document ops

  abbrev satisfied_read : Result HostsError (List ℕ) → List HostsLineOp → Text → Bool
  satisfied_read (err _) line_ops sha256 = false
  satisfied_read (ok bytes) line_ops sha256 =
      same Text-discrete (lib.sha256_hex bytes) sha256 && all_done (parse_document bytes) line_ops

  unfoldable pub satisfied : Result HostsError (List ℕ) → List HostsLineOp → PriorState → Bool
  unfolding op_state
  satisfied read line_ops (hosts_file sha256) = satisfied_read read line_ops sha256.as_str
  satisfied read line_ops _ = false

  module _ {W : Type 0} (read : W → Result HostsError (List ℕ) × W)
      (replace : Sha256Digest → List ℕ → W → Result HostsError (Unit {0}) × W) where
    abbrev replaced : Result HostsError (Unit {0}) × W → Result AdapterError (Unit {0}) × W
    replaced (r, w) = (map_err adapter_error r, w)

    abbrev apply_digest :
        List ℕ → Result AdapterError Sha256Digest → W → Result AdapterError (Unit {0}) × W
    apply_digest updated (err e) w = (err e, w)
    apply_digest updated (ok digest) w = replaced (replace digest updated w)

    abbrev apply_updated :
        List ℕ → Result AdapterError (List ℕ) → W → Result AdapterError (Unit {0}) × W
    apply_updated bytes (err e) w = (err e, w)
    apply_updated bytes (ok updated) w =
        if same Text-discrete updated bytes
        then (ok tt, w)
        else apply_digest updated (sha256_digest bytes) w

    abbrev apply_read :
        List HostsLineOp → Result HostsError (List ℕ) × W → Result AdapterError (Unit {0}) × W
    apply_read line_ops (err e, w) = (err (adapter_error e), w)
    apply_read line_ops (ok bytes, w) = apply_updated bytes (edit bytes line_ops) w

    unfoldable pub apply_ops : List HostsLineOp → W → Result AdapterError (Unit {0}) × W
    unfolding edit sha256_digest
    apply_ops line_ops w = apply_read line_ops (read w)

  abbrev count_disable : List HostsLineOp → ℕ
  count_disable [] = 0
  count_disable (op ∷ ops) = elim op.action [
    | disable ↦ suc (count_disable ops)
    | restore_line ↦ count_disable ops
  ]

  abbrev plural : ℕ → Text
  plural n = if n == 1 then [] else codes "s"

  abbrev join_and : List Text → Text
  join_and [] = []
  join_and (part ∷ []) = part
  join_and (part ∷ other ∷ parts) = part ++ (codes " and " ++ join_and (other ∷ parts))

  abbrev effect_parts : ℕ → ℕ → List Text
  effect_parts disabled restored =
      (if ltb 0 disabled
        then (codes "comment out "
            ++ (print_u32 disabled ++ (codes " hosts mapping" ++ plural disabled)))
          ∷ []
        else [])
      ++ (if ltb 0 restored
          then (codes "re-enable "
              ++ (print_u32 restored
                  ++ (codes " mapping" ++ (plural restored ++ codes " this app disabled"))))
            ∷ []
          else [])

  -- `describe`, with what the reader gives.
  unfoldable pub describe_ops :
      Result HostsError (List ℕ) → List HostsLineOp → Result AdapterError ImpactSummary
  unfolding check_ops validated_ops print_u32
  describe_ops read line_ops = do
    validated_ops line_ops
    bytes ← map_err adapter_error read
    check_ops (parse_document bytes) line_ops
    let disabled = count_disable line_ops
    let restored = length line_ops - disabled
    ok (record {
      component = codes "Hosts file";
      effect =
          codes "Will "
          ++ (join_and (effect_parts disabled restored)
              ++ codes ". A backup of the hosts file is saved first; other lines are untouched.");
      restart = no_restart;
      risk = medium;
    })

-- `line_ops` of the adapter.
unfoldable pub ops_of : SystemChange → Result AdapterError (List HostsLineOp)
ops_of (edit_hosts line_ops) = ok line_ops
ops_of _ = err adapter_failed
