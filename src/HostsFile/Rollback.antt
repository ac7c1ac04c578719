-- ===== src/HostsFile/Rollback.antt =====
-- What an edit of the hosts file leaves, when it fails, and what its rollback gives.
use mathlib.Core.Path.{subst}
use supa_diska_klinah.Base.{
  ℕ, ◌≡◌, refl, sym, ap, ◌∙◌, true, false, some, List, [], ◌∷◌, map, arith, ok, ◌>>=◌, ◌>>◌, All,
  none, get_elem?, get_elem?-set, Result-cases, inl, inr, ◌≢◌,
}
use supa_diska_klinah.Contract.Ids.{Sha256Digest}
use supa_diska_klinah.Contract.Types.{
  SystemChange, edit_hosts, HostsLineOp, HostsLineAction, hosts_file,
}
use supa_diska_klinah.Contract.Changes.{
  op_lines, validate, validate_hosts, inverse, inverse_op, inverse_action,
}
use supa_diska_klinah.Contract.Inverse.{validate_hosts-inverse_ops}
use supa_diska_klinah.Contract.HostsEdit.{AllDistinct, hosts_edit_accepted}
use supa_diska_klinah.HostsFile.Document.{
  HostsLibrary, HostsLine, HostsDocument, parse_document, to_bytes, classify, classify_line,
}
use supa_diska_klinah.HostsFile.Edit.{
  changed_line, op_state, state_of, edit_op, edit_ops, edit, check_ops, validated_ops, ops_of,
}
use supa_diska_klinah.HostsFile.RoundTrip.{
  to_bytes-parse_document, parse_document-IsCanonical, parse_document-to_bytes,
}
use supa_diska_klinah.HostsFile.Restoring.{
  HasWork, edit_op_cases, edit_op_pending, pending_line, edit_op-get_elem?, edit_ops-get_elem?,
  changed_line_back, edit_ops_back,
}
use supa_diska_klinah.HostsFile.Canonical.{edit_ops-IsCanonical}

validated_distinct :
    (ops : List HostsLineOp) → validate_hosts ops ≡ ok tt → AllDistinct (op_lines ops)
validated_distinct ops v = let (f, _) = hosts_edit_accepted ops in let (_, _, d) = f v in d

state_of_inverse :
    {A : Type 0} (action : HostsLineAction) (line : HostsLine A)
    → state_of (inverse_action action) line ≡ ok false
    → state_of action line ≡ ok true
unfolding state_of inverse_action
state_of_inverse action line h = ground (arith, h)

module _ (lib : HostsLibrary) where
  -- the state of an operation depends on its line alone
  op_state-get_elem? :
      (document document' : HostsDocument) (op : HostsLineOp)
      → get_elem? document'.lines op.line ≡ get_elem? document.lines op.line
      → op_state lib document' op ≡ op_state lib document op
  unfolding op_state classify
  op_state-get_elem? document document' op e = ground (arith, e)

  check_ops-edit_op :
      (document : HostsDocument) (op : HostsLineOp) (document' : HostsDocument)
      (ops : List HostsLineOp)
      → edit_op lib document op ≡ ok document'
      → All (λ k. op.line ≢ k) (op_lines ops)
      → check_ops lib document' ops ≡ check_ops lib document ops
  unfolding check_ops
  check_ops-edit_op document op document' [] h n = refl
  check_ops-edit_op document op document' (next ∷ ops) h n =
      let g = edit_op-get_elem? lib document next.line op document' (λ q. n.0 (sym q)) h in
      let s = op_state-get_elem? document document' next g in
      let rest = check_ops-edit_op document op document' ops h n.1 in rw (s, rest) refl

  edit_op_state :
      (document : HostsDocument) (op : HostsLineOp)
      → (op_state lib document op >>= λ _. ok tt) ≡ (edit_op lib document op >>= λ _. ok tt)
  unfolding edit_op
  edit_op_state document op = elim (Result-cases (op_state lib document op)) [
    | inl (e, q) ↦ ground (arith, q)
    | inr (true, q) ↦ ground (arith, q)
    | inr (false, q) ↦
        let (raw, (g, s)) = pending_line lib document op q in
        let p = edit_op_pending lib document op raw g s in ground (arith, q, p)
  ]

  check_ops-edit_ops :
      (document : HostsDocument) (ops : List HostsLineOp)
      → AllDistinct (op_lines ops)
      → (edit_ops lib document ops >>= λ _. ok tt) ≡ check_ops lib document ops
  unfolding edit_ops check_ops
  check_ops-edit_ops document [] d = refl
  check_ops-edit_ops document (op ∷ ops) d =
      let w = edit_op_state document op in
      elim (Result-cases (edit_op lib document op)) [
        | inl (e, q) ↦ ground (arith, w, q)
        | inr (next, q) ↦
            let ih = check_ops-edit_ops next ops d.1 in
            let c = check_ops-edit_op document op next ops q d.0 in ground (arith, w, q, ih, c)
      ]

  -- An edit succeeds exactly when the operations are valid and each of them finds a line that it
  -- can judge in the file as it was read, which is what the preview checks; otherwise it gives the
  -- preview's error.
  pub edit_rejected :
      (bytes : List ℕ) (ops : List HostsLineOp)
      → (edit lib bytes ops >>= λ _. ok tt)
        ≡ (validated_ops ops >> check_ops lib (parse_document bytes) ops)
  unfolding edit validated_ops validate
  edit_rejected bytes ops = elim (Result-cases (validate_hosts ops)) [
    | inl (e, q) ↦ ground (arith, q)
    | inr (_, q) ↦
        let c = check_ops-edit_ops (parse_document bytes) ops (validated_distinct ops q) in
        ground (arith, q, c)
  ]

  check_pending :
      (document : HostsDocument) (ops : List HostsLineOp)
      → All (HasWork lib document) ops
      → check_ops lib document ops ≡ ok tt
  unfolding check_ops
  check_pending document [] a = refl
  check_pending document (op ∷ ops) a =
      let ih = check_pending document ops a.1 in ground (arith, a.0, ih)

  edit_ops_ok :
      (document : HostsDocument) (ops : List HostsLineOp)
      → AllDistinct (op_lines ops)
      → All (HasWork lib document) ops
      → (document' : HostsDocument) × (edit_ops lib document ops ≡ ok document')
  edit_ops_ok document ops d a = elim (Result-cases (edit_ops lib document ops)) [
    | inl (e, q) ↦
        let c = check_ops-edit_ops document ops d in
        let k = check_pending document ops a in ground (arith, q, c, k)
    | inr found ↦ found
  ]

  edit_ok :
      (bytes : List ℕ) (ops : List HostsLineOp) (document : HostsDocument)
      → validate_hosts ops ≡ ok tt
      → edit_ops lib (parse_document bytes) ops ≡ ok document
      → edit lib bytes ops ≡ ok (to_bytes document)
  unfolding edit validated_ops validate
  edit_ok bytes ops document v e = ground (arith, v, e)

  edit_ok_inv :
      (bytes : List ℕ) (ops : List HostsLineOp) (updated : List ℕ)
      → edit lib bytes ops ≡ ok updated
      → (validate_hosts ops ≡ ok tt)
        × ((document : HostsDocument) × ((edit_ops lib (parse_document bytes) ops ≡ ok document)
              × (to_bytes document ≡ updated)))
  unfolding edit validated_ops validate
  edit_ok_inv bytes ops updated h = elim (Result-cases (edit_ops lib (parse_document bytes) ops)) [
    | inl (e, q) ↦ ground (arith, h, q)
    | inr (document, q) ↦ elim (Result-cases (validate_hosts ops)) [
      | inl (e, w) ↦ ground (arith, h, w)
      | inr (_, w) ↦ (w, (document, (q, ground (arith, h, q, w))))
    ]
  ]

  module _ (no_bom_address : (bs : List ℕ) → lib.parse_ip (0xef ∷ bs) ≡ none) where
    parse_edited :
        (bytes : List ℕ) (ops : List HostsLineOp) (document : HostsDocument)
        → edit_ops lib (parse_document bytes) ops ≡ ok document
        → parse_document (to_bytes document) ≡ document
    parse_edited bytes ops document e = parse_document-to_bytes document (
        edit_ops-IsCanonical lib no_bom_address (parse_document bytes) ops document
          (parse_document-IsCanonical bytes) e)

    -- If every operation of a valid edit has something to do, then the edit succeeds, the contract
    -- gives the edit an inverse, and applying this inverse to the edited bytes restores the
    -- original bytes, provided that no text that begins with the first byte of the byte order mark
    -- is an address.
    pub edit_restored :
        (bytes : List ℕ) (ops : List HostsLineOp) (sha256 : Sha256Digest)
        → validate_hosts ops ≡ ok tt
        → All (HasWork lib (parse_document bytes)) ops
        → (updated : List ℕ) × ((edit lib bytes ops ≡ ok updated)
            × ((undo : SystemChange) × ((inverse (edit_hosts ops) (hosts_file sha256)
                    ≡ ok (some undo))
                  × ((ops_of undo >>= edit lib updated) ≡ ok bytes))))
    unfolding inverse ops_of
    edit_restored bytes ops sha256 v a =
        let d = validated_distinct ops v in
        let (document, e) = edit_ops_ok (parse_document bytes) ops d a in
        let back = edit_ops_back lib no_bom_address (parse_document bytes) ops document d a e in
        let same = parse_edited bytes ops document e in
        (
          to_bytes document,
          (
            edit_ok bytes ops document v e,
            (
              edit_hosts (map inverse_op ops),
              (
                refl,
                edit_ok (to_bytes document) (map inverse_op ops) (parse_document bytes)
                      (validate_hosts-inverse_ops ops ∙ v)
                      (ap (λ x. edit_ops lib x (map inverse_op ops)) same ∙ back)
                    ∙ ap ok (to_bytes-parse_document bytes),
              ),
            ),
          ),
        )

    edit_op-done :
        (document : HostsDocument) (op : HostsLineOp) (document' : HostsDocument)
        → edit_op lib document op ≡ ok document'
        → op_state lib document' op ≡ ok true
    unfolding op_state classify
    edit_op-done document op document' h = elim (edit_op_cases lib document op document' h) [
      | inl (q, e) ↦ subst (λ x. op_state lib x op ≡ ok true) e q
      | inr (raw, (g, (s, e))) ↦
          let changed = changed_line op.action op.line raw in
          let now = get_elem?-set document.lines op.line raw changed g in
          let (c, _) = changed_line_back lib no_bom_address op.action op.line raw s in
          let t = state_of_inverse op.action (classify_line lib op.line changed) c in
          subst (λ x. op_state lib x op ≡ ok true) e (ground (arith, now, t))
    ]

    edit_ops-done :
        (document : HostsDocument) (ops : List HostsLineOp) (document' : HostsDocument)
        → AllDistinct (op_lines ops)
        → edit_ops lib document ops ≡ ok document'
        → All (λ op. op_state lib document' op ≡ ok true) ops
    unfolding edit_ops
    edit_ops-done document [] document' d h = tt
    edit_ops-done document (op ∷ ops) document' d h =
        elim (Result-cases (edit_op lib document op)) [
          | inl (e, q) ↦ ground (arith, h, q)
          | inr (next, q) ↦
              let rest = sym (ap (λ x. x >>= λ y. edit_ops lib y ops) q) ∙ h in
              let g = edit_ops-get_elem? lib next op.line ops document' d.0 rest in
              (
                op_state-get_elem? next document' op g ∙ edit_op-done document op next q,
                edit_ops-done next ops document' d.1 rest,
              )
        ]

    -- If an edit succeeds, then in the edited bytes every operation is done, and every line that
    -- no operation names is the line that it was, provided that no text that begins with the first
    -- byte of the byte order mark is an address.
    pub edit_settled :
        (bytes : List ℕ) (ops : List HostsLineOp) (updated : List ℕ)
        → edit lib bytes ops ≡ ok updated
        → All (λ op. op_state lib (parse_document updated) op ≡ ok true) ops
          × ((l : ℕ)
              → All (λ k. l ≢ k) (op_lines ops)
              → get_elem? (parse_document updated).lines l
                ≡ get_elem? (parse_document bytes).lines l)
    edit_settled bytes ops updated h =
        let (v, (document, (e, t))) = edit_ok_inv bytes ops updated h in
        let same = ap parse_document (sym t) ∙ parse_edited bytes ops document e in
        let done = edit_ops-done (parse_document bytes) ops document (validated_distinct ops v) e in
        (
          subst (λ x. All (λ op. op_state lib x op ≡ ok true) ops) (sym same) done,
          λ l n.
              ap (λ x. get_elem? x.lines l) same
              ∙ edit_ops-get_elem? lib (parse_document bytes) l ops document n e,
        )
