-- ===== src/HostsFile/Restoring.antt =====
-- The edit of a hosts file and the edit that takes it back.
use mathlib.Core.Path.{subst}
use supa_diska_klinah.Base.{
  ◌⊎◌, get_elem?-set, get_elem?-set_other, set_twice, set_same, set_swap, Option-cases,
  Result-cases, inl, inr, ℕ, ◌≡◌, refl, sym, ap, ◌∙◌, true, false, none, some, List, [], ◌∷◌, map,
  arith, ok, ◌>>=◌, All, get_elem?, set, ◌≢◌, Result,
}
use supa_diska_klinah.Contract.Types.{HostsLineOp, HostsLineAction, disable, restore_line}
use supa_diska_klinah.Contract.Changes.{op_lines, inverse_op, inverse_action}
use supa_diska_klinah.Contract.Inverse.{op_lines-inverse_ops}
use supa_diska_klinah.Contract.HostsEdit.{AllDistinct}
use supa_diska_klinah.Service.Types.{AdapterError}
use supa_diska_klinah.HostsFile.Document.{
  HostsLibrary, HostsDocument, HostsLine, mapping, app_disabled, classify, classify_line,
}
use supa_diska_klinah.HostsFile.Edit.{changed_line, op_state, state_of, edit_op, edit_ops}
use supa_diska_klinah.HostsFile.Lines.{disable_line, restore_line_lem}

-- The document with another line.
abbrev pub put : HostsDocument → ℕ → List ℕ → HostsDocument
put document l raw = record document { lines = set document.lines l raw }

pub ok_injective :
    {d e : HostsDocument} → Path (Result AdapterError HostsDocument) (ok d) (ok e) → d ≡ e
ok_injective h = ground (arith, h)

module _ (lib : HostsLibrary) where
  -- The line is there, and the operation has something to do on it.
  abbrev pub HasWork : HostsDocument → HostsLineOp → Type 0
  HasWork document op = op_state lib document op ≡ ok false

  pub pending_line :
      (document : HostsDocument) (op : HostsLineOp)
      → HasWork document op
      → (raw : List ℕ) × ((get_elem? document.lines op.line ≡ some raw)
          × (state_of op.action (classify_line lib op.line raw) ≡ ok false))
  unfolding op_state classify
  pending_line document op h = elim (Option-cases (get_elem? document.lines op.line)) [
    | inl e ↦ ground (arith, h, e)
    | inr (raw, e) ↦ (raw, (e, ground (arith, h, e)))
  ]

  pub edit_op_pending :
      (document : HostsDocument) (op : HostsLineOp) (raw : List ℕ)
      → get_elem? document.lines op.line ≡ some raw
      → state_of op.action (classify_line lib op.line raw) ≡ ok false
      → edit_op lib document op ≡ ok (put document op.line (changed_line op.action op.line raw))
  unfolding edit_op op_state classify
  edit_op_pending document op raw g s = ground (arith, g, s)

  -- The change that an operation makes to a document, on a line where it has something to do.
  abbrev pub Changes : HostsDocument → HostsLineOp → HostsDocument → Type 0
  Changes document op document' =
      (raw : List ℕ) × ((get_elem? document.lines op.line ≡ some raw)
        × ((state_of op.action (classify_line lib op.line raw) ≡ ok false)
            × (put document op.line (changed_line op.action op.line raw) ≡ document')))

  pub edit_op_cases :
      (document : HostsDocument) (op : HostsLineOp) (document' : HostsDocument)
      → edit_op lib document op ≡ ok document'
      → ((op_state lib document op ≡ ok true) × (document ≡ document'))
        ⊎ Changes document op document'
  unfolding edit_op
  edit_op_cases document op document' h = elim (Result-cases (op_state lib document op)) [
    | inl (e, q) ↦ ground (arith, h, q)
    | inr (true, q) ↦ inl (q, ground (arith, h, q))
    | inr (false, q) ↦
        let (raw, (g, s)) = pending_line document op q in
        let p = edit_op_pending document op raw g s in inr (raw, (g, (s, ok_injective (sym p ∙ h))))
  ]

  -- an operation on another line does not see this one
  edit_op_other :
      (document : HostsDocument) (l : ℕ) (raw : List ℕ) (op : HostsLineOp)
      (document' : HostsDocument)
      → l ≢ op.line
      → edit_op lib document op ≡ ok document'
      → edit_op lib (put document l raw) op ≡ ok (put document' l raw)
  unfolding edit_op op_state classify
  edit_op_other document l raw op document' n h =
      elim (Option-cases (get_elem? document.lines op.line)) [
        | inl e ↦ ground (arith, h, e)
        | inr (old, e) ↦
            let g = get_elem?-set_other document.lines l op.line raw n in
            let w = set_swap document.lines l op.line raw (changed_line op.action op.line old) n in
            ground (arith, h, e, g, w)
      ]

  edit_ops_other :
      (document : HostsDocument) (l : ℕ) (raw : List ℕ) (ops : List HostsLineOp)
      (document' : HostsDocument)
      → All (λ k. l ≢ k) (op_lines ops)
      → edit_ops lib document ops ≡ ok document'
      → edit_ops lib (put document l raw) ops ≡ ok (put document' l raw)
  unfolding edit_ops
  edit_ops_other document l raw [] document' n h = ground (arith, h)
  edit_ops_other document l raw (op ∷ ops) document' n h =
      elim (Result-cases (edit_op lib document op)) [
        | inl (e, q) ↦ ground (arith, h, q)
        | inr (next, q) ↦
            let s = edit_op_other document l raw op next n.0 q in
            let rest = edit_ops_other next l raw ops document' n.1 in ground (arith, h, q, s, rest)
      ]

  pub edit_op-get_elem? :
      (document : HostsDocument) (l : ℕ) (op : HostsLineOp) (document' : HostsDocument)
      → l ≢ op.line
      → edit_op lib document op ≡ ok document'
      → get_elem? document'.lines l ≡ get_elem? document.lines l
  unfolding edit_op
  edit_op-get_elem? document l op document' n h =
      elim (Option-cases (get_elem? document.lines op.line)) [
        | inl e ↦ ground (arith, h, e)
        | inr (old, e) ↦
            let g =
              get_elem?-set_other document.lines op.line l (changed_line op.action op.line old)
                (λ q. n (sym q)) in
            ground (arith, h, e, g)
      ]

  -- lines that no operation names stay
  pub edit_ops-get_elem? :
      (document : HostsDocument) (l : ℕ) (ops : List HostsLineOp) (document' : HostsDocument)
      → All (λ k. l ≢ k) (op_lines ops)
      → edit_ops lib document ops ≡ ok document'
      → get_elem? document'.lines l ≡ get_elem? document.lines l
  unfolding edit_ops
  edit_ops-get_elem? document l [] document' n h = ground (arith, h)
  edit_ops-get_elem? document l (op ∷ ops) document' n h =
      elim (Result-cases (edit_op lib document op)) [
        | inl (e, q) ↦ ground (arith, h, q)
        | inr (next, q) ↦
            let g = edit_op-get_elem? document l op next n.0 q in
            let rest = edit_ops-get_elem? next l ops document' n.1 in ground (arith, h, q, g, rest)
      ]

  pub pending_other :
      (document : HostsDocument) (l : ℕ) (raw : List ℕ) (op : HostsLineOp)
      → l ≢ op.line
      → HasWork document op
      → HasWork (put document l raw) op
  unfolding op_state classify
  pending_other document l raw op n h =
      let g = get_elem?-set_other document.lines l op.line raw n in ground (arith, h, g)

  pub All-HasWork_other :
      (document : HostsDocument) (l : ℕ) (raw : List ℕ) (ops : List HostsLineOp)
      → All (λ k. l ≢ k) (op_lines ops)
      → All (HasWork document) ops
      → All (HasWork (put document l raw)) ops
  All-HasWork_other document l raw [] n a = tt
  All-HasWork_other document l raw (op ∷ ops) n a =
      (pending_other document l raw op n.0 a.0, All-HasWork_other document l raw ops n.1 a.1)

  pending_disable :
      (line : HostsLine lib.IpAddr)
      → state_of disable line ≡ ok false
      → (ip : lib.IpAddr) × ((hostnames : List (List ℕ)) × (line ≡ mapping ip hostnames))
  unfolding state_of
  pending_disable (mapping ip hostnames) h = (ip, (hostnames, refl))
  pending_disable line h = ground (arith, h)

  pending_restore :
      (line : HostsLine lib.IpAddr)
      → state_of restore_line line ≡ ok false
      → (ip : lib.IpAddr) × ((hostnames : List (List ℕ)) × (line ≡ app_disabled ip hostnames))
  unfolding state_of
  pending_restore (app_disabled ip hostnames) h = (ip, (hostnames, refl))
  pending_restore line h = ground (arith, h)

  put_back :
      (document : HostsDocument) (l : ℕ) (raw changed : List ℕ)
      → get_elem? document.lines l ≡ some raw
      → put (put document l changed) l raw ≡ document
  put_back document l raw changed g =
      let t = set_twice document.lines l changed raw in
      let u = set_same document.lines l raw g in ground (arith, t, u)

  module _ (no_bom_address : (bs : List ℕ) → lib.parse_ip (0xef ∷ bs) ≡ none) where
    -- the changed line is in the other state, and changing it back gives the line
    pub changed_line_back :
        (action : HostsLineAction) (l : ℕ) (raw : List ℕ)
        → state_of action (classify_line lib l raw) ≡ ok false
        → (state_of (inverse_action action) (classify_line lib l (changed_line action l raw))
            ≡ ok false)
          × (changed_line (inverse_action action) l (changed_line action l raw) ≡ raw)
    unfolding state_of inverse_action
    changed_line_back disable l raw h =
        let (ip, (hostnames, m)) = pending_disable (classify_line lib l raw) h in
        let (c, b) = disable_line lib l raw ip hostnames m in (ap (state_of restore_line) c, b)
    changed_line_back restore_line l raw h =
        let (ip, (hostnames, m)) = pending_restore (classify_line lib l raw) h in
        let (c, b) = restore_line_lem lib no_bom_address l raw ip hostnames m in
        (ap (state_of disable) c, b)

    pub edit_ops_back :
        (document : HostsDocument) (ops : List HostsLineOp) (document' : HostsDocument)
        → AllDistinct (op_lines ops)
        → All (HasWork document) ops
        → edit_ops lib document ops ≡ ok document'
        → edit_ops lib document' (map inverse_op ops) ≡ ok document
    unfolding edit_ops
    edit_ops_back document [] document' d a h = ground (arith, h)
    edit_ops_back document (op ∷ ops) document' d a h =
        let (raw, (g, s)) = pending_line document op a.0 in
        let changed = changed_line op.action op.line raw in
        let next = put document op.line changed in
        let q = edit_op_pending document op raw g s in
        let r =
          edit_ops_back next ops document' d.1
            (All-HasWork_other document op.line changed ops d.0 a.1) in
        let kept = edit_ops-get_elem? next op.line ops document' d.0 in
        let now = get_elem?-set document.lines op.line raw changed g in
        let h' = sym (ap (λ x. x >>= λ y. edit_ops lib y ops) q) ∙ h in
        let (c, b) = changed_line_back op.action op.line raw s in
        let e1 = edit_op_pending document' (inverse_op op) changed (kept h' ∙ now) c in
        let e2 =
          edit_ops_other document' op.line raw (map inverse_op ops) next
            (subst (All (λ k. op.line ≢ k)) (sym (op_lines-inverse_ops ops)) d.0) (r h') in
        let e3 = put_back document op.line raw changed g in
        ap (λ x. x >>= λ y. edit_ops lib y (map inverse_op ops)) e1
        ∙ ap (λ t. edit_ops lib (put document' op.line t) (map inverse_op ops)) b
        ∙ e2
        ∙ ap ok e3
