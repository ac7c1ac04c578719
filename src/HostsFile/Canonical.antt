-- ===== src/HostsFile/Canonical.antt =====
-- Edited lines have no newline in them and are not empty, so that an edited file is read back as it
-- was edited.
use mathlib.Core.Path.{subst}
use supa_diska_klinah.Base.{
  skip, ℕ, zero, suc, ◌+◌, ◌≡◌, refl, sym, ap, ◌∙◌, Bool, true, false, none, some, List, [], ◌∷◌,
  ◌++◌, Text, arith, ok, ◌>>=◌, is_empty, get_elem?, set, take, lacks, last_piece, Result-cases,
  inl, inr, length,
}
use supa_diska_klinah.Contract.Types.{HostsLineOp, HostsLineAction, disable, restore_line}
use supa_diska_klinah.Contract.Changes.{inverse_action}
use supa_diska_klinah.HostsFile.Document.{
  HostsLibrary, HostsDocument, blank, newline, disabled_prefix, classify_line, body_offset,
  trim_ascii, trim_start, trim_end, starts_with,
}
use supa_diska_klinah.HostsFile.Edit.{changed_line, state_of, edit_op, edit_ops}
use supa_diska_klinah.HostsFile.RoundTrip.{AllLines, IsCanonical}
use supa_diska_klinah.HostsFile.Restoring.{put, edit_op_cases, ok_injective, changed_line_back}

AllLines-set :
    (xs : List Text) (l : ℕ) (raw : Text)
    → AllLines xs
    → lacks newline raw ≡ true
    → AllLines (set xs l raw)
AllLines-set [] l raw a h = tt
AllLines-set (x ∷ xs) zero raw a h = (h, a.1)
AllLines-set (x ∷ xs) (suc l) raw a h = (a.0, AllLines-set xs l raw a.1 h)

AllLines-get_elem? :
    (xs : List Text) (l : ℕ) (raw : Text)
    → AllLines xs
    → get_elem? xs l ≡ some raw
    → lacks newline raw ≡ true
AllLines-get_elem? [] l raw a h = ground (arith, h)
AllLines-get_elem? (x ∷ xs) zero raw a h = ground (arith, a, h)
AllLines-get_elem? (x ∷ xs) (suc l) raw a h = AllLines-get_elem? xs l raw a.1 h

last_piece-set :
    (xs : List Text) (l : ℕ) (raw : Text)
    → is_empty raw ≡ false
    → is_empty (last_piece xs) ≡ false
    → is_empty (last_piece (set xs l raw)) ≡ false
last_piece-set [] l raw h n = n
last_piece-set (x ∷ []) zero raw h n = h
last_piece-set (x ∷ []) (suc l) raw h n = n
last_piece-set (x ∷ y ∷ ys) zero raw h n = n
last_piece-set (x ∷ y ∷ ys) (suc zero) raw h n = last_piece-set (y ∷ ys) zero raw h n
last_piece-set (x ∷ y ∷ ys) (suc (suc l)) raw h n = last_piece-set (y ∷ ys) (suc l) raw h n

is_empty-set : (xs : List Text) (l : ℕ) (raw : Text) → is_empty (set xs l raw) ≡ is_empty xs
is_empty-set [] l raw = refl
is_empty-set (x ∷ xs) zero raw = refl
is_empty-set (x ∷ xs) (suc l) raw = refl

lacks-append :
    (xs ys : Text)
    → lacks newline xs ≡ true
    → lacks newline ys ≡ true
    → lacks newline (xs ++ ys) ≡ true
lacks-append [] ys h k = k
lacks-append (x ∷ xs) ys h k = let ih = lacks-append xs ys in ground (arith, h, k)

lacks-take : (n : ℕ) (xs : Text) → lacks newline xs ≡ true → lacks newline (take n xs) ≡ true
lacks-take zero xs h = refl
lacks-take (suc n) [] h = refl
lacks-take (suc n) (x ∷ xs) h = let ih = lacks-take n xs in ground (arith, h)

lacks-skip : (n : ℕ) (xs : Text) → lacks newline xs ≡ true → lacks newline (skip n xs) ≡ true
lacks-skip zero xs h = h
lacks-skip (suc n) [] h = refl
lacks-skip (suc n) (x ∷ xs) h = let ih = lacks-skip n xs in ground (arith, h)

changed_line-lacks :
    (action : HostsLineAction) (l : ℕ) (raw : Text)
    → lacks newline raw ≡ true
    → lacks newline (changed_line action l raw) ≡ true
unfolding changed_line
changed_line-lacks disable l raw h =
    let offset = body_offset l raw in
    lacks-append (take offset raw) (disabled_prefix ++ skip offset raw) (lacks-take offset raw h)
      (lacks-append disabled_prefix (skip offset raw) refl (lacks-skip offset raw h))
changed_line-lacks restore_line l raw h =
    let offset = body_offset l raw in
    lacks-append (take offset raw) (skip (offset + length disabled_prefix) raw)
      (lacks-take offset raw h) (lacks-skip (offset + length disabled_prefix) raw h)

module _ (lib : HostsLibrary) where
  empty_line : (l : ℕ) → classify_line lib l [] ≡ blank
  unfolding classify_line body_offset starts_with trim_ascii trim_start trim_end
  empty_line zero = refl
  empty_line (suc l) = ground arith

  -- an empty line has no state
  state_of-empty :
      (action : HostsLineAction) (l : ℕ) (raw : Text) (done : Bool)
      → state_of action (classify_line lib l raw) ≡ ok done
      → is_empty raw ≡ false
  unfolding state_of
  state_of-empty disable l [] done h = let e = empty_line l in ground (arith, h, e)
  state_of-empty restore_line l [] done h = let e = empty_line l in ground (arith, h, e)
  state_of-empty action l (b ∷ raw) done h = refl

  module _ (no_bom_address : (bs : List ℕ) → lib.parse_ip (0xef ∷ bs) ≡ none) where
    pub put-IsCanonical :
        (document : HostsDocument) (op : HostsLineOp) (raw : Text)
        → IsCanonical document
        → get_elem? document.lines op.line ≡ some raw
        → state_of op.action (classify_line lib op.line raw) ≡ ok false
        → IsCanonical (put document op.line (changed_line op.action op.line raw))
    put-IsCanonical document op raw c g s =
        let changed = changed_line op.action op.line raw in
        let (now, _) = changed_line_back lib no_bom_address op.action op.line raw s in
        let full = state_of-empty (inverse_action op.action) op.line changed false now in
        let l =
          changed_line-lacks op.action op.line raw
            (AllLines-get_elem? document.lines op.line raw c.0 g) in
        let lines = AllLines-set document.lines op.line changed c.0 l in
        let e = is_empty-set document.lines op.line changed in
        let w = last_piece-set document.lines op.line changed full in
        (lines, ((λ z. c.1.0 (sym e ∙ z)), (λ t z. w (c.1.1 t (sym e ∙ z)))))

    edit_op-IsCanonical :
        (document : HostsDocument) (op : HostsLineOp) (document' : HostsDocument)
        → IsCanonical document
        → edit_op lib document op ≡ ok document'
        → IsCanonical document'
    edit_op-IsCanonical document op document' c h =
        elim (edit_op_cases lib document op document' h) [
          | inl (_, e) ↦ subst IsCanonical e c
          | inr (raw, (g, (s, e))) ↦ subst IsCanonical e (put-IsCanonical document op raw c g s)
        ]

    pub edit_ops-IsCanonical :
        (document : HostsDocument) (ops : List HostsLineOp) (document' : HostsDocument)
        → IsCanonical document
        → edit_ops lib document ops ≡ ok document'
        → IsCanonical document'
    unfolding edit_ops
    edit_ops-IsCanonical document [] document' c h = subst IsCanonical (ok_injective h) c
    edit_ops-IsCanonical document (op ∷ ops) document' c h =
        elim (Result-cases (edit_op lib document op)) [
          | inl (e, q) ↦ ground (arith, h, q)
          | inr (next, q) ↦
              edit_ops-IsCanonical next ops document' (edit_op-IsCanonical document op next c q)
                (sym (ap (λ x. x >>= λ y. edit_ops lib y ops) q) ∙ h)
        ]
