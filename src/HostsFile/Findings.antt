-- ===== src/HostsFile/Findings.antt =====
-- The findings on a hosts file, against the findings of all its lines.
use mathlib.Core.List.{append_assoc, append-nil}
use supa_diska_klinah.Base.{
  ℕ, suc, zero, ◌≡◌, refl, sym, ap, ◌∙◌, true, List, [], ◌∷◌, ◌++◌, length, take, leb, arith,
  Bool-cases, inl, inr,
}
use supa_diska_klinah.HostsFile.Document.{HostsLibrary, HostsDocument, classify_line}
use supa_diska_klinah.HostsFile.Report.{
  HostsFinding, max_findings, line_findings, findings_loop, findings,
}

take_enough :
    (n : ℕ) (xs ys : List HostsFinding) → leb n (length xs) ≡ true → take n xs ≡ take n (xs ++ ys)
take_enough zero xs ys h = refl
take_enough (suc n) [] ys h = ground (arith, h)
take_enough (suc n) (x ∷ xs) ys h = ap (λ t. x ∷ t) (take_enough n xs ys (ground (arith, h)))

module _ (lib : HostsLibrary) where
  -- The findings of all lines, with no limit.
  unfoldable pub all_findings : ℕ → List (List ℕ) → List HostsFinding
  all_findings index [] = []
  all_findings index (raw ∷ lines) =
      line_findings lib index (classify_line lib index raw) ++ all_findings (suc index) lines

  -- whether the loop stops early or not, the first findings are the same
  findings_loop_lem :
      (lines : List (List ℕ)) (index : ℕ) (found : List HostsFinding)
      → take max_findings (findings_loop lib lines index found)
        ≡ take max_findings (found ++ all_findings index lines)
  unfolding findings_loop all_findings
  findings_loop_lem [] index found = ap (take max_findings) (sym (append-nil found))
  findings_loop_lem (raw ∷ lines) index found =
      let new = line_findings lib index (classify_line lib index raw) in
      elim (Bool-cases (leb max_findings (length found))) [
        | inl e ↦ rw e (take_enough max_findings found (new ++ all_findings (suc index) lines) e)
        | inr e ↦ rw e (
            findings_loop_lem lines (suc index) (found ++ new)
            ∙ ap (take max_findings) (append_assoc found new (all_findings (suc index) lines)))
      ]

  -- The findings are the first 1000 of the findings of all lines in order: the loop that stops
  -- early loses none of them.
  pub findings_lem :
      (document : HostsDocument)
      → findings lib document ≡ take max_findings (all_findings 0 document.lines)
  unfolding findings
  findings_lem document = findings_loop_lem document.lines 0 []
