-- ===== src/HostsFile/RoundTrip.antt =====
-- Reading a hosts file as lines and writing the lines back.
use mathlib.Core.Path.{subst}
use mathlib.Core.List.{append_assoc}
use supa_diska_klinah.Base.{
  ℕ, ◌≡◌, refl, sym, ap, ◌∙◌, Bool, true, false, List, [], ◌∷◌, ◌++◌, Text, arith, All, is_empty,
  split, join, pop, last_piece, lacks, split_cons, join-split, split-join, split-lacks,
  ends_with-split, join-pop, if◌then◌else◌,
}
use supa_diska_klinah.HostsFile.Document.{HostsDocument, newline, parse_document, to_bytes}

-- The document of the pieces between the newlines.
abbrev of_pieces : List Text → HostsDocument
of_pieces pieces = record {
  lines = if is_empty (last_piece pieces) then pop pieces else pieces;
  trailing_newline = is_empty (last_piece pieces);
}

abbrev pub AllLines : List Text → Type 0
AllLines = All (λ line. lacks newline line ≡ true)

parse_document-split :
    (t : Text) → is_empty t ≡ false → parse_document t ≡ of_pieces (split newline t)
unfolding parse_document
parse_document-split [] h = ground arith
parse_document-split (b ∷ bs) h = rw (ends_with-split newline b bs) refl

pieces :
    (t : Text)
    → is_empty t ≡ false
    → (g : Text) × (gs : List Text) × ((parse_document t ≡ of_pieces (g ∷ gs))
        × ((join newline (g ∷ gs) ≡ t) × AllLines (g ∷ gs)))
pieces [] h = ground arith
pieces (b ∷ bs) h =
    let (g, gs, p) = split_cons newline (b ∷ bs) in
    (
      g,
      gs,
      (
        parse_document-split (b ∷ bs) h ∙ ap of_pieces p,
        (
          sym (ap (join newline) p) ∙ join-split newline (b ∷ bs),
          subst AllLines p (split-lacks newline (b ∷ bs)),
        ),
      ),
    )

to_bytes-of_pieces :
    (x : Text) (gs : List Text)
    → is_empty (join newline (x ∷ gs)) ≡ false
    → to_bytes (of_pieces (x ∷ gs)) ≡ join newline (x ∷ gs)
unfolding to_bytes
to_bytes-of_pieces x [] h = ground arith
to_bytes-of_pieces x (y ∷ ys) h = ground (arith, join-pop newline x y ys)

-- Whatever the bytes are, the document that is parsed from them is written back as the same bytes.
pub to_bytes-parse_document : (bytes : List ℕ) → to_bytes (parse_document bytes) ≡ bytes
unfolding to_bytes parse_document
to_bytes-parse_document [] = refl
to_bytes-parse_document (b ∷ bs) =
    let (g, gs, (p, (j, _))) = pieces (b ∷ bs) refl in
    ap to_bytes p ∙ to_bytes-of_pieces g gs (ap is_empty j) ∙ j

-- No line has a newline in it, a document without lines has no newline at its end, and the last
-- line of a document without one is not empty.
abbrev pub IsCanonical : HostsDocument → Type 0
IsCanonical document =
    AllLines document.lines
    × ((is_empty document.lines ≡ true → document.trailing_newline ≡ false)
        × (document.trailing_newline ≡ false
            → is_empty document.lines ≡ false
            → is_empty (last_piece document.lines) ≡ false))

AllLines-pop : (gs : List Text) → AllLines gs → AllLines (pop gs)
AllLines-pop [] a = tt
AllLines-pop (x ∷ []) a = tt
AllLines-pop (x ∷ y ∷ ys) a = (a.0, AllLines-pop (y ∷ ys) a.1)

of_pieces-IsCanonical :
    (x : Text) (gs : List Text)
    → AllLines (x ∷ gs)
    → is_empty (join newline (x ∷ gs)) ≡ false
    → IsCanonical (of_pieces (x ∷ gs))
of_pieces-IsCanonical x [] a h = ground arith
of_pieces-IsCanonical x (y ∷ ys) a h = ground (arith, AllLines-pop (x ∷ y ∷ ys) a)

pub parse_document-IsCanonical : (bytes : List ℕ) → IsCanonical (parse_document bytes)
unfolding parse_document
parse_document-IsCanonical [] = ground arith
parse_document-IsCanonical (b ∷ bs) =
    let (g, gs, (p, (j, a))) = pieces (b ∷ bs) refl in
    subst IsCanonical (sym p) (of_pieces-IsCanonical g gs a (ap is_empty j))

join-last_piece :
    (x : Text) (gs : List Text)
    → is_empty (last_piece (x ∷ gs)) ≡ false
    → is_empty (join newline (x ∷ gs)) ≡ false
join-last_piece x [] h = h
join-last_piece [] (y ∷ ys) h = refl
join-last_piece (b ∷ x) (y ∷ ys) h = refl

-- a newline at the end is one more, empty piece
join-snoc :
    (x : Text) (gs : List Text)
    → join newline (x ∷ gs) ++ newline ∷ [] ≡ join newline (x ∷ (gs ++ [] ∷ []))
join-snoc x [] = refl
join-snoc x (y ∷ ys) =
    append_assoc x (newline ∷ join newline (y ∷ ys)) (newline ∷ [])
    ∙ ap (λ t. x ++ newline ∷ t) (join-snoc y ys)

AllLines-snoc : (gs : List Text) → AllLines gs → AllLines (gs ++ [] ∷ [])
AllLines-snoc [] a = (refl, tt)
AllLines-snoc (x ∷ gs) a = (a.0, AllLines-snoc gs a.1)

of_pieces-snoc :
    (x : Text) (gs : List Text)
    → of_pieces (x ∷ (gs ++ [] ∷ [])) ≡ record { lines = x ∷ gs; trailing_newline = true }
of_pieces-snoc x [] = refl
of_pieces-snoc x (y ∷ ys) = let ih = of_pieces-snoc y ys in ground (arith, ih)

is_empty-snoc : (x : Text) (c : ℕ) → is_empty (x ++ c ∷ []) ≡ false
is_empty-snoc [] c = refl
is_empty-snoc (b ∷ x) c = refl

no_bytes : parse_document [] ≡ record { lines = []; trailing_newline = false }
unfolding parse_document
no_bytes = refl

written :
    (lines : List Text) (trailing : Bool)
    → IsCanonical (record { lines = lines; trailing_newline = trailing })
    → parse_document (to_bytes (record { lines = lines; trailing_newline = trailing }))
      ≡ record { lines = lines; trailing_newline = trailing }
unfolding to_bytes
written [] false c = no_bytes
written [] true c = let e = c.1.0 refl in ground arith
written (x ∷ gs) false c =
    parse_document-split (join newline (x ∷ gs)) (join-last_piece x gs (c.1.1 refl refl))
    ∙ ap of_pieces (split-join newline x gs c.0)
    ∙ ground (arith, c.1.1 refl refl)
written (x ∷ gs) true c =
    ap parse_document (join-snoc x gs)
    ∙ parse_document-split (join newline (x ∷ (gs ++ [] ∷ [])))
        (ap is_empty (sym (join-snoc x gs)) ∙ is_empty-snoc (join newline (x ∷ gs)) newline)
    ∙ ap of_pieces (split-join newline x (gs ++ [] ∷ []) (AllLines-snoc (x ∷ gs) c.0))
    ∙ of_pieces-snoc x gs

-- If no line of a document has a newline in it, the document has no newline at its end where it
-- has no lines, and the last line is not empty where it has no newline at its end, then parsing
-- the bytes it is written as gives the document.
pub parse_document-to_bytes :
    (document : HostsDocument)
    → IsCanonical document
    → parse_document (to_bytes document) ≡ document
parse_document-to_bytes document c = written document.lines document.trailing_newline c
