-- ===== src/HostsFile/Lines.antt =====
-- One line of the hosts file, commented out and put back.
use mathlib.Core.Path.{subst}
use supa_diska_klinah.Base.{
  skip, ℕ, zero, suc, ◌≡◌, refl, sym, true, false, Option, none, some, List, [], ◌∷◌, ◌++◌, Text,
  arith, Bool-cases, inl, inr, ◌⊎◌, strip_prefix, ◌==◌,
}
use supa_diska_klinah.Contract.Types.{disable, restore_line}
use supa_diska_klinah.HostsFile.Document.{
  HostsLibrary, mapping, app_disabled, starts_with, utf8_bom, disabled_prefix, body_offset,
  is_space, trim_start, trim_end, trim_ascii, before_hash, words, parse_mapping, classify_plain,
  classify_stripped, classify_line,
}
use supa_diska_klinah.HostsFile.Edit.{changed_line}

-- The first byte of what is left of a line decides whether the line has a word before a `#`.
trim_start_cases :
    (bs : List ℕ)
    → ((trim_start bs ≡ []) × (words (before_hash bs) ≡ []))
      ⊎ ((b : ℕ) × (cs : List ℕ) × ((trim_start bs ≡ b ∷ cs)
            × ((is_space b ≡ false) × ((b == b'#') ≡ true → words (before_hash bs) ≡ []))))
unfolding trim_start words before_hash
trim_start_cases [] = inl (refl, refl)
trim_start_cases (b ∷ bs) = elim (Bool-cases (is_space b)) [
  | inl e ↦ let ih = trim_start_cases bs in ground arith
  | inr e ↦ inr (b, bs, (ground arith, (e, ground arith)))
]

trim_end_head :
    (b : ℕ) (cs : List ℕ) → is_space b ≡ false → (ds : List ℕ) × (trim_end (b ∷ cs) ≡ b ∷ ds)
unfolding trim_end
trim_end_head b cs h = (trim_end cs, ground arith)

strip_prefix-some : (p t r : Text) → strip_prefix p t ≡ some r → t ≡ p ++ r
strip_prefix-some [] t r h = ground arith
strip_prefix-some (c ∷ p) [] r h = ground arith
strip_prefix-some (c ∷ p) (d ∷ t) r h = let ih = strip_prefix-some p t r in ground arith

strip_prefix_cases :
    (p t : Text)
    → (strip_prefix p t ≡ none) ⊎ ((r : Text) × ((strip_prefix p t ≡ some r) × (t ≡ p ++ r)))
strip_prefix_cases p t = option_cases (strip_prefix p t) refl
  where
    option_cases :
        (o : Option Text)
        → strip_prefix p t ≡ o
        → (strip_prefix p t ≡ none) ⊎ ((r : Text) × ((strip_prefix p t ≡ some r) × (t ≡ p ++ r)))
    option_cases none e = inl e
    option_cases (some r) e = inr (r, (e, strip_prefix-some p t r e))

abbrev bom_line : List ℕ → List ℕ
bom_line body = utf8_bom ++ body

body_offset_cases :
    (l : ℕ) (raw : List ℕ)
    → (body_offset l raw ≡ 0) ⊎ ((l ≡ 0) × ((body : List ℕ) × (raw ≡ bom_line body)))
unfolding body_offset starts_with
body_offset_cases zero raw = elim (strip_prefix_cases utf8_bom raw) [
  | inl e ↦ inl (ground (arith, e))
  | inr (body, (_, e)) ↦ inr (refl, (body, e))
]
body_offset_cases (suc l) raw = inl (ground arith)

bom_offset : (body : List ℕ) → body_offset 0 (bom_line body) ≡ 3
unfolding body_offset starts_with
bom_offset body = refl

at_bom :
    (P : ℕ → List ℕ → Type 0) (l : ℕ) (raw body : List ℕ)
    → l ≡ 0
    → raw ≡ bom_line body
    → P 0 (bom_line body)
    → P l raw
at_bom P l raw body z e p = subst (λ k. P k raw) (sym z) (subst (λ t. P 0 t) (sym e) p)

first_word :
    (b : ℕ) (bs : List ℕ)
    → is_space b ≡ false
    → (g : List ℕ) × ((gs : List (List ℕ)) × (words (b ∷ bs) ≡ (b ∷ g) ∷ gs))
unfolding words
first_word b [] h = ([], ([], ground (arith, h)))
first_word b (c ∷ bs) h = elim (Bool-cases (is_space c)) [
  | inl e ↦ ([], (words (c ∷ bs), ground (arith, h, e)))
  | inr e ↦ let (g, (gs, w)) = first_word c bs e in (c ∷ g, (gs, ground (arith, h, e, w)))
]

prefix_offset : (l : ℕ) (raw : List ℕ) → body_offset l (disabled_prefix ++ raw) ≡ 0
unfolding body_offset starts_with
prefix_offset l raw = ground arith

module _ (lib : HostsLibrary) where
  no_tokens : (bs : List ℕ) → words (before_hash bs) ≡ [] → parse_mapping lib bs ≡ none
  unfolding parse_mapping
  no_tokens bs h = ground (arith, h)

  -- a mapping is neither blank nor a comment
  classify_plain_mapping :
      (bs : List ℕ) (ip : lib.IpAddr) (hostnames : List (List ℕ))
      → parse_mapping lib bs ≡ some (ip, hostnames)
      → classify_plain lib bs ≡ mapping ip hostnames
  unfolding trim_ascii starts_with
  classify_plain_mapping bs ip hostnames h =
      let none_found = no_tokens bs in
      elim (trim_start_cases bs) [
        | inl c ↦ ground (arith, c)
        | inr (b, cs, (t, (sp, hash))) ↦
            let (ds, d) = trim_end_head b cs sp in ground (arith, t, d, hash)
      ]

  mapping_parses :
      (body : List ℕ) (ip : lib.IpAddr) (hostnames : List (List ℕ))
      → classify_stripped lib body (strip_prefix disabled_prefix body) ≡ mapping ip hostnames
      → parse_mapping lib body ≡ some (ip, hostnames)
  mapping_parses body ip hostnames h = ground (arith, h)

  disabled_parses :
      (body : List ℕ) (ip : lib.IpAddr) (hostnames : List (List ℕ))
      → classify_stripped lib body (strip_prefix disabled_prefix body) ≡ app_disabled ip hostnames
      → (rest : List ℕ) × ((body ≡ disabled_prefix ++ rest)
          × (parse_mapping lib rest ≡ some (ip, hostnames)))
  disabled_parses body ip hostnames h = elim (strip_prefix_cases disabled_prefix body) [
    | inl e ↦ ground (arith, h, e)
    | inr (rest, (s, e)) ↦ (rest, (e, ground (arith, h, s)))
  ]

  -- a mapping does not begin like a line that the app disabled
  mapping_unmarked :
      (rest : List ℕ) (ip : lib.IpAddr) (hostnames : List (List ℕ))
      → parse_mapping lib rest ≡ some (ip, hostnames)
      → classify_stripped lib rest (strip_prefix disabled_prefix rest) ≡ mapping ip hostnames
  unfolding words before_hash
  mapping_unmarked rest ip hostnames h = elim (strip_prefix_cases disabled_prefix rest) [
    | inl e ↦ rw e (classify_plain_mapping rest ip hostnames h)
    | inr (r, (_, e)) ↦ let n = no_tokens (disabled_prefix ++ r) refl in ground (arith, h, e, n)
  ]

  abbrev Disabled : ℕ → List ℕ → lib.IpAddr → List (List ℕ) → Type 0
  Disabled l raw ip hostnames =
      (classify_line lib l (changed_line disable l raw) ≡ app_disabled ip hostnames)
      × (changed_line restore_line l (changed_line disable l raw) ≡ raw)

  abbrev Restored : ℕ → List ℕ → lib.IpAddr → List (List ℕ) → Type 0
  Restored l raw ip hostnames =
      (classify_line lib l (changed_line restore_line l raw) ≡ mapping ip hostnames)
      × (changed_line disable l (changed_line restore_line l raw) ≡ raw)

  disable_plain :
      (l : ℕ) (raw : List ℕ) (ip : lib.IpAddr) (hostnames : List (List ℕ))
      → body_offset l raw ≡ 0
      → classify_line lib l raw ≡ mapping ip hostnames
      → Disabled l raw ip hostnames
  unfolding classify_line changed_line
  disable_plain l raw ip hostnames e h =
      let p = prefix_offset l raw in
      let m = mapping_parses raw ip hostnames (
        subst
          (λ o.
            classify_stripped lib (skip o raw) (strip_prefix disabled_prefix (skip o raw))
            ≡ mapping ip hostnames)
          e h) in
      rw (e, p, m) (refl, refl)

  disable_bom :
      (body : List ℕ) (ip : lib.IpAddr) (hostnames : List (List ℕ))
      → classify_line lib 0 (bom_line body) ≡ mapping ip hostnames
      → Disabled 0 (bom_line body) ip hostnames
  unfolding classify_line changed_line
  disable_bom body ip hostnames h = let m = mapping_parses body ip hostnames h in rw m (refl, refl)

  pub disable_line :
      (l : ℕ) (raw : List ℕ) (ip : lib.IpAddr) (hostnames : List (List ℕ))
      → classify_line lib l raw ≡ mapping ip hostnames
      → Disabled l raw ip hostnames
  disable_line l raw ip hostnames h = elim (body_offset_cases l raw) [
    | inl e ↦ disable_plain l raw ip hostnames e h
    | inr (z, (body, e)) ↦
        at_bom (λ k t. classify_line lib k t ≡ mapping ip hostnames → Disabled k t ip hostnames) l
          raw body z e (disable_bom body ip hostnames) h
  ]

  -- What `IpAddr::from_str` documents: an address is ASCII, so no text that begins like the byte
  -- order mark is one.
  module _ (no_bom_address : (bs : List ℕ) → lib.parse_ip (0xef ∷ bs) ≡ none) where
    no_bom_mapping : (body : List ℕ) → parse_mapping lib (bom_line body) ≡ none
    unfolding parse_mapping before_hash
    no_bom_mapping body =
        let (g, (gs, w)) = first_word 0xef (0xbb ∷ 0xbf ∷ before_hash body) refl in
        ground (arith, no_bom_address g, w)

    mapping_offset :
        (l : ℕ) (rest : List ℕ) (ip : lib.IpAddr) (hostnames : List (List ℕ))
        → parse_mapping lib rest ≡ some (ip, hostnames)
        → body_offset l rest ≡ 0
    mapping_offset l rest ip hostnames h = elim (body_offset_cases l rest) [
      | inl e ↦ e
      | inr (_, (body, e)) ↦ let n = no_bom_mapping body in ground (arith, h, e, n)
    ]

    restore_plain :
        (l : ℕ) (rest : List ℕ) (ip : lib.IpAddr) (hostnames : List (List ℕ))
        → parse_mapping lib rest ≡ some (ip, hostnames)
        → Restored l (disabled_prefix ++ rest) ip hostnames
    unfolding classify_line changed_line
    restore_plain l rest ip hostnames h =
        let p = prefix_offset l rest in
        let o = mapping_offset l rest ip hostnames h in
        let m = mapping_unmarked rest ip hostnames h in rw (p, o) (m, refl)

    restore_bom :
        (rest : List ℕ) (ip : lib.IpAddr) (hostnames : List (List ℕ))
        → parse_mapping lib rest ≡ some (ip, hostnames)
        → Restored 0 (bom_line (disabled_prefix ++ rest)) ip hostnames
    unfolding classify_line changed_line
    restore_bom rest ip hostnames h = (mapping_unmarked rest ip hostnames h, refl)

    pub restore_line_lem :
        (l : ℕ) (raw : List ℕ) (ip : lib.IpAddr) (hostnames : List (List ℕ))
        → classify_line lib l raw ≡ app_disabled ip hostnames
        → Restored l raw ip hostnames
    unfolding classify_line
    restore_line_lem l raw ip hostnames h = elim (body_offset_cases l raw) [
      | inl e ↦
          let (rest, (b, m)) = disabled_parses raw ip hostnames (
            subst
              (λ o.
                classify_stripped lib (skip o raw) (strip_prefix disabled_prefix (skip o raw))
                ≡ app_disabled ip hostnames)
              e h) in
          subst (λ t. Restored l t ip hostnames) (sym b) (restore_plain l rest ip hostnames m)
      | inr (z, (body, e)) ↦
          at_bom
            (λ k t. classify_line lib k t ≡ app_disabled ip hostnames → Restored k t ip hostnames) l
            raw body z e (restored_bom body ip hostnames) h
    ]
      where
        restored_bom :
            (body : List ℕ) (ip : lib.IpAddr) (hostnames : List (List ℕ))
            → classify_line lib 0 (bom_line body) ≡ app_disabled ip hostnames
            → Restored 0 (bom_line body) ip hostnames
        restored_bom body ip hostnames h =
            let (rest, (b, m)) = disabled_parses body ip hostnames h in
            subst (λ t. Restored 0 (bom_line t) ip hostnames) (sym b)
              (restore_bom rest ip hostnames m)
