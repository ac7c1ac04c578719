-- ===== src/Base/Pieces.antt =====
-- Texts and byte rows that are split at a separator, and joined again.
use Prim.Native.Nat.{ℕ}
use mathlib.Core.Path.{◌≡◌, refl, ap, ◌∙◌}
use mathlib.Core.Logic.{inl, inr}
use mathlib.Core.Bool.{Bool, true, false, not}
use mathlib.Core.List.{List, [], ◌∷◌, ◌++◌, append_assoc}
use native.Mathlib.Omega.{arith}
use supa_diska_klinah.Base.Tests.{◌==◌, Bool-cases}
use supa_diska_klinah.Base.Lists.{all, is_empty, All}
use supa_diska_klinah.Base.Texts.{Text, split, onto_first}

-- `pieces.join(&separator)`.
abbrev pub join : ℕ → List Text → Text
join s [] = []
join s (g ∷ []) = g
join s (g ∷ h ∷ gs) = g ++ s ∷ join s (h ∷ gs)

-- `Vec::pop`, without its result.
abbrev pub pop {ℓ} : {A : Type ℓ} → List A → List A
pop [] = []
pop (x ∷ []) = []
pop (x ∷ y ∷ ys) = x ∷ pop (y ∷ ys)

abbrev pub last_piece : List Text → Text
last_piece [] = []
last_piece (x ∷ []) = x
last_piece (x ∷ y ∷ ys) = last_piece (y ∷ ys)

-- `value.ends_with(separator)`.
abbrev pub ends_with : ℕ → Text → Bool
ends_with s [] = false
ends_with s (b ∷ []) = b == s
ends_with s (b ∷ c ∷ cs) = ends_with s (c ∷ cs)

-- None of the pieces has the separator in it.
abbrev pub lacks : ℕ → Text → Bool
lacks s = all (λ b. not (b == s))

pub split_cons : (s : ℕ) (v : Text) → (g : Text) × (gs : List Text) × (split s v ≡ g ∷ gs)
split_cons s [] = ([], [], refl)
split_cons s (c ∷ v) = elim (Bool-cases (c == s)) [
  | inl e ↦ ([], split s v, rw e)
  | inr e ↦ let (g, gs, p) = split_cons s v in (c ∷ g, gs, rw (e, p))
]

join-onto_first : (s c : ℕ) (gs : List Text) → join s (onto_first c gs) ≡ c ∷ join s gs
join-onto_first s c [] = refl
join-onto_first s c (g ∷ []) = refl
join-onto_first s c (g ∷ h ∷ gs) = refl

join-empty_first :
    (s : ℕ) (gs : List Text) (g : Text) (rest : List Text)
    → gs ≡ g ∷ rest
    → join s ([] ∷ gs) ≡ s ∷ join s gs
join-empty_first s gs g rest e = rw e refl

-- the pieces of a split make up the text
pub join-split : (s : ℕ) (v : Text) → join s (split s v) ≡ v
join-split s [] = refl
join-split s (c ∷ v) = elim (Bool-cases (c == s)) [
  | inl e ↦
      let (g, gs, p) = split_cons s v in
      rw e (join-empty_first s (split s v) g gs p ∙ ground (arith, join-split s v))
  | inr e ↦ rw e (join-onto_first s c (split s v) ∙ ap (λ t. c ∷ t) (join-split s v))
]

-- a piece without the separator comes off the front
pub split-append : (s : ℕ) (g r : Text) → lacks s g ≡ true → split s (g ++ s ∷ r) ≡ g ∷ split s r
split-append s [] r h = ground arith
split-append s (c ∷ g) r h = ground (arith, split-append s g r)

pub split_whole : (s : ℕ) (g : Text) → lacks s g ≡ true → split s g ≡ g ∷ []
split_whole s [] h = refl
split_whole s (c ∷ g) h = ground (arith, split_whole s g)

pub split-join :
    (s : ℕ) (g : Text) (gs : List Text)
    → All (λ p. lacks s p ≡ true) (g ∷ gs)
    → split s (join s (g ∷ gs)) ≡ g ∷ gs
split-join s g [] a = split_whole s g a.0
split-join s g (h ∷ gs) a =
    split-append s g (join s (h ∷ gs)) a.0 ∙ ap (λ t. g ∷ t) (split-join s h gs a.1)

-- every piece of a split lacks the separator
pub split-lacks : (s : ℕ) (v : Text) → All (λ p. lacks s p ≡ true) (split s v)
split-lacks s [] = (refl, tt)
split-lacks s (c ∷ v) =
    let (g, gs, p) = split_cons s v in let rest = split-lacks s v in ground (arith, p)

-- the separator at the end is an empty last piece
pub ends_with-split :
    (s c : ℕ) (v : Text) → ends_with s (c ∷ v) ≡ is_empty (last_piece (split s (c ∷ v)))
ends_with-split s c [] = ground arith
ends_with-split s c (d ∷ v) =
    let (g, gs, p) = split_cons s v in let ih = ends_with-split s d v in ground (arith, p)

-- taking off an empty last piece takes off one separator
pub join-pop :
    (s : ℕ) (x y : Text) (ys : List Text)
    → last_piece (x ∷ y ∷ ys) ≡ []
    → join s (pop (x ∷ y ∷ ys)) ++ s ∷ [] ≡ join s (x ∷ y ∷ ys)
join-pop s x y [] h = ground arith
join-pop s x y (z ∷ zs) h =
    append_assoc x (s ∷ join s (pop (y ∷ z ∷ zs))) (s ∷ [])
    ∙ ap (λ t. x ++ s ∷ t) (join-pop s y z zs h)
