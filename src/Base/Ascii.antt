-- ===== src/Base/Ascii.antt =====
-- Texts whose UTF-8 encoding has only ASCII bytes are their own encoding.
use Prim.Native.Nat.{ℕ, ◌≤◌, ◌<◌}
use mathlib.Core.Path.{◌≡◌, refl, ap}
use mathlib.Core.Logic.{◌⊎◌, inl, inr}
use mathlib.Core.Bool.{Bool, true, ◌&&◌}
use mathlib.Core.List.{List, [], ◌∷◌, ◌++◌}
use native.Mathlib.Omega.{arith}
use supa_diska_klinah.Base.Tests.{ltb}
use supa_diska_klinah.Base.Lists.{all}
use supa_diska_klinah.Base.Texts.{Text, utf8_char, as_bytes}

pub and_true : (a b : Bool) → (a && b) ≡ true → (a ≡ true) × (b ≡ true)
and_true a b h = ground arith

pub all-append : (q : ℕ → Bool) (xs ys : List ℕ) → all q (xs ++ ys) ≡ (all q xs && all q ys)
all-append q [] ys = refl
all-append q (x ∷ xs) ys = ground (arith, all-append q xs ys)

abbrev HighLead : List ℕ → Type 0
HighLead [] = ⊥
HighLead (b ∷ _) = 0x80 ≤ b

-- A character is ASCII, or its encoding begins with a byte that is not.
utf8_cases : (c : ℕ) → ((c < 0x80) × (utf8_char c ≡ c ∷ [])) ⊎ HighLead (utf8_char c)
utf8_cases c = ground arith

HighLead-refused :
    (q : ℕ → Bool) (bs rest : List ℕ)
    → ((b : ℕ) → q b ≡ true → b < 0x80)
    → HighLead bs
    → all q (bs ++ rest) ≡ true
    → ⊥
HighLead-refused q [] rest small l h = l
HighLead-refused q (b ∷ bs) rest small l h = ground (arith, small b)

-- Bytes below 0x80 only: the text is its own encoding.
pub ascii_bytes :
    (q : ℕ → Bool) (v : Text)
    → ((b : ℕ) → q b ≡ true → b < 0x80)
    → all q (as_bytes v) ≡ true
    → as_bytes v ≡ v
ascii_bytes q [] small h = refl
ascii_bytes q (c ∷ cs) small h = elim (utf8_cases c) [
  | inl (low, e) ↦ rw e (ap (λ t. c ∷ t) (ascii_bytes q cs small (and_true _ _ (rw e at h)).1))
  | inr high ↦ absurd (HighLead-refused q (utf8_char c) (as_bytes cs) small high h)
]

-- An ASCII text is its own encoding.
pub as_bytes_ascii : (v : Text) → all (λ c. ltb c 0x80) v ≡ true → as_bytes v ≡ v
as_bytes_ascii [] h = refl
as_bytes_ascii (c ∷ cs) h = ground (arith, as_bytes_ascii cs)
