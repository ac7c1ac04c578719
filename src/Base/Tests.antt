-- ===== src/Base/Tests.antt =====
-- Boolean tests on the native numbers and on types with decidable equality, and the conditional.
use Prim.Native.Nat.{ℕ, ◌≤◌, ◌<◌, compare, Ordering}
use mathlib.Core.Path.{◌≡◌, refl, sym, ◌∙◌}
use mathlib.Core.Logic.{◌↔◌, ◌⊎◌, inl, inr}
use mathlib.Core.Bool.{Bool, true, false}
use mathlib.Core.Option.{Option, none, some}
use native.Mathlib.Omega.{arith}

abbrev pub ltb : ℕ → ℕ → Bool
ltb a b = elim (compare a b) [ Ordering.lt ↦ true | _ ↦ false ]

abbrev pub leb : ℕ → ℕ → Bool
leb a b = elim (compare a b) [ Ordering.gt ↦ false | _ ↦ true ]

infix 50 ◌==◌
abbrev pub ◌==◌ : ℕ → ℕ → Bool
a == b = elim (compare a b) [ Ordering.eq ↦ true | _ ↦ false ]

infix 1 if◌then◌else◌
abbrev pub if◌then◌else◌ {ℓ} : {A : Type ℓ} → Bool → A → A → A
if true then x else y = x
if false then x else y = y

pub ltb→lt : (a b : ℕ) → ltb a b ≡ true → a < b
ltb→lt a b h = ground arith

pub leb→le : (a b : ℕ) → leb a b ≡ true → a ≤ b
leb→le a b h = ground arith

pub ==_iff : (a b : ℕ) → ((a == b) ≡ true) ↔ (a ≡ b)
==_iff a b = ground arith

-- What holds of both branches holds of the conditional.
pub if_both {ℓ κ} :
    {A : Type ℓ} (P : A → Type κ) (b : Bool) (x y : A) → P x → P y → P (if b then x else y)
if_both P true x y p q = p
if_both P false x y p q = q

-- To split on a computed value and keep the equation.
pub Bool-cases : (b : Bool) → (b ≡ true) ⊎ (b ≡ false)
Bool-cases true = inl refl
Bool-cases false = inr refl

pub Option-cases {ℓ} : {A : Type ℓ} (o : Option A) → (o ≡ none) ⊎ ((a : A) × (o ≡ some a))
Option-cases none = inl refl
Option-cases (some a) = inr (a, refl)

abbrev pub holds {ℓ} : {P : Type ℓ} → Dec P → Bool
holds (yes _) = true
holds (no _) = false

-- `a == b` of a derived `Eq`: the decision as a Boolean.
abbrev pub same {ℓ} : {A : Type ℓ} → Discrete A → A → A → Bool
same d a b = holds (d a b)

holds_sound {ℓ} : {P : Type ℓ} (x : Dec P) → holds x ≡ true → P
holds_sound (yes p) h = p
holds_sound (no _) h = cc

holds_complete {ℓ} : {P : Type ℓ} (x : Dec P) → P → holds x ≡ true
holds_complete (yes p) h = refl
holds_complete (no n) h = absurd (n h)

pub eq_of_same {ℓ} : {A : Type ℓ} (d : Discrete A) (a b : A) → same d a b ≡ true → a ≡ b
eq_of_same d a b = holds_sound (d a b)

pub same_of_eq {ℓ} : {A : Type ℓ} (d : Discrete A) (a b : A) → a ≡ b → same d a b ≡ true
same_of_eq d a b = holds_complete (d a b)

pub same_sym {ℓ} : {A : Type ℓ} (d : Discrete A) (a b : A) → same d a b ≡ same d b a
same_sym d a b = elim (Bool-cases (same d a b)) [
  | inl e ↦ e ∙ sym (same_of_eq d b a (sym (eq_of_same d a b e)))
  | inr e ↦ elim (Bool-cases (same d b a)) [
    | inl f ↦ same_of_eq d a b (sym (eq_of_same d b a f)) ∙ sym f
    | inr f ↦ e ∙ sym f
  ]
]
