-- ===== src/Base/Updates.antt =====
-- A list after `set`.
use Prim.Native.Nat.{ℕ, zero, suc}
use mathlib.Core.Path.{◌≡◌, refl, ap}
use mathlib.Core.Logic.{◌≢◌}
use mathlib.Core.Option.{some}
use mathlib.Core.List.{List, [], ◌∷◌}
use native.Mathlib.Omega.{arith}
use supa_diska_klinah.Base.Lists.{get_elem?, set, length}

module _ {ℓ} {A : Type ℓ} where
  pub get_elem?-set :
      (xs : List A) (l : ℕ) (old raw : A)
      → get_elem? xs l ≡ some old
      → get_elem? (set xs l raw) l ≡ some raw
  get_elem?-set [] l old raw h = ground (arith, h)
  get_elem?-set (x ∷ xs) zero old raw h = refl
  get_elem?-set (x ∷ xs) (suc l) old raw h = get_elem?-set xs l old raw h

  pub get_elem?-set_other :
      (xs : List A) (l k : ℕ) (raw : A) → l ≢ k → get_elem? (set xs l raw) k ≡ get_elem? xs k
  get_elem?-set_other [] l k raw h = refl
  get_elem?-set_other (x ∷ xs) zero zero raw h = ground (arith, h)
  get_elem?-set_other (x ∷ xs) zero (suc k) raw h = refl
  get_elem?-set_other (x ∷ xs) (suc l) zero raw h = refl
  get_elem?-set_other (x ∷ xs) (suc l) (suc k) raw h =
      get_elem?-set_other xs l k raw (λ e. h (ap suc e))

  pub set_twice : (xs : List A) (l : ℕ) (a b : A) → set (set xs l a) l b ≡ set xs l b
  set_twice [] l a b = refl
  set_twice (x ∷ xs) zero a b = refl
  set_twice (x ∷ xs) (suc l) a b = ap (λ t. x ∷ t) (set_twice xs l a b)

  pub set_same : (xs : List A) (l : ℕ) (raw : A) → get_elem? xs l ≡ some raw → set xs l raw ≡ xs
  set_same [] l raw h = refl
  set_same (x ∷ xs) zero raw h = ground (arith, h)
  set_same (x ∷ xs) (suc l) raw h = ap (λ t. x ∷ t) (set_same xs l raw h)

  pub set_swap :
      (xs : List A) (l k : ℕ) (a b : A) → l ≢ k → set (set xs l a) k b ≡ set (set xs k b) l a
  set_swap [] l k a b h = refl
  set_swap (x ∷ xs) zero zero a b h = ground (arith, h)
  set_swap (x ∷ xs) zero (suc k) a b h = refl
  set_swap (x ∷ xs) (suc l) zero a b h = refl
  set_swap (x ∷ xs) (suc l) (suc k) a b h =
      ap (λ t. x ∷ t) (set_swap xs l k a b (λ e. h (ap suc e)))

  pub length-set : (xs : List A) (l : ℕ) (a : A) → length (set xs l a) ≡ length xs
  length-set [] l a = refl
  length-set (x ∷ xs) zero a = refl
  length-set (x ∷ xs) (suc l) a = ap suc (length-set xs l a)
