-- ===== src/Protection/VersionLaws.antt =====
-- The round trip of release versions, both ways.
use mathlib.Core.List.{append-nil, append_assoc}
use mathlib.Core.Path.{ap₂}
use native.Mathlib.Nat.{pow-suc}
use native.Mathlib.Decide.{dec_lt}
use supa_diska_klinah.Base.{
  ℕ, zero, suc, ◌+◌, ◌-◌, ◌*◌, ◌/◌, ◌%◌, ◌^◌, ◌<◌, ◌≤◌, ◌≡◌, refl, sym, ap, ◌∙◌, inl, inr, true,
  false, [], ◌∷◌, ◌++◌, arith, Text, all-append, and_true, length, length-append, all,
  is_ascii_digit, ltb, Bool-cases,
}
use supa_diska_klinah.Protection.Version.{decimal_from, starts_with_zero, print_fuel, print_u32}

-- The fuel does not matter, once it is enough.
print_fuel_enough : (f g n : ℕ) → n < f → n < g → print_fuel f n ≡ print_fuel g n
unfolding print_fuel
print_fuel_enough zero g n h k = absurd (omega arith)
print_fuel_enough (suc f) zero n h k = absurd (omega arith)
print_fuel_enough (suc f) (suc g) n h k = elim (Bool-cases (ltb n 10)) [
  | inl e ↦ rw e
  | inr e ↦ rw e (
      ap (λ t. t ++ (b'0' + n % 10) ∷ [])
        (print_fuel_enough f g (n / 10) (ground arith) (ground arith)))
]

pub print_small : (n : ℕ) → n < 10 → print_u32 n ≡ (b'0' + n) ∷ []
unfolding print_u32
print_small n h = ground arith

print_step : (n : ℕ) → 10 ≤ n → print_u32 n ≡ print_u32 (n / 10) ++ (b'0' + n % 10) ∷ []
unfolding print_u32
print_step n h = ground (arith, print_fuel_enough n (suc (n / 10)) (n / 10))

decimal-append :
    (acc : ℕ) (xs ys : Text) → decimal_from acc (xs ++ ys) ≡ decimal_from (decimal_from acc xs) ys
unfolding decimal_from
decimal-append acc [] ys = refl
decimal-append acc (x ∷ xs) ys = decimal-append (acc * 10 + (x - b'0')) xs ys

abbrev pub Printed : ℕ → Type 0
Printed n =
    (decimal_from 0 (print_u32 n) ≡ n)
    × (all is_ascii_digit (print_u32 n) ≡ true)
    × (0 < length (print_u32 n))
    × (0 < n → starts_with_zero (print_u32 n) ≡ false)

starts-append : (xs ys : Text) → 0 < length xs → starts_with_zero (xs ++ ys) ≡ starts_with_zero xs
starts-append [] ys h = absurd (omega arith)
starts-append (x ∷ xs) ys h = refl

Printed-small : (n : ℕ) → n < 10 → Printed n
Printed-small n h =
    rw (print_small n h)
      (unfold decimal_from in (omega arith, ground arith, omega arith, λ p. ground arith))

Printed-step : (n : ℕ) → 10 ≤ n → Printed (n / 10) → Printed n
Printed-step n h (value, digits, some_digit, lead) = rw (print_step n h) (
  decimal-append 0 (print_u32 (n / 10)) _ ∙ unfold decimal_from in omega (arith, value),
  all-append is_ascii_digit (print_u32 (n / 10)) _ ∙ ground arith,
  omega (arith, length-append {0} (print_u32 (n / 10)) ((b'0' + n % 10) ∷ [])),
  λ p. starts-append (print_u32 (n / 10)) _ some_digit ∙ lead (omega arith),
)

pub printed : (k n : ℕ) → n < k → Printed n
printed zero n h = absurd (omega arith)
printed (suc k) n h = elim (dec_lt n 10) [
  | yes small ↦ Printed-small n small
  | no big ↦ Printed-step n (omega arith) (printed k (n / 10) (omega arith))
]

pub length-print : (k n : ℕ) → n < 10 ^ suc k → length (print_u32 n) ≤ suc k
length-print zero n h = rw (print_small n (omega arith)) (omega arith)
length-print (suc k) n h = elim (dec_lt n 10) [
  | yes small ↦ rw (print_small n small) (omega arith)
  | no big ↦ rw (print_step n (omega arith)) (
      omega (
        arith,
        length-append {0} (print_u32 (n / 10)) ((b'0' + n % 10) ∷ []),
        length-print k (n / 10) (omega (arith, pow-suc 10 (suc k))),
      ))
]

pub grow :
    (acc : ℕ) (cs : Text)
    → 0 < acc
    → all is_ascii_digit cs ≡ true
    → print_u32 (decimal_from acc cs) ≡ print_u32 acc ++ cs
unfolding decimal_from
grow acc [] p h = sym (append-nil (print_u32 acc))
grow acc (c ∷ cs) p h =
    let (d, ds) = and_true (is_ascii_digit c) _ h in
    let n : ℕ = acc * 10 + (c - b'0') in
    grow n cs (omega arith) ds
    ∙ ap (λ t. t ++ cs)
        (print_step n (omega arith)
          ∙ ap₂ (λ m e. print_u32 m ++ e ∷ []) (one_more.0 d) (one_more.1 d))
    ∙ append_assoc (print_u32 acc) (c ∷ []) cs
  where
    one_more :
        (is_ascii_digit c ≡ true → (acc * 10 + (c - b'0')) / 10 ≡ acc)
        × (is_ascii_digit c ≡ true → b'0' + (acc * 10 + (c - b'0')) % 10 ≡ c)
    one_more = (λ d. ground arith, λ d. ground arith)
