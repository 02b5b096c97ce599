-- ===== src/Prelude/Decimal.antt =====
-- Decimal text: `value.toString()` of a non-negative bigint.
use Prim.Native.Nat.{ℕ, zero, suc, ◌+◌, ◌*◌, ◌-◌, ◌/◌, ◌%◌, ◌<◌, ◌≤◌, ◌^◌}
use mathlib.Core.Path.{◌≡◌, refl}
use mathlib.Core.List.{[], ◌∷◌, ◌++◌}
use native.Mathlib.Omega.{arith}
use native.Mathlib.Nat.{pow-suc}
use mathlib.Core.Logic.{inl, inr}
use mathlib.Core.Path.{subst}
use benzo_main.Prelude.Lists.{length, length-append, All, All-append}
use benzo_main.Prelude.Tests.{ltb, ltb→lt, ltb-false→le, Bool-cases, if◌then◌else◌}
use benzo_main.Prelude.Strings.{Text}

-- The digits of `n`, on as much fuel as there are digits.
digits_from : ℕ → ℕ → Text
digits_from zero n = []
digits_from (suc fuel) n =
    let rest = digits_from fuel (n / 10) in
    if ltb n 10 then (n + b'0') ∷ [] else rest ++ ((n % 10 + b'0') ∷ [])

unfoldable pub to_decimal : ℕ → Text
unfolding digits_from
to_decimal n = digits_from (suc n) n

-- `BigInt(text)` on decimal digits
abbrev pub decimal_from : ℕ → Text → ℕ
decimal_from acc [] = acc
decimal_from acc (c ∷ s) = decimal_from (acc * 10 + (c - b'0')) s

abbrev pub decimal_value : Text → ℕ
decimal_value s = decimal_from 0 s

decimal_from-append :
    (acc c : ℕ) (s : Text) → decimal_from acc (s ++ (c ∷ [])) ≡ decimal_from acc s * 10 + (c - b'0')
decimal_from-append acc c [] = refl
decimal_from-append acc c (d ∷ s) = decimal_from-append (acc * 10 + (d - b'0')) c s

digits_from-value : (fuel n : ℕ) → n < fuel → decimal_value (digits_from fuel n) ≡ n
unfolding digits_from
digits_from-value zero n h = elim h [ ]
digits_from-value (suc fuel) n h = ground (
  arith,
  digits_from-value fuel (n / 10),
  decimal_from-append 0 (n % 10 + b'0') (digits_from fuel (n / 10)),
)

-- Reading back the text of a number gives the number.
pub decimal_value-to_decimal : (n : ℕ) → decimal_value (to_decimal n) ≡ n
unfolding to_decimal
decimal_value-to_decimal n = digits_from-value (suc n) n (omega arith)

-- The text of a number is made of digits, and not of none.
digits_from-digits : (fuel n : ℕ) → All (λ c. (b'0' ≤ c) × (c ≤ b'9')) (digits_from fuel n)
unfolding digits_from
digits_from-digits zero n = tt
digits_from-digits (suc fuel) n = elim (Bool-cases (ltb n 10)) [
  | inl small ↦ rw small ((omega arith, omega (arith, ltb→lt n 10 small)), tt)
  | inr large ↦ rw large (
      All-append _ (digits_from fuel (n / 10)) ((n % 10 + b'0') ∷ [])
        (digits_from-digits fuel (n / 10)) ((omega arith, omega arith), tt))
]

pub to_decimal-digits : (n : ℕ) → All (λ c. (b'0' ≤ c) × (c ≤ b'9')) (to_decimal n)
unfolding to_decimal
to_decimal-digits n = digits_from-digits (suc n) n

pub to_decimal-some : (n : ℕ) → 0 < length (to_decimal n)
unfolding to_decimal digits_from
to_decimal-some n = elim (Bool-cases (ltb n 10)) [
  | inl small ↦ rw small (omega arith)
  | inr large ↦
      rw (large, length-append (digits_from n (n / 10)) ((n % 10 + b'0') ∷ [])) (omega arith)
]

tenth : (n p : ℕ) → n < p * 10 → n / 10 < p
tenth n p h = omega (arith, h)

length-digits_from : (fuel n d : ℕ) → n < 10 ^ suc d → length (digits_from fuel n) ≤ suc d
unfolding digits_from
length-digits_from zero n d h = omega arith
length-digits_from (suc fuel) n zero h = elim (Bool-cases (ltb n 10)) [
  | inl small ↦ rw small (omega arith)
  | inr large ↦ absurd (omega (arith, h, ltb-false→le n 10 large))
]
length-digits_from (suc fuel) n (suc d) h = elim (Bool-cases (ltb n 10)) [
  | inl small ↦ rw small (omega arith)
  | inr large ↦
      (let h' : n < 10 ^ suc d * 10 = subst (λ m. n < m) (pow-suc 10 (suc d)) h in
        let rest = length-digits_from fuel (n / 10) d (tenth n (10 ^ suc d) h') in
        rw (large, length-append (digits_from fuel (n / 10)) ((n % 10 + b'0') ∷ []))
          (omega (arith, rest)))
]

-- A number below a power of ten has no more digits than its exponent.
pub length-to_decimal : (n d : ℕ) → n < 10 ^ suc d → length (to_decimal n) ≤ suc d
unfolding to_decimal
length-to_decimal n d h = length-digits_from (suc n) n d h
