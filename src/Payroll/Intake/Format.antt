-- ===== src/Payroll/Intake/Format.antt =====
-- `formatPayrollAmount` of routes/payroll.ts and `parsePayrollAmount` of payroll/runner.ts: what is
-- formatted reads back.
use native.Mathlib.Nat.{pow-suc, pow-zero, mod-lt, div-add-mod'}
use benzo_main.Prelude.{
  ℕ, zero, suc, ◌+◌, ◌-◌, ◌*◌, ◌/◌, ◌%◌, ◌^◌, ◌≤◌, ◌<◌, ◌≡◌, refl, ap, ◌∙◌, sym, subst, Text, true,
  false, [], ◌∷◌, ◌++◌, arith, inl, inr, leb, ◌==◌, ==_iff, length, length-append, replicate, All,
  to_decimal, decimal_value, decimal_from, decimal_value-to_decimal, to_decimal-digits,
  to_decimal-some, length-to_decimal, Bool-cases,
}
use benzo_main.Service.{ok}
use benzo_main.Payroll.Amount.{all_digits, digits_then_fraction, is_amount, parse_payroll_amount}
use benzo_main.Payroll.Amount.Exact.{
  parse_point, no_point, not_ltb, decimal_from-append, decimal_from-zeros, decimal_value-pad_end,
}
use benzo_main.Payroll.Intake.{
  pad_start, unless_zero, strip_zeros, with_fraction, format_payroll_amount,
}

all_digits-All : (s : Text) → All (λ c. (b'0' ≤ c) × (c ≤ b'9')) s → all_digits s ≡ true
all_digits-All [] h = refl
all_digits-All (c ∷ s) h = ground (arith, h.0, all_digits-All s h.1)

all_digits-zeros :
    (n : ℕ) (s : Text) → all_digits s ≡ true → all_digits (replicate n b'0' ++ s) ≡ true
all_digits-zeros zero s h = h
all_digits-zeros (suc n) s h = all_digits-zeros n s h

decimal_value-zeros : (n : ℕ) (s : Text) → decimal_value (replicate n b'0' ++ s) ≡ decimal_value s
decimal_value-zeros n s =
    decimal_from-append 0 (replicate n b'0') s
    ∙ ap (λ acc. decimal_from acc s) (decimal_from-zeros 0 n ∙ omega arith)

length-replicate : (n c : ℕ) → length (replicate n c) ≡ n
length-replicate zero c = refl
length-replicate (suc n) c = ap suc (length-replicate n c)

-- What is stripped is zeros.
StripsZeros : Text → Text → Type 0
StripsZeros s t = (k : ℕ) × (s ≡ t ++ replicate k b'0')

unless_zero-Strips : (c : ℕ) (s t : Text) → StripsZeros s t → StripsZeros (c ∷ s) (unless_zero c t)
unfolding StripsZeros
unless_zero-Strips c s [] (k, e) = elim (Bool-cases (c == b'0')) [
  | inl is_zero ↦ (let same = (==_iff c b'0').0 is_zero in rw is_zero (suc k, cc (same, e)))
  | inr other ↦ rw other (k, ap (λ t. c ∷ t) e)
]
unless_zero-Strips c s (d ∷ t) (k, e) = (k, ap (λ t. c ∷ t) e)

strip_zeros-Strips : (s : Text) → StripsZeros s (strip_zeros s)
unfolding StripsZeros
strip_zeros-Strips [] = (0, refl)
strip_zeros-Strips (c ∷ s) = unless_zero-Strips c s (strip_zeros s) (strip_zeros-Strips s)

all_digits-prefix : (s t : Text) → all_digits (s ++ t) ≡ true → all_digits s ≡ true
all_digits-prefix [] t h = refl
all_digits-prefix (c ∷ s) t h = ground (arith, h, all_digits-prefix s t)

-- Digits without a point.
plain_digits : (s : Text) → all_digits s ≡ true → digits_then_fraction s ≡ true
plain_digits [] h = refl
plain_digits (c ∷ s) h = ground (arith, h, plain_digits s)

plain-amount : (s : Text) → all_digits s ≡ true → 0 < length s → is_amount s ≡ true
unfolding is_amount
plain-amount [] h some_digit = absurd (omega (arith, some_digit))
plain-amount (c ∷ s) h some_digit = ground (arith, h, plain_digits s)

parse-with_fraction :
    (whole fraction : Text) (decimals : ℕ)
    → all_digits whole ≡ true
    → all_digits fraction ≡ true
    → 0 < length whole
    → length fraction ≤ decimals
    → parse_payroll_amount (with_fraction whole fraction) decimals
      ≡ ok (
          decimal_value whole * 10 ^ decimals
          + decimal_value fraction * 10 ^ (decimals - length fraction))
unfolding parse_payroll_amount
parse-with_fraction whole [] decimals h k some_digit fits =
    let (before, after) = no_point whole h in
    rw
      (
        plain-amount whole h some_digit,
        before,
        after,
        not_ltb decimals 0 fits,
        decimal_value-pad_end [] decimals,
      )
      refl
parse-with_fraction whole (c ∷ fraction) decimals h k some_digit fits =
    parse_point whole (c ∷ fraction) decimals h k some_digit fits

-- The fraction digits of a remainder, as they are written.
record Fraction (r decimals : ℕ) (t : Text) : Type 0 where
  pub digits : all_digits t ≡ true
  pub fits : length t ≤ decimals
  pub value : decimal_value t * 10 ^ (decimals - length t) ≡ r

padded-Fraction :
    (r decimals k : ℕ) (s t : Text)
    → all_digits s ≡ true
    → length s ≡ decimals
    → decimal_value s ≡ r
    → s ≡ t ++ replicate k b'0'
    → Fraction r decimals t
padded-Fraction r decimals k s t h len value e =
    let whole_len : length t + k ≡ decimals =
      ap (λ n. length t + n) (sym (length-replicate k b'0'))
      ∙ sym (length-append t (replicate k b'0'))
      ∙ ap length (sym e)
      ∙ len in
    let rest : decimals - length t ≡ k = omega (arith, whole_len) in
    record {
      digits = all_digits-prefix t (replicate k b'0') (subst (λ u. all_digits u ≡ true) e h);
      fits = omega (arith, whole_len);
      value =
          ap (λ n. decimal_value t * 10 ^ n) rest
          ∙ sym (decimal_from-zeros (decimal_value t) k)
          ∙ sym (decimal_from-append 0 t (replicate k b'0'))
          ∙ ap decimal_value (sym e)
          ∙ value;
    }

length-pad_start : (s : Text) (n : ℕ) → length s ≤ n → length (pad_start s n) ≡ n
length-pad_start s n h =
    length-append (replicate (n - length s) b'0') s
    ∙ ap (λ m. m + length s) (length-replicate (n - length s) b'0')
    ∙ omega (arith, h)

remainder-Fraction :
    (r d : ℕ) → r < 10 ^ suc d → Fraction r (suc d) (strip_zeros (pad_start (to_decimal r) (suc d)))
unfolding StripsZeros
remainder-Fraction r d lt =
    let s = pad_start (to_decimal r) (suc d) in
    let (k, e) = strip_zeros-Strips s in
    padded-Fraction r (suc d) k s (strip_zeros s)
      (all_digits-zeros (suc d - length (to_decimal r)) (to_decimal r)
        (all_digits-All (to_decimal r) (to_decimal-digits r)))
      (length-pad_start (to_decimal r) (suc d) (length-to_decimal r d lt))
      (decimal_value-zeros (suc d - length (to_decimal r)) (to_decimal r)
        ∙ decimal_value-to_decimal r)
      e

pow-some : (d : ℕ) → 0 < 10 ^ d
pow-some zero = rw pow-zero (omega arith)
pow-some (suc d) = let h = pow-some d in rw pow-suc (omega (arith, h))

parts-sum : (q r p v : ℕ) → q * p + r ≡ v → (w f : ℕ) → w ≡ q → f ≡ r → w * p + f ≡ v
parts-sum q r p v h w f e g = rw (e, g) h

-- A whole and a fraction part of an amount, written and read.
pub parse-parts :
    (n d : ℕ)
    → parse_payroll_amount
        (with_fraction
          (to_decimal (n / 10 ^ suc d))
          (strip_zeros (pad_start (to_decimal (n % 10 ^ suc d)) (suc d))))
        (suc d)
      ≡ ok n
parse-parts n d =
    let p = 10 ^ suc d in
    let f = remainder-Fraction (n % p) d (mod-lt n (pow-some (suc d))) in
    parse-with_fraction (to_decimal (n / p)) (strip_zeros (pad_start (to_decimal (n % p)) (suc d)))
      (suc d) (all_digits-All (to_decimal (n / p)) (to_decimal-digits (n / p))) f.digits
      (to_decimal-some (n / p)) f.fits
    ∙ ap ok (
        parts-sum (n / p) (n % p) p n (div-add-mod' n p) _ _ (decimal_value-to_decimal (n / p))
          f.value)

whole-only : (n v : ℕ) → v ≡ n → v * 10 ^ 0 + 0 * 10 ^ (0 - 0) ≡ n
whole-only n v h = rw (pow-zero, h) (omega arith)

not_small : (d : ℕ) → leb (suc d) 0 ≡ false
not_small d = ground arith

-- An amount that `formatPayrollAmount` writes is parsed by `parsePayrollAmount`, with the same
-- number of decimals, to the amount.
pub parse-format_payroll_amount :
    (n decimals : ℕ) → parse_payroll_amount (format_payroll_amount n decimals) decimals ≡ ok n
unfolding format_payroll_amount
parse-format_payroll_amount n zero =
    parse-with_fraction (to_decimal n) [] 0 (all_digits-All (to_decimal n) (to_decimal-digits n))
      refl (to_decimal-some n) (omega arith)
    ∙ ap ok (whole-only n (decimal_value (to_decimal n)) (decimal_value-to_decimal n))
parse-format_payroll_amount n (suc d) = rw (not_small d) (parse-parts n d)
