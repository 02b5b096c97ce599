-- ===== src/Payroll/Intake/Total.antt =====
-- `sumAmounts` of routes/payroll.ts against the amounts that the payroll worker will parse.
use benzo_main.Prelude.{
  ℕ, zero, suc, ◌+◌, ◌-◌, ◌≤◌, ◌≡◌, refl, ap, ◌∙◌, Text, true, false, List, [], ◌∷◌, ◌++◌, ◌&&◌,
  arith, inl, inr, leb, ◌==◌, length, replicate, take, All, Bool-cases,
}
use benzo_main.Service.{Result, ok, bind_result}
use benzo_main.Payroll.Amount.{
  is_digit, all_digits, digits_then_fraction, is_amount, after_point, pad_end, parse_payroll_amount,
}
use benzo_main.Payroll.Amount.Exact.{no_point, not_ltb}
use benzo_main.Payroll.Csv.{digits_then_cents, is_row_amount}
use benzo_main.Payroll.Intake.{scaled_amount, scaled_sum, sum_amounts}
use benzo_main.Payroll.Intake.Format.{parse-parts}

-- What the amounts come to, each parsed as the worker does.
abbrev pub total_parsed : List Text → Result ℕ
total_parsed [] = ok 0
total_parsed (amount ∷ amounts) =
    bind_result (parse_payroll_amount amount 6)
      λ v. bind_result (total_parsed amounts) λ total. ok (v + total)

record Cents (s : Text) : Type 0 where
  pub shape : digits_then_fraction s ≡ true
  pub digits : all_digits (after_point s) ≡ true
  pub fits : length (after_point s) ≤ 6

longer-Cents : (c : ℕ) (s : Text) → is_digit c ≡ true → Cents s → Cents (c ∷ s)
longer-Cents c s digit h =
    let not_point : (c == b'.') ≡ false = ground (arith, digit) in
    record { shape = rw digit h.shape; digits = rw not_point h.digits; fits = rw not_point h.fits }

record Last (c : ℕ) (s : Text) : Type 0 where
  pub point : (c == b'.') ≡ true
  pub digits : all_digits s ≡ true
  pub fits : length s ≤ 6

Last-of :
    (c : ℕ) (s : Text)
    → (c == b'.' && all_digits s && leb 1 (length s) && leb (length s) 6) ≡ true
    → Last c s
Last-of c s h = record {
  point = ground (arith, h);
  digits = ground (arith, h);
  fits = ground (arith, h);
}

digits_then_cents-Cents : (s : Text) → digits_then_cents s ≡ true → Cents s
digits_then_cents-Cents [] h = record { shape = refl; digits = refl; fits = omega arith }
digits_then_cents-Cents (c ∷ s) h = elim (Bool-cases (is_digit c)) [
  | inl digit ↦ longer-Cents c s digit (digits_then_cents-Cents s (rw digit at h))
  | inr other ↦
      (let l = Last-of c s (rw other at h) in
        record {
          shape = rw (other, l.point, l.digits) refl;
          digits = rw l.point l.digits;
          fits = rw l.point l.fits;
        })
]

amount-Cents : (s : Text) → is_row_amount s ≡ true → (is_amount s ≡ true) × Cents s
unfolding is_row_amount is_amount
amount-Cents [] h = cc
amount-Cents (c ∷ s) h =
    let digit : is_digit c ≡ true = ground (arith, h) in
    let rest = digits_then_cents-Cents s (ground (arith, h)) in
    (rw (digit, rest.shape) refl, longer-Cents c s digit rest)

minus_zero : (n : ℕ) → suc (n - 0) ≡ suc n - 0
minus_zero n = omega arith

minus_suc : (n k : ℕ) → n - k ≡ suc n - suc k
minus_suc n k = omega arith

take-zeros :
    (n m : ℕ) (f : Text)
    → length f ≤ n
    → n ≤ length f + m
    → take n (f ++ replicate m b'0') ≡ pad_end f n
take-zeros zero m [] le ge = refl
take-zeros (suc n) zero [] le ge = absurd (omega (arith, ge))
take-zeros (suc n) (suc m) [] le ge =
    ap (λ s. b'0' ∷ s) (take-zeros n m [] (omega arith) (omega (arith, ge)))
    ∙ ap (λ k. replicate k b'0') (minus_zero n)
take-zeros zero m (c ∷ f) le ge = absurd (omega (arith, le))
take-zeros (suc n) m (c ∷ f) le ge =
    ap (λ s. c ∷ s) (take-zeros n m f (omega (arith, le)) (omega (arith, ge)))
    ∙ ap (λ k. c ∷ (f ++ replicate k b'0')) (minus_suc n (length f))

parse-scaled_amount :
    (s : Text) → is_row_amount s ≡ true → parse_payroll_amount s 6 ≡ ok (scaled_amount s)
unfolding parse_payroll_amount scaled_amount
parse-scaled_amount s h =
    let (shape, cents) = amount-Cents s h in
    let (plain, none_after) = no_point (after_point s) cents.digits in
    rw
      (
        shape,
        not_ltb 6 (length (after_point s)) cents.fits,
        plain,
        take-zeros 6 6 (after_point s) cents.fits (omega arith),
      )
      refl

total-scaled_sum :
    (amounts : List Text)
    → All (λ s. is_row_amount s ≡ true) amounts
    → total_parsed amounts ≡ ok (scaled_sum amounts)
unfolding scaled_sum bind_result
total-scaled_sum [] h = refl
total-scaled_sum (s ∷ amounts) h = rw (parse-scaled_amount s h.0, total-scaled_sum amounts h.1) refl

parse-sum_amounts :
    (amounts : List Text) → parse_payroll_amount (sum_amounts amounts) 6 ≡ ok (scaled_sum amounts)
unfolding sum_amounts
parse-sum_amounts amounts = parse-parts (scaled_sum amounts) 5

-- When every amount has the form that the intake lets through, the total that `sumAmounts` writes
-- is parsed, with six decimals, to the sum of what the payroll worker parses the amounts to, and
-- none of these fails.
pub sum_amounts-exact :
    (amounts : List Text)
    → All (λ s. is_row_amount s ≡ true) amounts
    → (total : ℕ) × (total_parsed amounts ≡ ok total)
      × (parse_payroll_amount (sum_amounts amounts) 6 ≡ ok total)
sum_amounts-exact amounts h =
    (scaled_sum amounts, total-scaled_sum amounts h, parse-sum_amounts amounts)
