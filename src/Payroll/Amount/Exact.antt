-- ===== src/Payroll/Amount/Exact.antt =====
-- A parsed amount is exact: no digit is lost or rounded.
use native.Mathlib.Nat.{pow-suc, pow-zero, add-zero, add-suc}
use benzo_main.Prelude.{
  ℕ, zero, suc, ◌+◌, ◌*◌, ◌-◌, ◌^◌, ◌≤◌, ◌<◌, ◌≡◌, refl, ◌⊎◌, ap, ◌∙◌, sym, Text, true, false, [],
  ◌∷◌, ◌++◌, arith, ltb, ◌==◌, length, replicate, decimal_from, decimal_value, Bool-cases, inl, inr,
}
use benzo_main.Service.{ok, ok-injective}
use benzo_main.Payroll.Amount.{
  is_digit, all_digits, digits_then_fraction, is_amount, before_point, after_point, pad_end,
  parse_payroll_amount,
}

-- Zeros at the end scale the number.
pub decimal_from-zeros : (acc n : ℕ) → decimal_from acc (replicate n b'0') ≡ acc * 10 ^ n
decimal_from-zeros acc zero = rw pow-zero (omega arith)
decimal_from-zeros acc (suc n) = decimal_from-zeros (acc * 10 + 0) n ∙ rw pow-suc (grind arith)

pub decimal_from-append :
    (acc : ℕ) (s t : Text) → decimal_from acc (s ++ t) ≡ decimal_from (decimal_from acc s) t
decimal_from-append acc [] t = refl
decimal_from-append acc (c ∷ s) t = decimal_from-append (acc * 10 + (c - b'0')) s t

pow-add : (m k : ℕ) → 10 ^ (m + k) ≡ 10 ^ m * 10 ^ k
pow-add m zero = rw (add-zero m) (omega arith)
pow-add m (suc k) = rw (add-suc m k) (rw pow-suc (rw (pow-add m k) (rw pow-suc (omega arith))))

decimal_from-scale :
    (acc : ℕ) (s : Text) → decimal_from acc s ≡ acc * 10 ^ length s + decimal_value s
decimal_from-scale acc [] = rw pow-zero (omega arith)
decimal_from-scale acc (c ∷ s) =
    rw (decimal_from-scale (acc * 10 + (c - b'0')) s)
      (rw (decimal_from-scale (0 + (c - b'0')) s) (rw pow-suc (omega arith)))

pub decimal_value-append :
    (s t : Text) → decimal_value (s ++ t) ≡ decimal_value s * 10 ^ length t + decimal_value t
decimal_value-append s t = decimal_from-append 0 s t ∙ decimal_from-scale (decimal_value s) t

pub decimal_value-pad_end :
    (s : Text) (n : ℕ) → decimal_value (pad_end s n) ≡ decimal_value s * 10 ^ (n - length s)
decimal_value-pad_end s n =
    decimal_from-append 0 s (replicate (n - length s) b'0')
    ∙ decimal_from-zeros (decimal_value s) (n - length s)

-- The whole part `w`, a fraction of value `f` and `k` digits, to `d` decimals.
scaled :
    (w f k d : ℕ) → k ≤ d → (w * 10 ^ d + f * 10 ^ (d - k)) * 10 ^ k ≡ (w * 10 ^ k + f) * 10 ^ d
scaled w f k d h =
    let split : 10 ^ d ≡ 10 ^ (d - k) * 10 ^ k =
      ap (λ n. 10 ^ n) (omega arith) ∙ pow-add (d - k) k in
    rw split (omega arith)

-- What the regular expression lets through: digits, and at most one point with digits behind it.
pub record IsDecimal (s : Text) : Type 0 where
  pub whole_digits : all_digits (before_point s) ≡ true
  pub fraction_digits : all_digits (after_point s) ≡ true
  pub parts : (s ≡ before_point s) ⊎ (s ≡ before_point s ++ b'.' ∷ after_point s)

pub no_point : (s : Text) → all_digits s ≡ true → (before_point s ≡ s) × (after_point s ≡ [])
no_point [] h = (refl, refl)
no_point (c ∷ s) h = ground (arith, no_point s)

longer : (c : ℕ) (s : Text) → is_digit c ≡ true → IsDecimal s → IsDecimal (c ∷ s)
longer c s digit h =
    let not_point : (c == b'.') ≡ false = ground (arith, digit) in
    record {
      whole_digits = rw not_point (rw digit h.whole_digits);
      fraction_digits = rw not_point h.fraction_digits;
      parts =
          rw not_point
            (elim (h.parts) [ inl e ↦ inl (ap (λ t. c ∷ t) e) | inr e ↦ inr (ap (λ t. c ∷ t) e) ]);
    }

pub not_ltb : (d k : ℕ) → k ≤ d → ltb d k ≡ false
not_ltb d k h = ground arith

parsed :
    (s : Text) (decimals v : ℕ)
    → parse_payroll_amount s decimals ≡ ok v
    → (is_amount s ≡ true)
      × (length (after_point s) ≤ decimals)
      × (v
          ≡ decimal_value (before_point s) * 10 ^ decimals
            + decimal_value (pad_end (after_point s) decimals))
unfolding parse_payroll_amount
parsed s decimals v h = elim (Bool-cases (is_amount s)) [
  | inr bad ↦ cc (rw bad at h)
  | inl good ↦ elim (Bool-cases (ltb decimals (length (after_point s)))) [
    | inl long ↦ cc (rw (good, long) at h)
    | inr fits ↦ (good, ground (arith, fits), sym (ok-injective (rw (good, fits) at h)))
  ]
]

digits_then_fraction-IsDecimal : (s : Text) → digits_then_fraction s ≡ true → IsDecimal s
digits_then_fraction-IsDecimal [] h = record {
  whole_digits = refl;
  fraction_digits = refl;
  parts = inl refl;
}
digits_then_fraction-IsDecimal (c ∷ s) h = elim (Bool-cases (is_digit c)) [
  | inl digit ↦
      (let later = digits_then_fraction-IsDecimal s (ground (arith, h, digit)) in
        longer c s digit later)
  | inr other ↦ record {
    whole_digits = ground (arith, h, other);
    fraction_digits = ground (arith, h, other);
    parts = inr (ground (arith, h, other));
  }
]

is_amount-digits : (s : Text) → is_amount s ≡ true → digits_then_fraction s ≡ true
unfolding is_amount
is_amount-digits [] h = refl
is_amount-digits (c ∷ s) h = ground (arith, h)

-- An amount that parses is a decimal text with at most `decimals` digits behind its point, and
-- the result is that number scaled by ten to the `decimals`, exactly: scaled up by its own
-- fraction digits it is the number that all its digits write, scaled by ten to the `decimals`.
pub parse_exact :
    (s : Text) (decimals v : ℕ)
    → parse_payroll_amount s decimals ≡ ok v
    → IsDecimal s
      × (length (after_point s) ≤ decimals)
      × (v * 10 ^ length (after_point s)
          ≡ decimal_value (before_point s ++ after_point s) * 10 ^ decimals)
parse_exact s decimals v h =
    let (shape, fits, value) = parsed s decimals v h in
    (
      digits_then_fraction-IsDecimal s (is_amount-digits s shape),
      fits,
      rw
          (
            value,
            decimal_value-pad_end (after_point s) decimals,
            decimal_value-append (before_point s) (after_point s),
          )
          (scaled (decimal_value (before_point s)) (decimal_value (after_point s))
            (length (after_point s)) decimals fits),
    )

digits_then_fraction-point :
    (whole fraction : Text)
    → all_digits whole ≡ true
    → all_digits fraction ≡ true
    → (digits_then_fraction (whole ++ b'.' ∷ fraction) ≡ true)
      × (before_point (whole ++ b'.' ∷ fraction) ≡ whole)
      × (after_point (whole ++ b'.' ∷ fraction) ≡ fraction)
digits_then_fraction-point [] fraction h k = (k, refl, refl)
digits_then_fraction-point (c ∷ whole) fraction h k =
    let digit : is_digit c ≡ true = ground (arith, h) in
    let not_point : (c == b'.') ≡ false = ground (arith, digit) in
    let (shape, before, after) = digits_then_fraction-point whole fraction (ground (arith, h)) k in
    (rw digit shape, rw not_point (ap (λ t. c ∷ t) before), rw not_point after)

is_amount-point :
    (whole fraction : Text)
    → all_digits whole ≡ true
    → 0 < length whole
    → digits_then_fraction (whole ++ b'.' ∷ fraction) ≡ true
    → is_amount (whole ++ b'.' ∷ fraction) ≡ true
unfolding is_amount
is_amount-point [] fraction h some_digit shape = absurd (omega (arith, some_digit))
is_amount-point (c ∷ whole) fraction h some_digit shape = ground (arith, h, shape)

-- Digits, a point and at most `decimals` digits parse, and to the value that is meant.
pub parse_point :
    (whole fraction : Text) (decimals : ℕ)
    → all_digits whole ≡ true
    → all_digits fraction ≡ true
    → 0 < length whole
    → length fraction ≤ decimals
    → parse_payroll_amount (whole ++ b'.' ∷ fraction) decimals
      ≡ ok (
          decimal_value whole * 10 ^ decimals
          + decimal_value fraction * 10 ^ (decimals - length fraction))
unfolding parse_payroll_amount
parse_point whole fraction decimals h k some_digit fits =
    let (shape, before, after) = digits_then_fraction-point whole fraction h k in
    rw
      (
        is_amount-point whole fraction h some_digit shape,
        before,
        after,
        not_ltb decimals (length fraction) fits,
        decimal_value-pad_end fraction decimals,
      )
      refl
