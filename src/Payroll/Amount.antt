-- ===== src/Payroll/Amount.antt =====
-- `parsePayrollAmount` of payroll/runner.ts: a decimal text as a number of the token's smallest
-- units. `decimals` is a natural number here, so the check that it is one is not modelled.
pub mod Exact
use benzo_main.Prelude.{
  ℕ, ◌+◌, ◌*◌, ◌-◌, ◌^◌, ◌≡◌, String, Text, Bool, true, false, List, [], ◌∷◌, ◌++◌, ◌&&◌, leb, ltb,
  ◌==◌, length, replicate, decimal_value, if◌then◌else◌,
}
use benzo_main.Service.{Result, ok, err, error}

-- `\d`
abbrev pub is_digit : ℕ → Bool
is_digit c = leb b'0' c && leb c b'9'

-- `\d*$`
abbrev pub all_digits : Text → Bool
all_digits [] = true
all_digits (c ∷ s) = is_digit c && all_digits s

-- `(?:\.\d*)?$` after any more digits
abbrev pub digits_then_fraction : Text → Bool
digits_then_fraction [] = true
digits_then_fraction (c ∷ s) =
    if is_digit c then digits_then_fraction s else (c == b'.') && all_digits s

-- `/^\d+(?:\.\d*)?$/`
unfoldable pub is_amount : Text → Bool
is_amount [] = false
is_amount (c ∷ s) = is_digit c && digits_then_fraction s

-- The part before the first point, and the part after it.
abbrev pub before_point : Text → Text
before_point [] = []
before_point (c ∷ s) = if c == b'.' then [] else c ∷ before_point s

abbrev pub after_point : Text → Text
after_point [] = []
after_point (c ∷ s) = if c == b'.' then s else after_point s

-- `text.padEnd(width, "0")`
abbrev pub pad_end : Text → ℕ → Text
pad_end s width = s ++ replicate (width - length s) b'0'

unfoldable pub parse_payroll_amount : Text → ℕ → Result ℕ
unfolding is_amount
parse_payroll_amount amount decimals =
    if is_amount amount
    then (if ltb decimals (length (after_point amount))
        then err (error "payroll_amount_exceeds_decimals")
        else ok (
            decimal_value (before_point amount) * 10 ^ decimals
            + decimal_value (pad_end (after_point amount) decimals)))
    else err (error "invalid_payroll_amount")
