-- ===== src/Payroll/Csv.antt =====
-- The text of an intake, routes/payroll.ts: the forms of addresses and amounts, and `parseCsv`.
use benzo_main.Prelude.{
  ℕ, ◌+◌, Text, Bool, true, false, not, List, [], ◌∷◌, ◌&&◌, ◌||◌, map, leb, ◌==◌, trim, length,
  any, get_elem?, or_else, if◌then◌else◌,
}
use benzo_main.Payroll.Amount.{is_digit, all_digits}

abbrev is_hex_digit : ℕ → Bool
is_hex_digit c = is_digit c || (leb b'a' c && leb c b'f') || (leb b'A' c && leb c b'F')

abbrev all_hex : Text → Bool
all_hex [] = true
all_hex (c ∷ s) = is_hex_digit c && all_hex s

-- `EVM_ADDRESS`
unfoldable pub is_evm_address : Text → Bool
is_evm_address [] = false
is_evm_address (z ∷ []) = false
is_evm_address (z ∷ x ∷ s) = z == b'0' && x == b'x' && length s == 40 && all_hex s

-- `(\.\d{1,6})?$` after any more digits
abbrev pub digits_then_cents : Text → Bool
digits_then_cents [] = true
digits_then_cents (c ∷ s) =
    if is_digit c
    then digits_then_cents s
    else (c == b'.' && all_digits s && leb 1 (length s) && leb (length s) 6)

-- `AMOUNT`
unfoldable pub is_row_amount : Text → Bool
is_row_amount [] = false
is_row_amount (c ∷ s) = is_digit c && digits_then_cents s

abbrev pub is_positive : Text → Bool
is_positive amount = any (λ c. leb b'1' c && leb c b'9') amount

abbrev onto_first : ℕ → List Text → List Text
onto_first c [] = (c ∷ []) ∷ []
onto_first c (s ∷ rest) = (c ∷ s) ∷ rest

-- `text.split(",")`
abbrev split_at_comma : Text → List Text
split_at_comma [] = [] ∷ []
split_at_comma (c ∷ s) =
    let rest = split_at_comma s in if c == b',' then [] ∷ rest else onto_first c rest

abbrev before_newline : Text → Bool
before_newline [] = false
before_newline (c ∷ s) = c == 10

-- `csv.split(/\r?\n/)`
abbrev split_lines : Text → List Text
split_lines [] = [] ∷ []
split_lines (c ∷ s) =
    let rest = split_lines s in
    if c == 10 then [] ∷ rest else if c == 13 && before_newline s then rest else onto_first c rest

pub record ParsedRow : Type 0 where
  pub row_index : ℕ
  pub recipient_input : Text
  pub amount : Text

-- A line is skipped, is the header, or is a row.
pub data Line : Type 0 where
  blank header : Line
  row : Text → Text → Line

abbrev header_or_row : Bool → Text → Text → Line
header_or_row first_content_seen recipient_input amount =
    if not first_content_seen && not (is_row_amount amount)
    then header
    else row recipient_input amount

abbrev line_of : Bool → Text → Line
line_of first_content_seen [] = blank
line_of first_content_seen (c ∷ s) =
    let cols = map trim (split_at_comma (c ∷ s)) in
    header_or_row first_content_seen (or_else (get_elem? cols 0) []) (or_else (get_elem? cols 1) [])

abbrev add_line : Line → Bool → ℕ → (Bool → ℕ → List ParsedRow) → List ParsedRow
add_line blank first_content_seen row_index rest = rest first_content_seen row_index
add_line header first_content_seen row_index rest = rest true row_index
add_line (row recipient_input amount) first_content_seen row_index rest =
    record { row_index = row_index; recipient_input = recipient_input; amount = amount }
    ∷ rest true (row_index + 1)

unfoldable pub parse_lines : Bool → ℕ → List Text → List ParsedRow
unfolding is_row_amount
parse_lines first_content_seen row_index [] = []
parse_lines first_content_seen row_index (raw ∷ lines) =
    add_line (line_of first_content_seen (trim raw)) first_content_seen row_index
      (λ seen index. parse_lines seen index lines)

unfoldable pub parse_csv : Text → List ParsedRow
parse_csv csv = parse_lines false 0 (split_lines csv)
