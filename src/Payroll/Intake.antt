-- ===== src/Payroll/Intake.antt =====
-- The intake of a payroll, `POST /orgs/:id/payroll` of routes/payroll.ts: its rows,
-- and the total of those that are valid.
pub mod Format
pub mod Total
pub mod Valid
pub mod Batches
use benzo_main.Prelude.{
  ℕ, zero, suc, ◌+◌, ◌-◌, ◌*◌, ◌/◌, ◌%◌, ◌^◌, String, Text, Bool, true, false, not, Option, none,
  some, List, [], ◌∷◌, ◌++◌, ◌&&◌, ◌||◌, map, leb, ltb, ◌==◌, text_eq, trim, to_lower_case,
  to_decimal, decimal_value, length, replicate, take, drop, any, select, get_elem?, or_else,
  if◌then◌else◌,
}
use benzo_main.Payroll.{ItemStatus, pending}
use benzo_main.Payroll.Amount.{is_digit, all_digits, before_point, after_point}
use benzo_main.Payroll.Csv.{is_evm_address, is_row_amount, is_positive, ParsedRow}

abbrev pub max_rows : ℕ
max_rows = 10000

abbrev pub query_batch : ℕ
query_batch = 10000

pub record PreviewItem : Type 0 where
  pub row_index : ℕ
  pub recipient_input : Text
  pub resolved_address : Option Text
  pub amount : Text
  pub status : ItemStatus
  pub error : Option String

abbrev without_at : Text → Text
without_at [] = []
without_at (c ∷ s) = if c == b'@' then s else c ∷ s

-- `replace(/^@/, "").toLowerCase()`
unfoldable pub handle_key : Text → Text
handle_key recipient_input = to_lower_case (without_at recipient_input)

-- `new Set(texts)`, in order.
abbrev pub unique : List Text → List Text
unique [] = []
unique (s ∷ texts) = s ∷ select (λ t. not (text_eq t s)) (unique texts)

abbrev pub is_handle : ParsedRow → Bool
is_handle r = ltb 0 (length r.recipient_input) && not (is_evm_address r.recipient_input)

unfoldable pub handle_inputs : List ParsedRow → List Text
handle_inputs rows =
    unique (map (λ (r : ParsedRow). handle_key r.recipient_input) (select is_handle rows))

-- `chunk(arr, size)`, on fuel that the length is enough of.
abbrev pub chunk_on {ℓ} : {A : Type ℓ} → ℕ → ℕ → List A → List (List A)
chunk_on zero size xs = []
chunk_on (suc fuel) size [] = []
chunk_on (suc fuel) size (x ∷ xs) = take size (x ∷ xs) ∷ chunk_on fuel size (drop size (x ∷ xs))

abbrev pub chunk {ℓ} : {A : Type ℓ} → List A → ℕ → List (List A)
chunk xs size = chunk_on (length xs) size xs

-- `handleToAddress.get(key)`, when the rows were set in order.
abbrev pub address_of : Text → List (Text × Text) → Option Text
address_of key [] = none
address_of key ((handle, address) ∷ found) = elim (address_of key found) [
  | some later ↦ some later
  | none ↦ if text_eq (to_lower_case handle) key then some address else none
]

-- The address that a row is for, or why there is none.
pub data Resolved : Type 0 where
  to_address : Text → Resolved
  unresolved : String → Resolved

abbrev or_unknown : Option Text → Resolved
or_unknown none = unresolved "unknown_recipient"
or_unknown (some address) = to_address address

abbrev pub by_handle : (Text → Option Text) → Text → Resolved
by_handle handle_to_address [] = unresolved "missing_recipient"
by_handle handle_to_address (c ∷ s) = or_unknown (handle_to_address (handle_key (c ∷ s)))

abbrev pub preview : ParsedRow → Option Text → ItemStatus → Option String → PreviewItem
preview r address status error = record {
  row_index = r.row_index;
  recipient_input = r.recipient_input;
  resolved_address = address;
  amount = r.amount;
  status = status;
  error = error;
}

abbrev pub is_valid_amount : Text → Bool
is_valid_amount amount = is_row_amount amount && is_positive amount

-- A row, given the addresses seen so far and what checks the rows after it.
abbrev pub check_row :
    Resolved → ParsedRow → List Text → (List Text → List PreviewItem) → List PreviewItem
check_row (unresolved reason) r seen rest =
    preview r none ItemStatus.failed (some reason) ∷ rest seen
check_row (to_address address) r seen rest =
    if not (is_valid_amount r.amount)
    then preview r (some address) ItemStatus.failed (some "invalid_amount") ∷ rest seen
    else if any (text_eq address) seen
    then preview r (some address) ItemStatus.failed (some "duplicate_recipient") ∷ rest seen
    else preview r (some address) pending none ∷ rest (address ∷ seen)

module _ (handle_to_address : Text → Option Text) where
  unfoldable pub resolve_recipient : Text → Resolved
  resolve_recipient recipient_input =
      if is_evm_address recipient_input
      then to_address (to_lower_case recipient_input)
      else by_handle handle_to_address recipient_input

  -- `parsed.map(…)`, with the set `seen`.
  unfoldable pub check_rows : List ParsedRow → List Text → List PreviewItem
  check_rows [] seen = []
  check_rows (r ∷ rows) seen =
      check_row (resolve_recipient r.recipient_input) r seen (check_rows rows)

abbrev pub is_pending : ItemStatus → Bool
is_pending pending = true
is_pending _ = false

abbrev pub valid_items : List PreviewItem → List PreviewItem
valid_items items = select (λ (i : PreviewItem). is_pending i.status) items

-- `text.padStart(width, "0")`
abbrev pub pad_start : Text → ℕ → Text
pad_start s width = replicate (width - length s) b'0' ++ s

abbrev pub unless_zero : ℕ → Text → Text
unless_zero c [] = if c == b'0' then [] else c ∷ []
unless_zero c (d ∷ s) = c ∷ d ∷ s

-- `text.replace(/0+$/, "")`
abbrev pub strip_zeros : Text → Text
strip_zeros [] = []
strip_zeros (c ∷ s) = unless_zero c (strip_zeros s)

abbrev pub with_fraction : Text → Text → Text
with_fraction whole [] = whole
with_fraction whole (c ∷ s) = whole ++ b'.' ∷ c ∷ s

-- `formatPayrollAmount`
unfoldable pub format_payroll_amount : ℕ → ℕ → Text
format_payroll_amount amount decimals =
    if leb decimals 0
    then to_decimal amount
    else with_fraction (to_decimal (amount / 10 ^ decimals))
        (strip_zeros (pad_start (to_decimal (amount % 10 ^ decimals)) decimals))

-- An amount in millionths.
unfoldable pub scaled_amount : Text → ℕ
scaled_amount amount =
    decimal_value (before_point amount) * 1000000
    + decimal_value (take 6 (before_point (after_point amount) ++ replicate 6 b'0'))

unfoldable pub scaled_sum : List Text → ℕ
scaled_sum [] = 0
scaled_sum (amount ∷ amounts) = scaled_amount amount + scaled_sum amounts

-- `sumAmounts`
unfoldable pub sum_amounts : List Text → Text
sum_amounts amounts =
    let scaled = scaled_sum amounts in
    with_fraction (to_decimal (scaled / 1000000))
      (strip_zeros (pad_start (to_decimal (scaled % 1000000)) 6))
