-- ===== src/Payroll/Intake/Valid.antt =====
-- Which rows of an intake are valid, routes/payroll.ts.
use benzo_main.Prelude.{
  ◌≡◌, refl, ap, Text, Bool, true, false, not, Option, none, some, List, [], ◌∷◌, ◌||◌, map, All,
  All-imp, any, text_eq, text_eq_refl, text_eq_sym, Bool-cases, inl, inr, arith,
}
use benzo_main.Payroll.Csv.{ParsedRow}
use benzo_main.Payroll.Intake.{
  PreviewItem, Resolved, to_address, unresolved, resolve_recipient, is_valid_amount, check_row,
  check_rows, valid_items,
}

-- The row that an item is of.
abbrev pub row_of : PreviewItem → ParsedRow
row_of i = record {
  row_index = i.row_index;
  recipient_input = i.recipient_input;
  amount = i.amount;
}

abbrev add_recipient : Option Text → List Text → List Text
add_recipient none addresses = addresses
add_recipient (some address) addresses = address ∷ addresses

-- The addresses of items.
abbrev pub recipients : List PreviewItem → List Text
recipients [] = []
recipients (i ∷ items) = add_recipient i.resolved_address (recipients items)

abbrev pub NoRepeats : List Text → Type 0
NoRepeats [] = Unit
NoRepeats (s ∷ texts) = (any (text_eq s) texts ≡ false) × NoRepeats texts

-- A row that could be paid is for an address of these.
abbrev pub is_paid : List Text → Resolved → Text → Bool
is_paid addresses (unresolved reason) amount = true
is_paid addresses (to_address address) amount =
    not (is_valid_amount amount) || any (text_eq address) addresses

module _ (lookup : Text → Option Text) where
  -- What a valid item is.
  pub record Payable (i : PreviewItem) : Type 0 where
    pub address : Text
    pub resolves : resolve_recipient lookup i.recipient_input ≡ to_address address
    pub stored : i.resolved_address ≡ some address
    pub amount : is_valid_amount i.amount ≡ true

  -- What the checks of the rows give.
  pub record Checked (seen : List Text) (rows : List ParsedRow) (items : List PreviewItem)
      : Type 0 where
    pub rows_kept : map row_of items ≡ rows
    pub payable : All Payable (valid_items items)
    pub fresh : All (λ a. any (text_eq a) seen ≡ false) (recipients (valid_items items))
    pub distinct : NoRepeats (recipients (valid_items items))
    pub complete :
        All
          (λ (r : ParsedRow).
            is_paid seen (resolve_recipient lookup r.recipient_input) r.amount
              || is_paid
                  (recipients (valid_items items))
                  (resolve_recipient lookup r.recipient_input)
                  r.amount
            ≡ true)
          rows

  apart :
      (a : Text) (seen texts : List Text)
      → All (λ b. any (text_eq b) (a ∷ seen) ≡ false) texts
      → (any (text_eq a) texts ≡ false) × All (λ b. any (text_eq b) seen ≡ false) texts
  apart a seen [] h = (refl, tt)
  apart a seen (b ∷ texts) h =
      let (rest, new) = apart a seen texts h.1 in
      (ground (arith, h.0, rest, text_eq_sym a b), (ground (arith, h.0), new))

  moved :
      (a : Text) (seen texts : List Text) (r : Resolved) (amount : Text)
      → (is_paid (a ∷ seen) r amount || is_paid texts r amount) ≡ true
      → (is_paid seen r amount || is_paid (a ∷ texts) r amount) ≡ true
  moved a seen texts (unresolved reason) amount h = refl
  moved a seen texts (to_address b) amount h = ground (arith, h)

  -- A row that is not valid adds nothing.
  check-Checked :
      (r : ParsedRow) (resolved : Resolved)
      → resolve_recipient lookup r.recipient_input ≡ resolved
      → (rows : List ParsedRow) (seen : List Text)
      → ((now : List Text) → Checked now rows (check_rows lookup rows now))
      → Checked seen (r ∷ rows) (check_row resolved r seen (check_rows lookup rows))
  check-Checked r (unresolved reason) h rows seen later =
      let l = later seen in
      record {
        rows_kept = ap (λ rest. r ∷ rest) l.rows_kept;
        payable = l.payable;
        fresh = l.fresh;
        distinct = l.distinct;
        complete = (rw h refl, l.complete);
      }
  check-Checked r (to_address a) h rows seen later = elim (Bool-cases (is_valid_amount r.amount)) [
    | inr bad ↦
        (let l = later seen in
          rw bad (record {
            rows_kept = ap (λ rest. r ∷ rest) l.rows_kept;
            payable = l.payable;
            fresh = l.fresh;
            distinct = l.distinct;
            complete = (rw (h, bad) refl, l.complete);
          }))
    | inl good ↦ elim (Bool-cases (any (text_eq a) seen)) [
      | inl again ↦
          (let l = later seen in
            rw (good, again)
              (record {
                rows_kept = ap (λ rest. r ∷ rest) l.rows_kept;
                payable = l.payable;
                fresh = l.fresh;
                distinct = l.distinct;
                complete = (rw (h, good, again) refl, l.complete);
              }))
      | inr new ↦
          (let l = later (a ∷ seen) in
            let (alone, others) = apart a seen _ l.fresh in
            rw (good, new)
              (record {
                rows_kept = ap (λ rest. r ∷ rest) l.rows_kept;
                payable =
                    (record { address = a; resolves = h; stored = refl; amount = good }, l.payable);
                fresh = (new, others);
                distinct = (alone, l.distinct);
                complete = (
                  rw (h, good, text_eq_refl a) (ground arith),
                  All-imp _ _ rows (λ x. moved a seen _ _ x.amount) l.complete,
                );
              }))
    ]
  ]

  check_rows-Checked :
      (rows : List ParsedRow) (seen : List Text) → Checked seen rows (check_rows lookup rows seen)
  unfolding check_rows
  check_rows-Checked [] seen = record {
    rows_kept = refl;
    payable = tt;
    fresh = tt;
    distinct = tt;
    complete = tt;
  }
  check_rows-Checked (r ∷ rows) seen =
      check-Checked r (resolve_recipient lookup r.recipient_input) refl rows seen
        (check_rows-Checked rows)

  -- The intake's checks keep the rows, in order, as items. Each valid item is for the address that
  -- its recipient resolves to, with a positive amount of the form that is let through; no two valid
  -- items are for the same address; and every row with such an amount and an address that resolves
  -- has a valid item for its address.
  pub intake-Checked : (rows : List ParsedRow) → Checked [] rows (check_rows lookup rows [])
  intake-Checked rows = check_rows-Checked rows []
