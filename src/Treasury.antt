-- ===== src/Treasury.antt =====
-- The treasury's deposits, backend/services/api/src/treasury/reconciler.ts: a pass that settles
-- submitted deposits by the receipts of their transactions. The receipt client is a field of the
-- environment; numbers in receipts are natural numbers; the status at the end of the last error's
-- text is left out.

pub mod Settlement
pub mod Counting
pub mod Growth
mod Tests
use benzo_main.Prelude.{
  ℕ, ◌+◌, ◌≡◌, String, Text, codes, Bool, true, false, Option, none, some, List, [], ◌∷◌, ◌++◌,
  ◌&&◌, ◌||◌, not, leb, ◌==◌, text_eq, str_eq, to_lower_case, find, take, select, is_some, or_else,
  if◌then◌else◌,
}
use benzo_main.Service.{
  Action, Result, Exn, ok, err, error, pure, lift, atomic, transaction, ◌>>=◌, ◌>>◌,
}
use benzo_main.Table.{update_where, oldest_first}
use benzo_main.Database.{DepositStatus, Deposit, Ledger}

pub data ReceiptStatus : Type 0 where
  numeric : ℕ → ReceiptStatus
  big : ℕ → ReceiptStatus
  textual : Text → ReceiptStatus

-- What a call threw: the texts among its `name`, `shortMessage`, `message` and `details`, if it is
-- an object.
pub record ThrownError : Type 0 where
  pub fields : Option (List Text)
  pub exn : Exn

pub data ReceiptReply : Type 0 where
  received : ReceiptStatus → ReceiptReply
  absent : ReceiptReply
  threw : ThrownError → ReceiptReply

pub record ReconcileEnv : Type 0 where
  pub now : ℕ
  pub grace_ms : Option ℕ
  pub limit : Option ℕ
  pub get_transaction_receipt : Text → ReceiptReply

pub record ReconcileResult : Type 0 where
  pub confirmed : ℕ
  pub failed : ℕ
  pub pending : ℕ
  pub polled : ℕ
  pub skipped : ℕ

pub record Candidate : Type 0 where
  pub id : String
  pub tx_hash : Text

-- `"confirmed" | "failed"`
pub data SettledStatus : Type 0 where
  confirmed failed : SettledStatus

abbrev pub treasury_reconcile_grace_ms : ℕ
treasury_reconcile_grace_ms = 90000

abbrev default_reconcile_limit : ℕ
default_reconcile_limit = 50

abbrev pub as_deposit_status : SettledStatus → DepositStatus
as_deposit_status confirmed = DepositStatus.confirmed
as_deposit_status failed = DepositStatus.failed

abbrev pub is_submitted : DepositStatus → Bool
is_submitted DepositStatus.submitted = true
is_submitted DepositStatus.confirmed = false
is_submitted DepositStatus.failed = false

abbrev by_number : ℕ → Result SettledStatus
by_number n =
    if n == 1
    then ok confirmed
    else if n == 0
    then ok failed
    else err (error "unsupported_treasury_receipt_status")

abbrev by_text : Text → Result SettledStatus
by_text normalized =
    if text_eq normalized (codes "success")
      || (text_eq normalized (codes "0x1") || text_eq normalized (codes "1"))
    then ok confirmed
    else if text_eq normalized (codes "reverted")
        || (text_eq normalized (codes "0x0") || text_eq normalized (codes "0"))
    then ok failed
    else err (error "unsupported_treasury_receipt_status")

unfoldable pub receipt_status_to_deposit_status : ReceiptStatus → Result SettledStatus
receipt_status_to_deposit_status (numeric n) = by_number n
receipt_status_to_deposit_status (big n) = by_number n
receipt_status_to_deposit_status (textual t) = by_text (to_lower_case t)

abbrev starts_with : Text → Text → Bool
starts_with [] s = true
starts_with (c ∷ p) [] = false
starts_with (c ∷ p) (d ∷ s) = (c == d) && starts_with p s

abbrev contains : Text → Text → Bool
contains p [] = starts_with p []
contains p (c ∷ s) = starts_with p (c ∷ s) || contains p s

abbrev join : List Text → Text
join [] = []
join (t ∷ []) = t
join (t ∷ u ∷ us) = t ++ b' ' ∷ join (u ∷ us)

-- `/receipt/i` and `/(not found|could not be found)/i`
unfoldable pub is_receipt_not_found_error : Option (List Text) → Bool
is_receipt_not_found_error none = false
is_receipt_not_found_error (some fields) =
    let text = to_lower_case (join fields) in
    contains (codes "receipt") text
    && (contains (codes "not found") text || contains (codes "could not be found") text)

unfoldable pub get_receipt_or_null : ReceiptReply → Result (Option ReceiptStatus)
get_receipt_or_null (received status) = ok (some status)
get_receipt_or_null absent = ok none
get_receipt_or_null (threw e) = if is_receipt_not_found_error e.fields then ok none else err e.exn

abbrev pub has_deposit_id : String → Deposit → Bool
has_deposit_id id d = str_eq d.id id

abbrev pub same_hash : Option Text → Text → Bool
same_hash none hash = false
same_hash (some []) hash = false
same_hash (some (c ∷ s)) hash = text_eq (to_lower_case (c ∷ s)) (to_lower_case hash)

-- The locked row may be settled for the candidate.
abbrev pub is_settleable : Candidate → Deposit → Bool
is_settleable candidate d = is_submitted d.status && same_hash d.tx_hash candidate.tx_hash

abbrev pub with_deposit_status : ℕ → SettledStatus → Deposit → Deposit
with_deposit_status now status d = record d { status = as_deposit_status status; updated_at = now }

unfoldable pub update_deposits :
    (Deposit → Bool) → (Deposit → Deposit) → Ledger → Result (Unit {0}) × Ledger
update_deposits p f db = (ok tt, record db { deposits = update_where p f db.deposits })

unfoldable pub settle_locked : ℕ → Candidate → SettledStatus → Option Deposit → Action Ledger Bool
settle_locked now candidate status none = pure false
settle_locked now candidate status (some locked) =
    if is_settleable candidate locked
    then (do
      atomic (update_deposits (has_deposit_id locked.id) (with_deposit_status now status))
      pure true)
    else pure false

-- The body of the transaction.
unfoldable pub settle_in : ℕ → Candidate → SettledStatus → Action Ledger Bool
settle_in now candidate status = do
  locked ← atomic λ db. (ok (find (has_deposit_id candidate.id) db.deposits), db)
  settle_locked now candidate status locked

unfoldable pub settle_submitted_treasury_deposit :
    ℕ → Candidate → SettledStatus → Action Ledger Bool
settle_submitted_treasury_deposit now candidate status =
    transaction (settle_in now candidate status)

-- `result[status] += 1`, or one more skipped.
unfoldable pub count_settled : Bool → SettledStatus → ReconcileResult → ReconcileResult
count_settled false status r = record r { skipped = r.skipped + 1 }
count_settled true confirmed r = record r { confirmed = r.confirmed + 1 }
count_settled true failed r = record r { failed = r.failed + 1 }

module _ (env : ReconcileEnv) where
  unfoldable pub with_receipt :
      Candidate → Option ReceiptStatus → ReconcileResult → Action Ledger ReconcileResult
  with_receipt candidate none r = pure (record r { pending = r.pending + 1 })
  with_receipt candidate (some receipt) r = do
    status ← lift (receipt_status_to_deposit_status receipt)
    settled ← settle_submitted_treasury_deposit env.now candidate status
    pure (count_settled settled status r)

  unfoldable pub reconcile_row :
      String → Option Text → ReconcileResult → Action Ledger ReconcileResult
  reconcile_row id none r = pure (record r { skipped = r.skipped + 1 })
  reconcile_row id (some []) r = pure (record r { skipped = r.skipped + 1 })
  reconcile_row id (some (c ∷ s)) r = do
    receipt ← lift (get_receipt_or_null (env.get_transaction_receipt (c ∷ s)))
    with_receipt (record { id = id; tx_hash = c ∷ s }) receipt (record r { polled = r.polled + 1 })

  -- The `for` loop.
  unfoldable pub reconcile_each : List Deposit → ReconcileResult → Action Ledger ReconcileResult
  reconcile_each [] r = pure r
  reconcile_each (row ∷ rest) r = do
    next ← reconcile_row row.id row.tx_hash r
    reconcile_each rest next

  abbrev pub limit_or_default : ℕ
  limit_or_default = or_else env.limit default_reconcile_limit

  -- Updated no later than the cutoff, the time less the grace.
  abbrev pub is_due : Deposit → Bool
  is_due d =
      is_submitted d.status
      && (is_some d.tx_hash
          && leb (d.updated_at + or_else env.grace_ms treasury_reconcile_grace_ms) env.now)

  unfoldable pub due_deposits : Ledger → List Deposit
  due_deposits db =
      take limit_or_default
        (oldest_first (λ (d : Deposit). d.updated_at) (select is_due db.deposits))

  abbrev pub nothing_counted : ReconcileResult
  nothing_counted = record { confirmed = 0; failed = 0; pending = 0; polled = 0; skipped = 0 }

  unfoldable pub reconcile_treasury_deposits : Action Ledger ReconcileResult
  reconcile_treasury_deposits = do
    due ← atomic λ db. (ok (due_deposits db), db)
    reconcile_each due nothing_counted
