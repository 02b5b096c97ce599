-- ===== src/Payroll/Statements.antt =====
-- What the payroll worker of payroll/runner.ts is given, and the statements that it makes on its
-- tables: the rows' columns as it writes them, and the reads.

use benzo_main.Prelude.{
  ℕ, ◌+◌, String, Text, Bool, true, false, Option, none, some, List, [], ◌∷◌, ◌++◌, ◌&&◌, ◌||◌,
  str_eq, text_eq, leb, find, if◌then◌else◌,
}
use benzo_main.Service.{Action, Result, ok, err, error, atomic, transaction, ◌>>◌}
use benzo_main.Table.{update_where, insert_unless}
use benzo_main.Payroll.{
  ItemStatus, RunStatus, ready, running, Run, Item, Treasury, EventLink, Broadcast, PayrollState,
}
use benzo_main.Payroll.Progress.{is_run}

abbrev pub payroll_confirmations : ℕ
payroll_confirmations = 2

abbrev pub payroll_max_attempts : ℕ
payroll_max_attempts = 5

abbrev pub status_is_ready : RunStatus → Bool
status_is_ready ready = true
status_is_ready _ = false

abbrev pub status_is_running : RunStatus → Bool
status_is_running running = true
status_is_running _ = false

-- What `loadTransferContext` answers.
pub record TransferContext : Type 0 where
  pub auditor_public_key : ℕ × ℕ
  pub receiver_public_key : ℕ × ℕ
  pub sender_balance : ℕ
  pub sender_encrypted_balance : List ℕ

-- `{ rawTransaction, txHash }`
pub record Prepared : Type 0 where
  pub raw_transaction : Text
  pub tx_hash : Text

-- The proof of a transfer with the sender's new balance ciphertext, still opaque.
pub record ProvedTransfer : Type 0 where
  pub calldata : List ℕ
  pub balance_pct : List ℕ

pub record PayrollEnv : Type 0 where
  pub decimals : ℕ
  pub seal_string : Text → Text
  pub unseal_string : Text → Result Text
  pub read_account : Text → Result (List ℕ)
  pub load_transfer_context : Text → List ℕ → ℕ → Text → Result TransferContext
  pub encrypt_transfer : TransferContext → List ℕ → ℕ → List ℕ
  pub prove_transfer : List ℕ → Result ProvedTransfer
  pub prepare_transfer : ProvedTransfer → Text → Text → ℕ → Result Prepared
  pub send_raw_transaction : Prepared → Result (Unit {0})
  pub wait_for_confirmations : Text → ℕ → Result (Unit {0})

abbrev pub is_item : String → Item → Bool
is_item id x = str_eq x.id id

unfoldable pub update_items :
    (Item → Bool) → (Item → Item) → PayrollState → Result (Unit {0}) × PayrollState
update_items p f db = (ok tt, record db { items = update_where p f db.items })

-- `loadRunnableItem`: the item joined with its run.
abbrev pub joined : Option Item → PayrollState → Option (Item × Run)
joined none db = none
joined (some x) db = elim (find (is_run x.run_id) db.runs) [ none ↦ none | some r ↦ some (x, r) ]

unfoldable pub load_runnable_item : String → Action PayrollState (Option (Item × Run))
load_runnable_item id = atomic λ db. (ok (joined (find (is_item id) db.items) db), db)

abbrev pub as_failed : String → Item → Item
as_failed reason x = record x {
  error = some reason;
  status = ItemStatus.failed;
  submission_raw_tx = none;
}

unfoldable pub mark_item_failed : String → String → Action PayrollState (Unit {0})
mark_item_failed id reason = atomic (update_items (is_item id) (as_failed reason))

abbrev pub as_unreconciled : Item → Item
as_unreconciled x = record x {
  error = some "submitted_item_missing_tx_hash";
  status = ItemStatus.submitted;
}

unfoldable pub mark_submitted_item_unreconciled : String → Action PayrollState (Unit {0})
mark_submitted_item_unreconciled id = atomic (update_items (is_item id) as_unreconciled)

-- `loadTreasury`
pub record LoadedTreasury : Type 0 where
  pub address : Text
  pub sealed_eerc_key : Text
  pub sealed_eoa_key : Text

abbrev registered_treasury : Treasury → Option Text → Result LoadedTreasury
registered_treasury t none = err (error "treasury_not_eerc_registered")
registered_treasury t (some sealed) =
    ok (record { address = t.address; sealed_eerc_key = sealed; sealed_eoa_key = t.sealed_eoa_key })

abbrev found_treasury : Option Treasury → Result LoadedTreasury
found_treasury none = err (error "treasury_not_found")
found_treasury (some t) = registered_treasury t t.sealed_eerc_key

unfoldable pub load_treasury : String → Action PayrollState LoadedTreasury
load_treasury org =
    atomic λ db. (found_treasury (find (λ (t : Treasury). str_eq t.org_id org) db.treasuries), db)

-- The row's columns as an item is sent, confirmed, and met an error while confirming.
abbrev pub as_submitted : Text → Option Text → Item → Item
as_submitted hash none x = record x {
  error = none;
  status = ItemStatus.submitted;
  tx_hash = some hash;
}
as_submitted hash (some sealed) x = record x {
  error = none;
  status = ItemStatus.submitted;
  submission_raw_tx = some sealed;
  tx_hash = some hash;
}

abbrev pub as_confirmed : Text → Item → Item
as_confirmed hash x = record x {
  confirmation_attempt = 0;
  error = none;
  status = ItemStatus.confirmed;
  submission_raw_tx = none;
  tx_hash = some hash;
}

abbrev pub as_unconfirmed : Text → String → Item → Item
as_unconfirmed hash reason x = record x {
  confirmation_attempt = x.confirmation_attempt + 1;
  error = some reason;
  status = ItemStatus.submitted;
  tx_hash = some hash;
}

abbrev is_link : EventLink → EventLink → Bool
is_link row x =
    str_eq x.object_type row.object_type
    && (str_eq x.object_id row.object_id && text_eq x.tx_hash row.tx_hash)

unfoldable pub insert_link : EventLink → PayrollState → Result (Unit {0}) × PayrollState
insert_link row db =
    (ok tt, record db { event_links = insert_unless (is_link row) row db.event_links })

unfoldable pub record_broadcast : Broadcast → PayrollState → Result (Unit {0}) × PayrollState
record_broadcast b db = (ok tt, record db { broadcasts = db.broadcasts ++ b ∷ [] })

-- The item that a job is about, as the job was given it.
pub record JobItem : Type 0 where
  pub item_id : String
  pub run_id : String
  pub row_index : ℕ

unfoldable pub confirm_rows : JobItem → Text → Action PayrollState (Unit {0})
confirm_rows job hash = transaction do
  atomic (update_items (is_item job.item_id) (as_confirmed hash))
  atomic (
      insert_link (record {
        tx_hash = hash;
        object_type = "payroll_items";
        object_id = job.run_id;
        row_index = job.row_index;
      }))

abbrev pub after_attempt : ℕ → String → Item → Item
after_attempt attempt reason x = record x {
  error = some reason;
  status = if leb payroll_max_attempts attempt then ItemStatus.failed else ItemStatus.pending;
}

abbrev pub job_of : Item → Run → JobItem
job_of item run = record { item_id = item.id; run_id = run.id; row_index = item.row_index }

abbrev pub is_startable : String → Run → Bool
is_startable id r = is_run id r && (status_is_ready r.status || status_is_running r.status)

abbrev pub as_running : Run → Run
as_running r = record r { status = running }

abbrev pub as_started : ℕ → Item → Item
as_started attempt x = record x { attempt = attempt; error = none; status = ItemStatus.proving }
