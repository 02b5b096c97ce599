-- ===== src/Payroll.antt =====
-- The payroll worker of backend/services/api/src/payroll/runner.ts: the tables that it uses, and
-- its parts in the modules below. The hash of a transaction, a resolved address
-- and a sealed text are never empty. An event link's label is told by its run and row.
pub mod Amount
pub mod Csv
pub mod Intake
pub mod Routes
pub mod Progress
pub mod Statements
pub mod Worker
mod Tests
use benzo_main.Prelude.{ℕ, String, Text, Option, List}
use benzo_main.Database.{DestToken}

-- `payroll_run_status`
pub data RunStatus : Type 0 where
  draft validating ready running paused complete failed : RunStatus

-- `payroll_item_status`
pub data ItemStatus : Type 0 where
  pending proving submitted confirmed failed : ItemStatus

pub record Run : Type 0 where
  pub id : String
  pub org_id : String
  pub status : RunStatus
  pub item_count : ℕ
  pub total_amount : Text
  pub token : DestToken
  pub token_id : ℕ
  pub created_by : String
  pub error : Option String

pub record Item : Type 0 where
  pub id : String
  pub run_id : String
  pub row_index : ℕ
  pub recipient_input : Text
  pub resolved_address : Option Text
  pub amount : Text
  pub status : ItemStatus
  pub attempt : ℕ
  pub confirmation_attempt : ℕ
  pub tx_hash : Option Text
  pub submission_raw_tx : Option Text
  pub error : Option String

pub record Treasury : Type 0 where
  pub org_id : String
  pub address : Text
  pub sealed_eoa_key : Text
  pub sealed_eerc_key : Option Text
  pub eerc_registered_at : Option ℕ

pub record EventLink : Type 0 where
  pub tx_hash : Text
  pub object_type : String
  pub object_id : String
  pub row_index : ℕ

-- A transaction handed to the network for an item.
pub record Broadcast : Type 0 where
  pub item_id : String
  pub tx_hash : Text
  pub raw_transaction : Text

-- The tables, and what was handed to the network so far.
pub record PayrollState : Type 0 where
  pub runs : List Run
  pub items : List Item
  pub treasuries : List Treasury
  pub event_links : List EventLink
  pub broadcasts : List Broadcast
