-- ===== src/Database.antt =====
-- The tables of backend/services/api/src/db/schema.ts that the onramp and the treasury share:
-- `users`, `onramp_intents` and `treasury_deposits`. Columns that no modelled statement reads, such
-- as `created_at`, are left out; ids and times are given by the caller.
pub mod Growth
use benzo_main.Prelude.{ℕ, String, Text, Option, List}

-- `onramp_status`
pub data OnrampStatus : Type 0 where
  initiated burned attested minted needs_onboarding credited failed : OnrampStatus

-- `onramp_dest_token`
pub data DestToken : Type 0 where
  usdc eurc : DestToken

pub record User : Type 0 where
  pub id : String
  pub address : Text

pub record Intent : Type 0 where
  pub id : String
  pub user_id : String
  pub user_address : Text
  pub org_id : Option String
  pub source_domain : ℕ
  pub source_chain_id : ℕ
  pub source_tx_hash : Text
  pub dest_token : DestToken
  pub amount : Option Text
  pub user_pub_key_x : Text
  pub user_pub_key_y : Text
  pub cctp_nonce : Option Text
  pub message_hash : Option Text
  pub status : OnrampStatus
  pub settle_tx_hash : Option Text
  pub error : Option String
  pub updated_at : ℕ

-- `treasury_deposit_source`
pub data DepositSource : Type 0 where
  direct cctp : DepositSource

-- `treasury_deposit_status`
pub data DepositStatus : Type 0 where
  submitted confirmed failed : DepositStatus

pub record Deposit : Type 0 where
  pub id : String
  pub org_id : String
  pub token : DestToken
  pub token_id : ℕ
  pub amount : Text
  pub tx_hash : Option Text
  pub source : DepositSource
  pub status : DepositStatus
  pub idempotency_key : Option String
  pub updated_at : ℕ

pub record Ledger : Type 0 where
  pub users : List User
  pub intents : List Intent
  pub deposits : List Deposit
