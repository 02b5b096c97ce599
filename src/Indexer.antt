-- ===== src/Indexer.antt =====
-- The indexer of backend/services/api/src/indexer: the chain's blocks and logs (chain.ts), its
-- tables in db/schema.ts, and its parts in the modules below (scanner.ts). A block number before
-- the first block, -1, occurs as `lastBlock`: positions are kept as the block that is next.
pub mod Decode
pub mod Tables
pub mod Scan
mod Tests
use benzo_main.Prelude.{ℕ, String, Text, Bool, Option, List}
use benzo_main.Service.{Result}

pub record ChainBlock : Type 0 where
  pub hash : Text
  pub number : ℕ
  pub parent_hash : Text
  pub timestamp : ℕ

pub record ChainLog : Type 0 where
  pub address : Text
  pub block_hash : Text
  pub block_number : ℕ
  pub data_hex : Text
  pub log_index : ℕ
  pub topics : List Text
  pub transaction_hash : Text
  pub transaction_index : Option ℕ

-- An argument of an event, as the ABI decoder gives it.
pub data EventArg : Type 0 where
  text : Text → EventArg
  numbers : List ℕ → EventArg
  other : EventArg

pub record DecodedLog : Type 0 where
  pub event_name : String
  pub args : List (String × EventArg)

pub data ContractName : Type 0 where
  encrypted_erc registrar : ContractName

pub record IndexedContract : Type 0 where
  pub address : Text
  pub name : ContractName

-- The configuration, `ChainLogSource`, and what viem computes.
pub record IndexerEnv : Type 0 where
  pub now : ℕ
  pub eerc_encrypted_erc_address : Text
  pub eerc_registrar_address : Text
  pub indexer_confirmations : ℕ
  pub indexer_max_window_blocks : ℕ
  pub indexer_start_block : ℕ
  pub from_block : Option ℕ
  pub to_block : Option ℕ
  pub get_block_number : Result ℕ
  pub get_block : ℕ → Result ChainBlock
  pub get_logs : Text → ℕ → ℕ → Result (List ChainLog)
  pub decode_event_log : ContractName → ChainLog → Result DecodedLog
  pub is_address : Text → Bool
  pub get_address : Text → Result Text
  pub encode_abi_parameters : List ℕ → Text

pub record RawLog : Type 0 where
  pub address : Text
  pub block_hash : Text
  pub block_number : Text
  pub data_hex : Text
  pub log_index : ℕ
  pub topics : List Text
  pub transaction_hash : Text
  pub transaction_index : Option ℕ

-- `events`; bytes are kept as their hexadecimal digits.
pub record Event : Type 0 where
  pub tx_hash : Text
  pub log_index : ℕ
  pub transaction_index : Option ℕ
  pub block_number : ℕ
  pub block_hash : Text
  pub block_time : ℕ
  pub contract : Text
  pub event_name : String
  pub from_addr : Option Text
  pub to_addr : Option Text
  pub ciphertext : List Text
  pub amount_pct : Option Text
  pub raw_log : RawLog
  pub indexed_at : ℕ

-- `chain_cursor`, with the block after `last_block`.
pub record Cursor : Type 0 where
  pub contract : Text
  pub next_block : ℕ
  pub last_block_hash : Option Text

pub record IndexerState : Type 0 where
  pub cursors : List Cursor
  pub events : List Event
