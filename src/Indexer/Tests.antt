-- ===== src/Indexer/Tests.antt =====
-- A chain with one deposit in each block, on which the theorems about the indexer are applied.
use benzo_main.Prelude.{
  ℕ, suc, ◌+◌, ◌-◌, ◌≤◌, ◌≡◌, refl, ap, Text, codes, true, none, some, List, [], ◌∷◌, inl, arith,
  to_lower_case, lower, to_decimal,
}
use benzo_main.Service.{ok, bind_result}
use benzo_main.Indexer.{
  ChainBlock, ChainLog, text, IndexedContract, encrypted_erc, IndexerEnv, IndexerState,
}
use benzo_main.Indexer.Decode.{
  serialize_raw_log, normalize_address, normalize_address_arg, encode_uint256_array7, decode_named,
  decode_indexed_event, event_row,
}
use benzo_main.Indexer.Scan.{rewind_target}
use benzo_main.Indexer.Scan.Chain.{SoundChain, logs_between, rows_of, rows_between}
use benzo_main.Indexer.Scan.Resume.{Indexes, scan_contract-Indexes}
use benzo_main.Indexer.Scan.Rewind.{scan_contract_rewinds}

abbrev block : ℕ → ChainBlock
block n = record { hash = n ∷ []; number = n; parent_hash = (n - 1) ∷ []; timestamp = n }

abbrev deposit : ℕ → ChainLog
deposit n = record {
  address = codes "0xe";
  block_hash = n ∷ [];
  block_number = n;
  data_hex = [];
  log_index = 0;
  topics = [];
  transaction_hash = n ∷ [];
  transaction_index = none;
}

abbrev deposits : Text → ℕ → List ChainLog
deposits address n = deposit n ∷ []

abbrev env : IndexerEnv
env = record {
  now = 0;
  eerc_encrypted_erc_address = codes "0xe";
  eerc_registrar_address = codes "0xf";
  indexer_confirmations = 1;
  indexer_max_window_blocks = 2;
  indexer_start_block = 0;
  from_block = none;
  to_block = none;
  get_block_number = ok 4;
  get_block = λ n. ok (block n);
  get_logs = λ a from to. ok (logs_between (deposits a) from (suc (to - from)));
  decode_event_log =
      λ name log. ok (record { event_name = "Deposit"; args = ("user", text (codes "0xu")) ∷ [] });
  is_address = λ a. true;
  get_address = λ a. ok a;
  encode_abi_parameters = λ ns. [];
}

window-eq : (n : ℕ) → n + 1 - 1 ≡ n
window-eq n = omega arith

range-eq : (from count : ℕ) → suc (from + count - from) ≡ suc count
range-eq from count = omega arith

abbrev chain : SoundChain env 4
chain = record {
  blocks = block;
  logs = deposits;
  answers = λ n le. refl;
  numbered = λ n. refl;
  linked = λ n. ap (λ m. m ∷ []) (window-eq n);
  answers_logs =
      λ a from count le. ap (λ m. ok (logs_between (deposits a) from m)) (range-eq from count);
  logs_numbered = λ a n. (refl, tt);
}

abbrev erc : IndexedContract
erc = record { address = codes "0xe"; name = encrypted_erc }

abbrev empty : IndexerState
empty = record { cursors = []; events = [] }

within : 3 ≤ 4
within = omega arith

scan_contract-Indexes_example : Indexes env 4 chain erc 0 3 within (omega arith) 5 0 [] empty
unfolding rows_between rows_of decode_indexed_event decode_named normalize_address
    normalize_address_arg encode_uint256_array7 event_row serialize_raw_log bind_result
    to_lower_case lower to_decimal
scan_contract-Indexes_example =
    scan_contract-Indexes env 4 chain erc 0 3 within (omega arith) 5 0 empty (omega arith)
      (omega arith) (omega arith) (inl (refl, refl)) (refl, (refl, (refl, (refl, tt))))

-- The cursor's last block, 2, had another hash.
abbrev forked : IndexerState
forked = record {
  cursors =
      record { contract = codes "0xe"; next_block = 3; last_block_hash = some (codes "0xff") } ∷ [];
  events = [];
}

scan_contract_rewinds_example : Indexes env 4 chain erc 0 3 within (omega arith) 6 1 [] forked
unfolding rewind_target rows_between rows_of decode_indexed_event decode_named normalize_address
    normalize_address_arg encode_uint256_array7 event_row serialize_raw_log bind_result
    to_lower_case lower to_decimal
scan_contract_rewinds_example =
    scan_contract_rewinds env 4 chain erc 0 3 within (omega arith) 6 2 (codes "0xff") forked
      (omega arith) (omega arith) (omega arith) refl (omega arith) refl (refl, (refl, (refl, tt)))
