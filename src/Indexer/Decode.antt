-- ===== src/Indexer/Decode.antt =====
-- From a log to a row of `events`: `decodeIndexedEvent`, `serializeRawLog` and their helpers of
-- indexer/scanner.ts.
use benzo_main.Prelude.{
  ◌*◌, String, Text, Option, none, some, List, [], ◌∷◌, map, length, drop, ◌==◌, str_eq,
  to_lower_case, to_decimal, if◌then◌else◌,
}
use benzo_main.Service.{Result, ok, err, error, bind_result}
use benzo_main.Indexer.{
  ChainBlock, ChainLog, EventArg, text, numbers, other, DecodedLog, IndexedContract, IndexerEnv,
  RawLog, Event,
}

pub record DecodedEvent : Type 0 where
  pub amount_pct : Option Text
  pub ciphertext : List Text
  pub event_name : String
  pub from_addr : Option Text
  pub to_addr : Option Text

-- `args.name`
abbrev arg : String → List (String × EventArg) → Option EventArg
arg name [] = none
arg name ((key, value) ∷ args) = if str_eq key name then some value else arg name args

unfoldable pub serialize_raw_log : ChainLog → RawLog
serialize_raw_log log = record {
  address = to_lower_case log.address;
  block_hash = to_lower_case log.block_hash;
  block_number = to_decimal log.block_number;
  data_hex = to_lower_case log.data_hex;
  log_index = log.log_index;
  topics = map to_lower_case log.topics;
  transaction_hash = to_lower_case log.transaction_hash;
  transaction_index = log.transaction_index;
}

module _ (env : IndexerEnv) where
  unfoldable pub normalize_address : Text → Result Text
  normalize_address address = bind_result (env.get_address address) λ a. ok (to_lower_case a)

  unfoldable pub normalize_address_arg : Option EventArg → Result Text
  normalize_address_arg (some (text t)) =
      if env.is_address t
      then normalize_address t
      else err (error "expected address event argument")
  normalize_address_arg (some (numbers ns)) = err (error "expected address event argument")
  normalize_address_arg (some other) = err (error "expected address event argument")
  normalize_address_arg none = err (error "expected address event argument")

  unfoldable pub encode_uint256_array7 : Option EventArg → Result Text
  encode_uint256_array7 (some (numbers ns)) =
      if length ns == 7
      then ok (drop 2 (env.encode_abi_parameters ns))
      else err (error "expected uint256[7] event argument")
  encode_uint256_array7 (some (text t)) = err (error "expected uint256[7] event argument")
  encode_uint256_array7 (some other) = err (error "expected uint256[7] event argument")
  encode_uint256_array7 none = err (error "expected uint256[7] event argument")

  -- The object that a case of the `switch` returns; its fields in the order of the source.
  abbrev event_of :
      String
      → Result (Option Text)
      → Result (Option Text)
      → Result (Option Text)
      → Result (Option DecodedEvent)
  event_of name amount from to = bind_result amount λ a. bind_result from λ f. bind_result to λ t.
      ok (
        some (record {
          amount_pct = a;
          ciphertext = [];
          event_name = name;
          from_addr = f;
          to_addr = t;
        }))

  abbrev given : Result Text → Result (Option Text)
  given (ok t) = ok (some t)
  given (err e) = err e

  -- The body of the `try`, once viem has decoded the log.
  unfoldable pub decode_named : DecodedLog → Result (Option DecodedEvent)
  decode_named d =
      let amount = given (encode_uint256_array7 (arg "auditorPCT" d.args)) in
      let address = λ (name : String). given (normalize_address_arg (arg name d.args)) in
      if str_eq d.event_name "PrivateTransfer"
      then event_of d.event_name amount (address "from") (address "to")
      else if str_eq d.event_name "PrivateMint"
      then event_of d.event_name amount (ok none) (address "user")
      else if str_eq d.event_name "PrivateBurn"
      then event_of d.event_name amount (address "user") (ok none)
      else if str_eq d.event_name "Withdraw"
      then event_of d.event_name amount (address "user") (address "user")
      else if str_eq d.event_name "Deposit"
      then event_of d.event_name (ok none) (address "user") (address "user")
      else if str_eq d.event_name "Register"
      then event_of d.event_name (ok none) (address "user") (address "user")
      else if str_eq d.event_name "AuditorChanged"
      then event_of d.event_name (ok none) (address "oldAuditor") (address "newAuditor")
      else ok none

  -- Whatever is thrown, the log is passed over.
  abbrev caught : Result (Option DecodedEvent) → Option DecodedEvent
  caught (ok d) = d
  caught (err e) = none

  unfoldable pub decode_indexed_event : IndexedContract → ChainLog → Option DecodedEvent
  decode_indexed_event contract log =
      caught (bind_result (env.decode_event_log contract.name log) decode_named)

  -- The row that `scanWindow` pushes.
  unfoldable pub event_row : Text → ChainLog → DecodedEvent → ChainBlock → Event
  event_row contract_address log decoded block = record {
    tx_hash = to_lower_case log.transaction_hash;
    log_index = log.log_index;
    transaction_index = log.transaction_index;
    block_number = log.block_number;
    block_hash = to_lower_case log.block_hash;
    block_time = block.timestamp * 1000;
    contract = contract_address;
    event_name = decoded.event_name;
    from_addr = decoded.from_addr;
    to_addr = decoded.to_addr;
    ciphertext = decoded.ciphertext;
    amount_pct = decoded.amount_pct;
    raw_log = serialize_raw_log log;
    indexed_at = env.now;
  }
