-- ===== src/Onramp/Tests.antt =====
-- A concrete ledger and surroundings on which the theorems about the onramp are applied.
use benzo_main.Prelude.{
  ℕ, ◌≤◌, ◌≡◌, ◌≢◌, refl, String, Text, codes, true, false, none, some, [], ◌∷◌, ◌++◌, eq_iff,
  to_decimal, to_lower_case, lower, replicate, take, find, get_elem?,
}
use benzo_main.Service.{
  bind_result, ok, err, error, World, alone, atomic, transaction, try_catch, ◌>>=◌,
}
use benzo_main.Table.{oldest_first}
use benzo_main.Database.{burned, attested, credited, usdc, Intent, Ledger}
use benzo_main.Database.Growth.{Grows, Grows-refl}
use benzo_main.Onramp.Status.{
  can_transition, transitions, illegal_transition, assert_transition, is_terminal_status,
}
use benzo_main.Onramp.Intents.{
  IntentPatch, CreateIntentInput, no_patch, apply_patch, with_status, has_id, new_intent,
  create_intent, update_intents, transition_intent, patch_intent,
}
use benzo_main.Onramp.Intents.Transition.{
  refusal, transition_stores, transition_rejects, transition_conflict,
}
use benzo_main.Onramp.Intents.Patched.{Patched}
use benzo_main.Onramp.Intents.Create.{create_twice}
use benzo_main.Onramp.Message.{
  MessageCodec, DecodedMessage, is_hex_bytes, assert_hex_bytes, hex_byte_length, read_hex, big_int,
  read_uint32, read_uint256, read_address, decode_onramp_hook_data, decoded_fields, checked_fields,
  checked_length, decode_cctp_onramp_message,
}
use benzo_main.Onramp.Message.Layout.{FitsLayout, decode-FitsLayout}
use benzo_main.Onramp.Relayer.{
  answered, success, SettlementChain, add_gas_buffer, handle_settle_send_error, settle_deposit,
  relay,
}
use benzo_main.Onramp.Poller.{IrisMessage, PollerEnv}
use benzo_main.Onramp.Poller.Choice.{
  is_complete_iris_message, safe_decoded_nonce, has_nonce, select_iris_message, require_hex,
}
use benzo_main.Onramp.Poller.Steps.{
  attestation_patch, insert_deposit, ensure_user_for_address, mark_burned, reassociate_intent,
  advance_to_attested, move_or_patch, park_needs_onboarding, fail_intent, mark_credited,
  cctp_deposit, finalize_treasury_funding, credit_minted, credit_settled,
}
use benzo_main.Onramp.Poller.Run.{
  PollResult, count_outcome, after_refusal, settle, with_key, with_registration, for_router,
  check_recipient, with_decoded, with_complete, with_message, process_intent, poll_each,
  due_intents, poll_onramp_intents,
}
use benzo_main.Onramp.Poller.Run.Growth.{poll-Grows, poll-terminal}
use benzo_main.Onramp.Poller.Run.Batch.{outcomes, poll_counts, undecodable_blocks}

abbrev zeros : ℕ → Text
zeros n = replicate n b'0'

abbrev router_address : Text
router_address = codes "0x" ++ zeros 40

-- An amount of 5 with a fee of 1, from domain 0 to domain 0, for the router.
abbrev burn_message : Text
burn_message = codes "0x" ++ zeros 495 ++ codes "5" ++ zeros 191 ++ codes "1" ++ zeros 256

-- An ABI decoder whose every payload names one user with one key.
abbrev codec : MessageCodec
codec = record {
  get_address = λ t. ok t;
  keccak256 = λ t. take 66 t;
  decode_words = λ t. ok (codes "0xu", 7, 8);
}

abbrev chain : SettlementChain
chain = record {
  estimate_gas = λ input. answered 100;
  write_contract = λ input gas. answered (codes "0xee");
  wait_for_receipt = λ hash n. answered success;
  replay_error_selector = codes "0x12345678";
}

abbrev complete_message : Text → IrisMessage
complete_message message = record {
  message = some message;
  attestation = some (codes "0x11");
  event_nonce = none;
  status = codes "complete";
}

abbrev poller : Text → PollerEnv
poller message = record {
  now = 9;
  limit = 50;
  router = some router_address;
  relayer_private_key = some (codes "0x99");
  cctp_dest_domain = 0;
  indexer_confirmations = 2;
  funding_tokens = record { token = usdc; token_id = 1 } ∷ [];
  codec = codec;
  iris_messages = λ domain hash. ok (complete_message message ∷ []);
  resolve_user_key = λ user. ok (record { registered = true; public_key = some (7, 8) });
  amount_pct = λ amount key. ok (amount ∷ []);
  settlement = chain;
  fresh_user_id = λ address. "u2";
  fresh_deposit_id = λ id. "d1";
}

abbrev input : Text → CreateIntentInput
input hash = record {
  user_id = "u1";
  user_address = codes "0xu1";
  source_domain = 0;
  source_chain_id = 43113;
  source_tx_hash = hash;
  dest_token = usdc;
  user_pub_key_x = codes "7";
  user_pub_key_y = codes "8";
  amount = none;
  org_id = some "o1";
}

abbrev first : Intent
first = new_intent 1 "i1" (input (codes "0xAB"))

abbrev done : Intent
done = record (new_intent 2 "i2" (input (codes "0xCD"))) { status = credited }

abbrev ledger : Ledger
ledger = record { users = []; intents = first ∷ done ∷ []; deposits = [] }

-- The others take a turn before the pass reads, and write nothing.
abbrev busy : World Ledger
busy = record { state = ledger; others = (λ s. s) ∷ [] }

poll-Grows_example : Grows ledger (poll_onramp_intents (poller burn_message) busy).1.state
poll-Grows_example = poll-Grows (poller burn_message) busy (Grows-refl, tt)

poll-terminal_example :
    (y : Intent) × (get_elem? (poll_onramp_intents (poller burn_message) busy).1.state.intents 1
      ≡ some y)
    × ("i2" ≡ y.id)
    × (credited ≡ y.status)
unfolding new_intent is_terminal_status
poll-terminal_example = poll-terminal (poller burn_message) busy 1 done (Grows-refl, tt) refl refl

abbrev other_id : String
other_id = "i2"

different : other_id ≢ "i1"
different e = cc ((eq_iff other_id "i1").1 e)

abbrev with_amount : IntentPatch
with_amount = record no_patch { amount = some (codes "5"); error = some none }

transition_stores_example :
    (after : Ledger) × (y : Intent) × (transition_intent 5 "i1" burned with_amount (alone ledger)
      ≡ (ok y, alone after))
    × Patched 5 burned with_amount first y
    × (find (has_id "i1") after.intents ≡ some y)
    × (find (has_id "i2") after.intents ≡ find (has_id "i2") ledger.intents)
    × (after.users ≡ [])
    × (after.deposits ≡ [])
unfolding new_intent can_transition transitions
transition_stores_example =
    transition_stores 5 "i1" "i2" burned with_amount ledger first refl refl different

transition_rejects_example :
    transition_intent 5 "i2" burned no_patch (alone ledger)
    ≡ (err (illegal_transition credited burned), alone ledger)
unfolding new_intent refusal can_transition transitions
transition_rejects_example =
    transition_rejects 5 "i2" burned no_patch ledger (illegal_transition credited burned) refl

-- Another writer that moves every intent on.
abbrev rival : Ledger → Ledger
rival s = record s { intents = record first { status = attested } ∷ done ∷ [] }

transition_conflict_example :
    transition_intent 5 "i1" burned no_patch
      (record { state = ledger; others = (λ s. s) ∷ rival ∷ [] })
    ≡ (err (error "onramp_intent_transition_conflict"), alone (rival ledger))
unfolding new_intent can_transition transitions
transition_conflict_example =
    transition_conflict 5 "i1" burned no_patch ledger rival first refl refl refl

create_twice_example :
    (after : Ledger) × (create_intent 3 "i3" (input (codes "0xEF")) (alone ledger) ≡ (
      ok (record { intent = new_intent 3 "i3" (input (codes "0xEF")); created = true }),
      alone after,
    ))
    × (create_intent 4 "i4" (input (codes "0xef")) (alone after) ≡ (
      ok (record { intent = new_intent 3 "i3" (input (codes "0xEF")); created = false }),
      alone after,
    ))
unfolding new_intent to_lower_case lower
create_twice_example =
    create_twice 3 4 "i3" "i4" (input (codes "0xEF")) (input (codes "0xef")) ledger refl refl

abbrev decoded : DecodedMessage
decoded = record {
  amount = 5;
  burn_token = router_address;
  destination_domain = 0;
  fee_executed = 1;
  hook_data = record { user = codes "0xu"; pk_x = 7; pk_y = 8 };
  message_hash = take 66 burn_message;
  minted_amount = 4;
  mint_recipient = router_address;
  nonce = codes "0x" ++ zeros 64;
  source_domain = 0;
}

decode-FitsLayout_example : FitsLayout burn_message decoded
unfolding decode_cctp_onramp_message checked_length checked_fields decoded_fields
    decode_onramp_hook_data read_address read_uint256 read_uint32 big_int read_hex hex_byte_length
    assert_hex_bytes is_hex_bytes bind_result
decode-FitsLayout_example = decode-FitsLayout codec burn_message decoded refl

-- What a pass over the ledger counts.
abbrev counted : PollResult
counted = record {
  credited = 1;
  failed = 0;
  parked = 0;
  pending = 0;
  polled = 1;
  relayer_configured = true;
  router_configured = true;
  skipped = 0;
}

poll_counts_example : (counted.polled ≡ outcomes counted) × (counted.polled ≤ 50)
unfolding to_decimal poll_onramp_intents due_intents oldest_first poll_each process_intent
    with_message with_complete with_decoded check_recipient for_router with_registration with_key
    settle after_refusal count_outcome relay settle_deposit handle_settle_send_error add_gas_buffer
    require_hex select_iris_message has_nonce safe_decoded_nonce is_complete_iris_message
    attestation_patch insert_deposit ensure_user_for_address mark_burned reassociate_intent
    advance_to_attested move_or_patch park_needs_onboarding fail_intent mark_credited cctp_deposit
    finalize_treasury_funding credit_minted credit_settled new_intent transition_intent patch_intent
    update_intents with_status apply_patch assert_transition can_transition transitions
    is_terminal_status illegal_transition to_lower_case lower atomic transaction try_catch ◌>>=◌
    decode_cctp_onramp_message checked_length checked_fields decoded_fields decode_onramp_hook_data
    read_address read_uint256 read_uint32 big_int read_hex hex_byte_length assert_hex_bytes
    is_hex_bytes bind_result
poll_counts_example =
    poll_counts (poller burn_message) counted busy
      (poll_onramp_intents (poller burn_message) busy).1 refl

-- Complete, and too short to be a message.
abbrev short_message : Text
short_message = codes "0x00"

undecodable_blocks_example :
    poll_onramp_intents (poller short_message) (alone ledger)
    ≡ (err (error "cctp_message_too_short"), alone ledger)
unfolding due_intents oldest_first new_intent select_iris_message is_complete_iris_message
    require_hex decode_cctp_onramp_message checked_length hex_byte_length assert_hex_bytes
    is_hex_bytes to_lower_case lower bind_result
undecodable_blocks_example =
    undecodable_blocks (poller short_message) ledger first [] (complete_message short_message ∷ [])
      (complete_message short_message) short_message (codes "0x11") (error "cctp_message_too_short")
      refl refl refl refl refl refl refl refl refl refl
