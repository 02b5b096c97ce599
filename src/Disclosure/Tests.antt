-- ===== src/Disclosure/Tests.antt =====
-- A transfer that its sender reveals, on which the theorem about disclosures is applied.
use benzo_main.Prelude.{◌*◌, refl, codes, true, none, some, [], ◌∷◌, to_lower_case, lower}
use benzo_main.Service.{ok, bind_result}
use benzo_main.Indexer.{Event}
use benzo_main.Disclosure.{
  AuditorKey, DisclosureReveal, DisclosureEnv, verify_disclosure, find_key_for_event,
  key_covers_event, is_at_or_after_activation, is_before_retirement, compare_event_to_boundary,
  recover_disclosed_amount, normalize_address,
}
use benzo_main.Disclosure.Verified.{Discloses, verify_disclosure-Discloses}

abbrev env : DisclosureEnv
env = record {
  decode_auditor_pct = λ pct. ok (record { ciphertext = 7 ∷ []; auth_key = (4, 8); nonce = 1 });
  base8 = (2, 4);
  mul_point_escalar = λ p n. (p.0 * n, p.1 * n);
  poseidon_decrypt = λ cipher key nonce. ok (some 7);
  is_address = λ a. true;
  get_address = λ a. a;
}

abbrev key : AuditorKey
key = record {
  id = "k1";
  public_key_x = codes "1";
  public_key_y = codes "2";
  activated_block_number = 3;
  activated_log_index = none;
  activated_transaction_index = none;
  retired_block_number = none;
  retired_log_index = none;
  retired_transaction_index = none;
  rotation_tx_hash = none;
}

abbrev transfer : Event
transfer = record {
  tx_hash = codes "0xab";
  log_index = 2;
  transaction_index = none;
  block_number = 5;
  block_hash = codes "0xb";
  block_time = 0;
  contract = codes "0xe";
  event_name = "PrivateTransfer";
  from_addr = some (codes "0x1");
  to_addr = some (codes "0x2");
  ciphertext = [];
  amount_pct = some (codes "00");
  raw_log = record {
    address = codes "0xe";
    block_hash = codes "0xb";
    block_number = codes "5";
    data_hex = [];
    log_index = 2;
    topics = [];
    transaction_hash = codes "0xab";
    transaction_index = none;
  };
  indexed_at = 0;
}

abbrev reveal : DisclosureReveal
reveal = record { claimed_amount = 7; enc_random = 2; from = some (codes "0x1"); to = none }

verify_disclosure-Discloses_example :
    Discloses env reveal (transfer ∷ []) (key ∷ []) (codes "0xAB") 2 7 key transfer
unfolding verify_disclosure find_key_for_event key_covers_event is_at_or_after_activation
    is_before_retirement compare_event_to_boundary recover_disclosed_amount normalize_address
    bind_result to_lower_case lower
verify_disclosure-Discloses_example =
    verify_disclosure-Discloses env reveal (transfer ∷ []) (key ∷ []) (codes "0xAB") 2 7 key
      transfer refl
