-- ===== src/Disclosure.antt =====
-- The disclosure of a transfer, backend/services/api/src/disclosure/verify.ts, with the choice of the
-- auditor's key, auditor/service.ts. The curve, the decryption, the ABI decoder and the checksum of
-- addresses are arguments. Bytes are kept as their hexadecimal digits.
pub mod Cover
pub mod Verified
mod Tests
use benzo_main.Prelude.{
  ℕ, String, Text, Bool, true, false, not, Option, none, some, List, [], ◌∷◌, ◌&&◌, ltb, ◌==◌,
  text_eq, to_lower_case, to_decimal, decimal_value, find, if◌then◌else◌,
}
use benzo_main.Service.{Result, ok, err, error, bind_result}
use benzo_main.Indexer.{Event}

pub record AuditorKey : Type 0 where
  pub id : String
  pub public_key_x : Text
  pub public_key_y : Text
  pub activated_block_number : ℕ
  pub activated_log_index : Option ℕ
  pub activated_transaction_index : Option ℕ
  pub retired_block_number : Option ℕ
  pub retired_log_index : Option ℕ
  pub retired_transaction_index : Option ℕ
  pub rotation_tx_hash : Option Text

-- The sign of a difference.
pub data Order : Type 0 where
  before same after : Order

abbrev pub compare_to : ℕ → ℕ → Order
compare_to a b = if ltb a b then before else if ltb b a then after else same

abbrev pub by_transaction : Bool → Option ℕ → Option ℕ → Result Order
by_transaction requires_position (some boundary) (some index) = ok (compare_to index boundary)
by_transaction requires_position none index =
    if requires_position then err (error "auditor_key_ambiguous_for_event") else ok same
by_transaction requires_position (some boundary) none =
    if requires_position then err (error "auditor_key_ambiguous_for_event") else ok same

abbrev pub in_block : Event → Option ℕ → Bool → Option ℕ → Result Order
in_block row (some log_index) requires_position transaction_index =
    ok (compare_to row.log_index log_index)
in_block row none requires_position transaction_index =
    by_transaction requires_position transaction_index row.transaction_index

unfoldable pub compare_event_to_boundary : Event → ℕ → Option ℕ → Bool → Option ℕ → Result Order
compare_event_to_boundary row block_number log_index requires_position transaction_index =
    if ltb row.block_number block_number
    then ok before
    else if ltb block_number row.block_number
    then ok after
    else in_block row log_index requires_position transaction_index

abbrev pub not_before : Order → Bool
not_before before = false
not_before same = true
not_before after = true

abbrev pub is_rotated : Option Text → Bool
is_rotated none = false
is_rotated (some hash) = true

unfoldable pub is_at_or_after_activation : AuditorKey → Event → Result Bool
is_at_or_after_activation key row =
    bind_result
      (compare_event_to_boundary row key.activated_block_number key.activated_log_index
        (is_rotated key.rotation_tx_hash) key.activated_transaction_index)
      λ order. ok (not_before order)

abbrev pub before_block : AuditorKey → Event → Option ℕ → Result Bool
before_block key row none = ok true
before_block key row (some retired) =
    bind_result
      (compare_event_to_boundary row retired key.retired_log_index true
        key.retired_transaction_index)
      λ order. ok (not (not_before order))

unfoldable pub is_before_retirement : AuditorKey → Event → Result Bool
is_before_retirement key row = before_block key row key.retired_block_number

unfoldable pub key_covers_event : AuditorKey → Event → Result Bool
key_covers_event key row =
    bind_result (is_at_or_after_activation key row)
      λ active. if active then is_before_retirement key row else ok false

abbrev pub key_if : AuditorKey → Result (Option AuditorKey) → Bool → Result (Option AuditorKey)
key_if key rest true = ok (some key)
key_if key rest false = rest

unfoldable pub find_key_for_event : List AuditorKey → Event → Result (Option AuditorKey)
find_key_for_event [] row = ok none
find_key_for_event (key ∷ keys) row =
    bind_result (key_covers_event key row) (key_if key (find_key_for_event keys row))

pub record DisclosureReveal : Type 0 where
  pub claimed_amount : ℕ
  pub enc_random : ℕ
  pub from : Option Text
  pub to : Option Text

-- The ABI-decoded PCT: the ciphertext, the key's two coordinates and the nonce.
pub record AuditorPct : Type 0 where
  pub ciphertext : List ℕ
  pub auth_key : ℕ × ℕ
  pub nonce : ℕ

pub record DisclosureEnv : Type 0 where
  pub decode_auditor_pct : Text → Result AuditorPct
  pub base8 : ℕ × ℕ
  pub mul_point_escalar : ℕ × ℕ → ℕ → ℕ × ℕ
  pub poseidon_decrypt : List ℕ → ℕ × ℕ → ℕ → Result (Option ℕ)
  pub is_address : Text → Bool
  pub get_address : Text → Text

pub data DisclosureVerification : Type 0 where
  unverified : String → DisclosureVerification
  verified : ℕ → AuditorKey → Event → DisclosureVerification

pub data Recovered : Type 0 where
  recovered : ℕ → Recovered
  unrecovered : String → Recovered

abbrev pub of_decryption : Result (Option ℕ) → Recovered
of_decryption (ok (some amount)) = recovered amount
of_decryption (ok none) = unrecovered "decrypt_failed"
of_decryption (err e) = unrecovered "decrypt_failed"

abbrev pub same_point : ℕ × ℕ → ℕ × ℕ → Bool
same_point p q = p.0 == q.0 && p.1 == q.1

abbrev pub is_event : Text → ℕ → Event → Bool
is_event tx_hash log_index row =
    text_eq row.tx_hash (to_lower_case tx_hash) && row.log_index == log_index

abbrev pub public_key : AuditorKey → ℕ × ℕ
public_key key = (decimal_value key.public_key_x, decimal_value key.public_key_y)

module _ (env : DisclosureEnv) where
  abbrev pub recover_from : ℕ × ℕ → ℕ → Result AuditorPct → Recovered
  recover_from auditor enc_random (err e) = unrecovered "invalid_auditor_pct"
  recover_from auditor enc_random (ok pct) =
      if same_point (env.mul_point_escalar env.base8 enc_random) pct.auth_key
      then of_decryption
          (env.poseidon_decrypt pct.ciphertext (env.mul_point_escalar auditor enc_random) pct.nonce)
      else unrecovered "auth_key_mismatch"

  unfoldable pub recover_disclosed_amount : Text → ℕ × ℕ → ℕ → Recovered
  recover_disclosed_amount amount_pct auditor enc_random =
      recover_from auditor enc_random (env.decode_auditor_pct amount_pct)

  -- `normalizeAddress` of disclosure/address.ts
  unfoldable pub normalize_address : Text → Option Text
  normalize_address address =
      if env.is_address address then some (to_lower_case (env.get_address address)) else none

  abbrev pub same_address : Option Text → Option Text → Bool
  same_address none stored = false
  same_address (some a) none = false
  same_address (some a) (some b) = text_eq a b

  -- A counterparty that is claimed is the one of the event.
  abbrev pub agrees : Option Text → Option Text → Bool
  agrees none stored = true
  agrees (some claimed) stored = same_address (normalize_address claimed) stored

  abbrev pub check_recovered :
      DisclosureReveal → Event → AuditorKey → Recovered → DisclosureVerification
  check_recovered reveal row key (unrecovered reason) = unverified reason
  check_recovered reveal row key (recovered amount) =
      if not (amount == reveal.claimed_amount)
      then unverified "amount_mismatch"
      else if not (agrees reveal.from row.from_addr)
      then unverified "from_mismatch"
      else if not (agrees reveal.to row.to_addr)
      then unverified "to_mismatch"
      else verified amount key row

  abbrev pub with_auditor_key :
      DisclosureReveal → Event → Text → Option AuditorKey → Result DisclosureVerification
  with_auditor_key reveal row pct none = ok (unverified "auditor_key_missing")
  with_auditor_key reveal row pct (some key) = ok (
      check_recovered reveal row key
        (recover_disclosed_amount pct (public_key key) reveal.enc_random))

  abbrev pub with_pct :
      List AuditorKey → DisclosureReveal → Event → Option Text → Result DisclosureVerification
  with_pct keys reveal row none = ok (unverified "event_not_encrypted")
  with_pct keys reveal row (some pct) =
      bind_result (find_key_for_event keys row) (with_auditor_key reveal row pct)

  abbrev pub with_event :
      List AuditorKey → DisclosureReveal → Option Event → Result DisclosureVerification
  with_event keys reveal none = ok (unverified "event_not_found")
  with_event keys reveal (some row) = with_pct keys reveal row row.amount_pct

  -- `verifyDisclosure`, on the tables of events and of keys.
  unfoldable pub verify_disclosure :
      List Event → List AuditorKey → Text → ℕ → DisclosureReveal → Result DisclosureVerification
  verify_disclosure events keys tx_hash log_index reveal =
      with_event keys reveal (find (is_event tx_hash log_index) events)
