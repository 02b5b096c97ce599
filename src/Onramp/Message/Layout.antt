-- ===== src/Onramp/Message/Layout.antt =====
-- What a decoded CCTP message tells of its bytes.
use benzo_main.Prelude.{ℕ, ◌+◌, ◌-◌, ◌<◌, ◌≡◌, ap, Text, true, arith, Bool-cases, inl, inr}
use benzo_main.Service.{ok, bind_result-eq-ok, ok-injective}
use benzo_main.Onramp.Message.{
  MessageCodec, DecodedMessage, is_hex_bytes, hex_byte_length, read_uint256, assert_hex_bytes,
  checked_length, checked_fields, decoded_fields, decode_cctp_onramp_message,
}

-- The bounds of a message that decodes.
pub record FitsLayout (message : Text) (d : DecodedMessage) : Type 0 where
  pub hexadecimal : is_hex_bytes message ≡ true
  pub size : hex_byte_length message ≡ 472
  pub amount_read : d.amount ≡ read_uint256 message 216
  pub fee_read : d.fee_executed ≡ read_uint256 message 312
  pub minted : d.minted_amount + d.fee_executed ≡ d.amount
  pub positive : 0 < d.minted_amount

assert_hex_bytes-ok :
    (message : Text) {u : Unit {0}}
    → assert_hex_bytes message "cctp_message" ≡ ok u
    → is_hex_bytes message ≡ true
unfolding assert_hex_bytes
assert_hex_bytes-ok message h = elim (Bool-cases (is_hex_bytes message)) [
  | inl hex ↦ hex
  | inr other ↦ cc (rw other at h)
]

module _ (codec : MessageCodec) where
  decoded_amounts :
      (message : Text) (amount fee : ℕ) (d : DecodedMessage)
      → decoded_fields codec message amount fee ≡ ok d
      → (amount ≡ d.amount) × (fee ≡ d.fee_executed) × (amount - fee ≡ d.minted_amount)
  unfolding decoded_fields
  decoded_amounts message amount fee d h =
      let (burn_token, _, h1) = bind_result-eq-ok _ _ h in
      let (hook_data, _, h2) = bind_result-eq-ok _ _ h1 in
      let (mint_recipient, _, h3) = bind_result-eq-ok _ _ h2 in
      let e = ok-injective h3 in
      (
        ap (λ (x : DecodedMessage). x.amount) e,
        ap (λ (x : DecodedMessage). x.fee_executed) e,
        ap (λ (x : DecodedMessage). x.minted_amount) e,
      )

  checked_fields-amounts :
      (message : Text) (d : DecodedMessage)
      → checked_fields codec message ≡ ok d
      → (d.amount ≡ read_uint256 message 216)
        × (d.fee_executed ≡ read_uint256 message 312)
        × (d.minted_amount + d.fee_executed ≡ d.amount)
        × (0 < d.minted_amount)
  unfolding checked_fields
  checked_fields-amounts message d h =
      ground
        (arith, decoded_amounts message (read_uint256 message 216) (read_uint256 message 312) d)

  checked_length-size :
      (message : Text) (d : DecodedMessage)
      → checked_length codec message ≡ ok d
      → (hex_byte_length message ≡ 472) × (checked_fields codec message ≡ ok d)
  unfolding checked_length
  checked_length-size message d h = ground arith

  -- A message decodes only if it is hexadecimal text of exactly 472 bytes whose fee is below its
  -- amount; the minted amount is what is left, and is positive.
  pub decode-FitsLayout :
      (message : Text) (d : DecodedMessage)
      → decode_cctp_onramp_message codec message ≡ ok d
      → FitsLayout message d
  unfolding decode_cctp_onramp_message
  decode-FitsLayout message d h =
      let (_, hex, rest) = bind_result-eq-ok _ _ h in
      let (size, fields) = checked_length-size message d rest in
      let (amount, fee, sum, positive) = checked_fields-amounts message d fields in
      record {
        hexadecimal = assert_hex_bytes-ok message hex;
        size = size;
        amount_read = amount;
        fee_read = fee;
        minted = sum;
        positive = positive;
      }
