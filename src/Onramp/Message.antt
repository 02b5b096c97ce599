-- ===== src/Onramp/Message.antt =====
-- The CCTP V2 message of an onramp, onramp/message.ts, over its hexadecimal text. What viem does
-- (checksummed addresses, keccak256, ABI decoding of the hook data) is given by `MessageCodec`.
pub mod Layout
use benzo_main.Prelude.{
  ℕ, ◌+◌, ◌*◌, ◌-◌, ◌/◌, ◌^◌, String, Text, codes, Bool, true, false, List, [], ◌∷◌, ◌++◌, ◌&&◌,
  ◌||◌, ltb, leb, ◌==◌, length, take, drop, if◌then◌else◌,
}
use benzo_main.Service.{Result, ok, err, error, bind_result}
use Prim.Native.String

-- `OnrampHookData`
pub record HookData : Type 0 where
  pub user : Text
  pub pk_x : ℕ
  pub pk_y : ℕ

pub record DecodedMessage : Type 0 where
  pub amount : ℕ
  pub burn_token : Text
  pub destination_domain : ℕ
  pub fee_executed : ℕ
  pub hook_data : HookData
  pub message_hash : Text
  pub minted_amount : ℕ
  pub mint_recipient : Text
  pub nonce : Text
  pub source_domain : ℕ

-- viem's `getAddress`, `keccak256` and `decodeAbiParameters` at (address, uint256, uint256).
pub record MessageCodec : Type 0 where
  pub get_address : Text → Result Text
  pub keccak256 : Text → Text
  pub decode_words : Text → Result (Text × ℕ × ℕ)

abbrev pub message_body_index : ℕ
message_body_index = 148

abbrev pub burn_message_hook_data_index : ℕ
burn_message_hook_data_index = 228

abbrev pub hook_data_length : ℕ
hook_data_length = 96

abbrev max_uint160 : ℕ
max_uint160 = 2 ^ 160 - 1

abbrev source_domain_index : ℕ
source_domain_index = 4

abbrev destination_domain_index : ℕ
destination_domain_index = 8

abbrev nonce_index : ℕ
nonce_index = 12

abbrev burn_token_index : ℕ
burn_token_index = 4

abbrev mint_recipient_index : ℕ
mint_recipient_index = 36

abbrev amount_index : ℕ
amount_index = 68

abbrev fee_executed_index : ℕ
fee_executed_index = 164

-- `[0-9a-fA-F]`
abbrev pub is_hex_digit : ℕ → Bool
is_hex_digit c =
    (leb b'0' c && leb c b'9') || ((leb b'a' c && leb c b'f') || (leb b'A' c && leb c b'F'))

-- `(?:[0-9a-fA-F]{2})*`
abbrev pub is_hex_pairs : Text → Bool
is_hex_pairs [] = true
is_hex_pairs (a ∷ []) = false
is_hex_pairs (a ∷ b ∷ s) = is_hex_digit a && is_hex_digit b && is_hex_pairs s

-- `/^0x(?:[0-9a-fA-F]{2})*$/`
unfoldable pub is_hex_bytes : Text → Bool
is_hex_bytes (a ∷ b ∷ s) = (a == b'0') && (b == b'x') && is_hex_pairs s
is_hex_bytes s = false

unfoldable pub assert_hex_bytes : Text → String → Result (Unit {0})
assert_hex_bytes value label =
    if is_hex_bytes value then ok tt else err (error (String.◌++◌ "invalid_" label))

unfoldable pub hex_byte_length : Text → ℕ
hex_byte_length value = (length value - 2) / 2

-- `value.slice(start, end)`
abbrev pub slice : Text → ℕ → ℕ → Text
slice value start end = take (end - start) (drop start value)

unfoldable pub read_hex : Text → ℕ → ℕ → Text
read_hex value offset count =
    let start = 2 + offset * 2 in b'0' ∷ b'x' ∷ slice value start (start + count * 2)

abbrev pub digit_value : ℕ → ℕ
digit_value c = if leb c b'9' then c - b'0' else if leb c b'F' then c - b'A' + 10 else c - b'a' + 10

abbrev pub value_from : ℕ → Text → ℕ
value_from acc [] = acc
value_from acc (c ∷ s) = value_from (acc * 16 + digit_value c) s

-- `BigInt("0x…")`, on hexadecimal digits
unfoldable pub big_int : Text → ℕ
big_int s = value_from 0 (drop 2 s)

unfoldable pub read_uint32 : Text → ℕ → ℕ
unfolding big_int read_hex
read_uint32 value offset = big_int (read_hex value offset 4)

unfoldable pub read_uint256 : Text → ℕ → ℕ
unfolding big_int read_hex
read_uint256 value offset = big_int (read_hex value offset 32)

module _ (codec : MessageCodec) where
  -- `0x${raw.slice(-40)}`
  unfoldable pub read_address : Text → ℕ → String → Result Text
  unfolding big_int read_hex
  read_address value offset label =
      let raw = read_hex value offset 32 in
      if ltb max_uint160 (big_int raw)
      then err (error (String.◌++◌ "invalid_cctp_" label))
      else codec.get_address (b'0' ∷ b'x' ∷ drop (length raw - 40) raw)

  abbrev hook_data_of : Text × ℕ × ℕ → Result HookData
  hook_data_of (user, pk_x, pk_y) =
      bind_result (codec.get_address user) λ u. ok (record { user = u; pk_x = pk_x; pk_y = pk_y })

  -- `decodeOnrampHookData` of onramp/hookdata.ts
  unfoldable pub decode_onramp_hook_data : Text → Result HookData
  decode_onramp_hook_data hex = bind_result (codec.decode_words hex) hook_data_of

  -- The object that is returned, its fields in the order in which they are computed.
  unfoldable pub decoded_fields : Text → ℕ → ℕ → Result DecodedMessage
  decoded_fields message amount fee =
      let start = message_body_index + burn_message_hook_data_index in
      bind_result (read_address message (message_body_index + burn_token_index) "burn_token")
        λ burn_token.
          bind_result (decode_onramp_hook_data (read_hex message start hook_data_length))
            λ hook_data.
              bind_result
                (read_address message (message_body_index + mint_recipient_index) "mint_recipient")
                λ mint_recipient. ok (record {
                  amount = amount;
                  burn_token = burn_token;
                  destination_domain = read_uint32 message destination_domain_index;
                  fee_executed = fee;
                  hook_data = hook_data;
                  message_hash = codec.keccak256 message;
                  minted_amount = amount - fee;
                  mint_recipient = mint_recipient;
                  nonce = read_hex message nonce_index 32;
                  source_domain = read_uint32 message source_domain_index;
                })

  unfoldable pub checked_fields : Text → Result DecodedMessage
  checked_fields message =
      let amount = read_uint256 message (message_body_index + amount_index) in
      let fee = read_uint256 message (message_body_index + fee_executed_index) in
      if leb amount fee
      then err (error "cctp_fee_exceeds_amount")
      else decoded_fields message amount fee

  unfoldable pub checked_length : Text → Result DecodedMessage
  checked_length message =
      let size = hex_byte_length message in
      let start = message_body_index + burn_message_hook_data_index in
      if ltb size message_body_index
      then err (error "cctp_message_too_short")
      else if ltb size start
      then err (error "cctp_burn_message_too_short")
      else if size - start == hook_data_length
      then checked_fields message
      else err (error "cctp_invalid_hook_data_length")

  unfoldable pub decode_cctp_onramp_message : Text → Result DecodedMessage
  decode_cctp_onramp_message message =
      bind_result (assert_hex_bytes message "cctp_message") λ _. checked_length message
