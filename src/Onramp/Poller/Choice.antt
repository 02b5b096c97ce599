-- ===== src/Onramp/Poller/Choice.antt =====
-- Which Iris message belongs to an intent: `selectIrisMessage`, `isCompleteIrisMessage`,
-- `safeDecodedNonce`, `requireHex` and `isHexBytes` of onramp/poller.ts.
use Prim.Native.String
use benzo_main.Prelude.{
  String, Text, codes, Bool, false, Option, none, some, List, [], ◌∷◌, ◌||◌, text_eq, find,
  head_or_none, to_lower_case, if◌then◌else◌,
}
use benzo_main.Service.{Result, ok, err, error}
use benzo_main.Database.{Intent}
use benzo_main.Onramp.Message.{
  DecodedMessage, MessageCodec, is_hex_bytes, decode_cctp_onramp_message,
}
use benzo_main.Onramp.Poller.{IrisMessage}

unfoldable pub is_complete_iris_message : IrisMessage → Bool
is_complete_iris_message m = text_eq (to_lower_case m.status) (codes "complete")

abbrev nonce_or_none : Result DecodedMessage → Option Text
nonce_or_none (ok d) = some (to_lower_case d.nonce)
nonce_or_none (err e) = none

-- A message that does not decode has no nonce.
unfoldable pub safe_decoded_nonce : MessageCodec → Option Text → Option Text
safe_decoded_nonce codec none = none
safe_decoded_nonce codec (some []) = none
safe_decoded_nonce codec (some (c ∷ s)) =
    if is_hex_bytes (c ∷ s) then nonce_or_none (decode_cctp_onramp_message codec (c ∷ s)) else none

abbrev is_text : Text → Option Text → Bool
is_text expected none = false
is_text expected (some t) = text_eq t expected

abbrev is_lowered : Text → Option Text → Bool
is_lowered expected none = false
is_lowered expected (some t) = text_eq (to_lower_case t) expected

unfoldable pub has_nonce : MessageCodec → Text → IrisMessage → Bool
has_nonce codec expected m =
    is_lowered expected m.event_nonce || is_text expected (safe_decoded_nonce codec m.message)

abbrev first_or : Option IrisMessage → List IrisMessage → Option IrisMessage
first_or (some m) ms = some m
first_or none ms = head_or_none ms

-- By its nonce where the intent has one; else the first complete one, or the first.
choose_by : MessageCodec → Option Text → List IrisMessage → Option IrisMessage
choose_by codec none ms = first_or (find is_complete_iris_message ms) ms
choose_by codec (some []) ms = first_or (find is_complete_iris_message ms) ms
choose_by codec (some (c ∷ s)) ms = find (has_nonce codec (to_lower_case (c ∷ s))) ms

unfoldable pub select_iris_message : MessageCodec → Intent → List IrisMessage → Option IrisMessage
unfolding choose_by
select_iris_message codec intent [] = none
select_iris_message codec intent (m ∷ ms) = choose_by codec intent.cctp_nonce (m ∷ ms)

unfoldable pub require_hex : Option Text → String → Result Text
require_hex none label = err (error (String.◌++◌ "iris_" (String.◌++◌ label "_missing")))
require_hex (some []) label = err (error (String.◌++◌ "iris_" (String.◌++◌ label "_missing")))
require_hex (some (c ∷ s)) label =
    if is_hex_bytes (c ∷ s) then ok (c ∷ s) else err (error (String.◌++◌ "invalid_iris_" label))
