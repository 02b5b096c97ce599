-- ===== src/Onramp/Poller.antt =====
-- The poller, onramp/poller.ts: one pass over the intents that are not settled. What lies outside
-- (Circle's Iris service, the chain, Poseidon encryption, ids and the clock) is a `PollerEnv`.
pub mod Choice
pub mod Steps
pub mod Run
use benzo_main.Prelude.{
  ℕ, ◌+◌, ◌≡◌, String, Text, codes, Bool, true, false, Option, none, some, List, [], ◌∷◌, ◌++◌,
  ◌&&◌, ◌||◌, not, ◌==◌, text_eq, str_eq, find, any, select, take, to_lower_case, to_decimal,
  if◌then◌else◌,
}
use benzo_main.Service.{Action, Result, Exn, ok, err, error, pure, throw, lift, ◌>>=◌, ◌>>◌}
use benzo_main.Database.{OnrampStatus, DestToken, Intent, Ledger}
use benzo_main.Onramp.Message.{HookData, DecodedMessage, MessageCodec, decode_cctp_onramp_message}
use benzo_main.Onramp.Relayer.{SettlementChain}

-- What Iris tells of a burn.
pub record IrisMessage : Type 0 where
  pub message : Option Text
  pub attestation : Option Text
  pub event_nonce : Option Text
  pub status : Text

-- `OnrampUserKey`
pub record UserKey : Type 0 where
  pub registered : Bool
  pub public_key : Option (ℕ × ℕ)

-- An entry of `config.treasuryFundingTokens`.
pub record FundingToken : Type 0 where
  pub token : DestToken
  pub token_id : ℕ

pub record PollerEnv : Type 0 where
  pub now : ℕ
  pub limit : ℕ
  pub router : Option Text
  pub relayer_private_key : Option Text
  pub cctp_dest_domain : ℕ
  pub indexer_confirmations : ℕ
  pub funding_tokens : List FundingToken
  pub codec : MessageCodec
  pub iris_messages : ℕ → Text → Result (List IrisMessage)
  pub resolve_user_key : Text → Result UserKey
  pub amount_pct : ℕ → ℕ × ℕ → Result (List ℕ)
  pub settlement : SettlementChain
  pub fresh_user_id : Text → String
  pub fresh_deposit_id : String → String

pub data PollOutcome : Type 0 where
  credited failed parked pending skipped : PollOutcome

-- A text that is neither null nor empty.
abbrev pub truthy : Option Text → Option Text
truthy none = none
truthy (some []) = none
truthy (some (c ∷ s)) = some (c ∷ s)

abbrev pub is_truthy : Option Text → Bool
is_truthy none = false
is_truthy (some []) = false
is_truthy (some (c ∷ s)) = true

-- `left ?? right`
abbrev pub either_text : Option Text → Option Text → Option Text
either_text none right = right
either_text (some t) right = some t
