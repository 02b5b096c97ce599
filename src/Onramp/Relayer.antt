-- ===== src/Onramp/Relayer.antt =====
-- The settlement of an attested deposit, onramp/relayer.ts. The chain client (viem) is a
-- parameter: what its three calls answer, and what its `walk` finds of a contract's revert.
use benzo_main.Prelude.{
  ℕ, ◌*◌, ◌/◌, String, Text, Bool, true, false, Option, none, some, List, ◌||◌, str_eq, text_eq,
  take, if◌then◌else◌,
}
use benzo_main.Service.{
  Result, ok, err, recipient_not_registered, relayer_unavailable, settle_retryable,
}

-- The fields of a `ContractFunctionRevertedError` that the code reads.
pub record Revert : Type 0 where
  pub error_name : Option String
  pub raw : Option Text

-- A call of the chain client: an answer, or a throw with the revert that it carries, if any.
pub data Attempt (A : Type 0) : Type 0 where
  answered : A → Attempt A
  threw : Option Revert → Attempt A

pub data ReceiptStatus : Type 0 where
  success reverted : ReceiptStatus

pub record SettleDepositInput : Type 0 where
  pub amount_pct : List ℕ
  pub attestation : Text
  pub confirmations : Option ℕ
  pub message : Text

pub record SettleDepositResult : Type 0 where
  pub already_settled : Bool
  pub tx_hash : Option Text

-- The chain client bound to the relayer's account and the router.
pub record SettlementChain : Type 0 where
  pub estimate_gas : SettleDepositInput → Attempt ℕ
  pub write_contract : SettleDepositInput → ℕ → Attempt Text
  pub wait_for_receipt : Text → ℕ → Attempt ReceiptStatus
  pub replay_error_selector : Text

is_replay_name : Option String → Bool
is_replay_name none = false
is_replay_name (some name) = str_eq name "CctpNonceAlreadyUsed"

is_replay_raw : Text → Option Text → Bool
is_replay_raw selector none = false
is_replay_raw selector (some raw) = text_eq (take 10 raw) selector

unfoldable pub is_cctp_message_replay_error : Text → Option Revert → Bool
unfolding is_replay_name is_replay_raw
is_cctp_message_replay_error selector none = false
is_cctp_message_replay_error selector (some revert) =
    is_replay_name revert.error_name || is_replay_raw selector revert.raw

is_unregistered_name : Option String → Bool
is_unregistered_name none = false
is_unregistered_name (some name) = str_eq name "RecipientNotRegistered"

unfoldable pub is_recipient_not_registered_error : Option Revert → Bool
unfolding is_unregistered_name
is_recipient_not_registered_error none = false
is_recipient_not_registered_error (some revert) = is_unregistered_name revert.error_name

unfoldable pub handle_settle_send_error : Text → Option Revert → String → Result SettleDepositResult
handle_settle_send_error selector revert message =
    if is_recipient_not_registered_error revert
    then err recipient_not_registered
    else if is_cctp_message_replay_error selector revert
    then ok (record { already_settled = true; tx_hash = none })
    else err (settle_retryable message)

unfoldable pub add_gas_buffer : ℕ → ℕ
add_gas_buffer gas = gas * 12 / 10

-- `input.confirmations ?? 1`
abbrev confirmations_or_one : Option ℕ → ℕ
confirmations_or_one none = 1
confirmations_or_one (some n) = n

module _ (chain : SettlementChain) where
  after_receipt : Text → Attempt ReceiptStatus → Result SettleDepositResult
  after_receipt hash (threw revert) = err (settle_retryable "onramp_settle_confirmation_failed")
  after_receipt hash (answered reverted) = err (settle_retryable "onramp_settle_reverted")
  after_receipt hash (answered success) =
      ok (record { already_settled = false; tx_hash = some hash })

  after_write : SettleDepositInput → Attempt Text → Result SettleDepositResult
  unfolding after_receipt
  after_write input (threw revert) =
      handle_settle_send_error chain.replay_error_selector revert "onramp_settle_send_failed"
  after_write input (answered hash) =
      after_receipt hash (chain.wait_for_receipt hash (confirmations_or_one input.confirmations))

  after_estimate : SettleDepositInput → Attempt ℕ → Result SettleDepositResult
  unfolding after_write
  after_estimate input (threw revert) =
      handle_settle_send_error chain.replay_error_selector revert "onramp_settle_estimate_failed"
  after_estimate input (answered gas) =
      after_write input (chain.write_contract input (add_gas_buffer gas))

  unfoldable pub settle_deposit : SettleDepositInput → Result SettleDepositResult
  unfolding after_estimate
  settle_deposit input = after_estimate input (chain.estimate_gas input)

-- `createViemOnrampRelayer`: without a key or a router, every settlement is refused.
unfoldable pub relay :
    Bool → Bool → SettlementChain → SettleDepositInput → Result SettleDepositResult
relay has_key has_router chain input =
    if has_key
    then (if has_router
        then settle_deposit chain input
        else err (relayer_unavailable "onramp_router_unconfigured"))
    else err (relayer_unavailable "onramp_relayer_unconfigured")
