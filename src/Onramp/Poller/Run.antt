-- ===== src/Onramp/Poller/Run.antt =====
-- `processIntent` and `pollOnrampIntents` of onramp/poller.ts.
pub mod Growth
pub mod Batch
use benzo_main.Prelude.{
  ℕ, ◌+◌, ◌≡◌, Text, Bool, true, false, Option, none, some, List, [], ◌∷◌, ◌&&◌, ◌||◌, not, ◌==◌,
  text_eq, select, take, if◌then◌else◌,
}
use benzo_main.Service.{
  Action, Result, Exn, ok, err, error, recipient_not_registered, relayer_unavailable, pure, throw,
  lift, atomic, try_catch, ◌>>=◌, ◌>>◌,
}
use benzo_main.Table.{oldest_first}
use benzo_main.Database.{
  OnrampStatus, initiated, burned, attested, minted, needs_onboarding, Intent, Ledger,
}
use benzo_main.Onramp.Status.{status_eq, includes}
use benzo_main.Onramp.Message.{HookData, DecodedMessage, decode_cctp_onramp_message}
use benzo_main.Onramp.Relayer.{SettleDepositInput, SettleDepositResult, relay}
use benzo_main.Onramp.Poller.{
  IrisMessage, UserKey, PollerEnv, PollOutcome, parked, pending, skipped, is_truthy,
}
use benzo_main.Onramp.Poller.Choice.{is_complete_iris_message, select_iris_message, require_hex}
use benzo_main.Onramp.Poller.Steps.{
  mark_burned, reassociate_intent, advance_to_attested, park_needs_onboarding, fail_intent,
  credit_minted, credit_settled,
}

pub record PollResult : Type 0 where
  pub credited : ℕ
  pub failed : ℕ
  pub parked : ℕ
  pub pending : ℕ
  pub polled : ℕ
  pub relayer_configured : Bool
  pub router_configured : Bool
  pub skipped : ℕ

abbrev pub non_terminal_statuses : List OnrampStatus
non_terminal_statuses = initiated ∷ burned ∷ attested ∷ minted ∷ needs_onboarding ∷ []

-- `result[outcome] += 1`
unfoldable pub count_outcome : PollOutcome → PollResult → PollResult
count_outcome PollOutcome.credited r = record r { credited = r.credited + 1 }
count_outcome PollOutcome.failed r = record r { failed = r.failed + 1 }
count_outcome PollOutcome.parked r = record r { parked = r.parked + 1 }
count_outcome PollOutcome.pending r = record r { pending = r.pending + 1 }
count_outcome PollOutcome.skipped r = record r { skipped = r.skipped + 1 }

abbrev is_some_text : Option Text → Bool
is_some_text none = false
is_some_text (some t) = true

module _ (env : PollerEnv) where
  -- The handler of the settlement's `try`.
  unfoldable pub after_refusal : Intent → DecodedMessage → Exn → Action Ledger PollOutcome
  after_refusal intent d recipient_not_registered = do
    park_needs_onboarding env intent d
    pure parked
  after_refusal intent d (relayer_unavailable reason) = pure skipped
  after_refusal intent d e = throw e

  unfoldable pub settle : Intent → Text → Text → DecodedMessage → Action Ledger PollOutcome
  settle intent message attestation d = do
    pct ← lift (env.amount_pct d.minted_amount (d.hook_data.pk_x, d.hook_data.pk_y))
    try_catch
        (lift (
          relay (is_truthy env.relayer_private_key) (is_truthy env.router) env.settlement (record {
            amount_pct = pct;
            attestation = attestation;
            confirmations = some env.indexer_confirmations;
            message = message;
          })))
        (λ settled. do credit_settled env intent settled; pure PollOutcome.credited)
        (after_refusal intent d)

  -- The recipient's key on chain against the key that the burn names.
  unfoldable pub with_key :
      Intent → Text → Text → DecodedMessage → ℕ × ℕ → Action Ledger PollOutcome
  with_key intent message attestation d (x, y) =
      if not (x == d.hook_data.pk_x) || not (y == d.hook_data.pk_y)
      then (do fail_intent env intent "recipient_public_key_mismatch"; pure PollOutcome.failed)
      else (do
        attested_row ← advance_to_attested env intent d
        settle attested_row message attestation d)

  abbrev key_of : UserKey → Option (ℕ × ℕ)
  key_of u = if u.registered then u.public_key else none

  unfoldable pub with_registration :
      Intent → Text → Text → DecodedMessage → Option (ℕ × ℕ) → Action Ledger PollOutcome
  with_registration intent message attestation d none = do
    park_needs_onboarding env intent d
    pure parked
  with_registration intent message attestation d (some key) =
      with_key intent message attestation d key

  unfoldable pub for_router : Intent → Text → Text → DecodedMessage → Action Ledger PollOutcome
  for_router intent message attestation d = do
    reassociated ← reassociate_intent env intent d
    registration ← lift (env.resolve_user_key d.hook_data.user)
    with_registration reassociated message attestation d (key_of registration)

  unfoldable pub check_recipient :
      Intent → Text → Text → DecodedMessage → Option Text → Action Ledger PollOutcome
  check_recipient intent message attestation d none = pure skipped
  check_recipient intent message attestation d (some []) = pure skipped
  check_recipient intent message attestation d (some (c ∷ s)) = do
    recipient ← lift (env.codec.get_address d.mint_recipient)
    router ← lift (env.codec.get_address (c ∷ s))
    if not (text_eq recipient router)
        then (do fail_intent env intent "cctp_mint_recipient_mismatch"; pure PollOutcome.failed)
        else for_router intent message attestation d

  unfoldable pub with_decoded : Intent → Text → Text → DecodedMessage → Action Ledger PollOutcome
  with_decoded intent message attestation d =
      if not (d.source_domain == intent.source_domain)
      then (do fail_intent env intent "cctp_source_domain_mismatch"; pure PollOutcome.failed)
      else if not (d.destination_domain == env.cctp_dest_domain)
      then (do fail_intent env intent "cctp_destination_domain_mismatch"; pure PollOutcome.failed)
      else check_recipient intent message attestation d env.router

  unfoldable pub with_complete : Intent → IrisMessage → Action Ledger PollOutcome
  with_complete intent m = do
    message ← lift (require_hex m.message "message")
    attestation ← lift (require_hex m.attestation "attestation")
    decoded ← lift (decode_cctp_onramp_message env.codec message)
    with_decoded intent message attestation decoded

  unfoldable pub with_message : Intent → Option IrisMessage → Action Ledger PollOutcome
  with_message intent none = pure pending
  with_message intent (some m) =
      if not (is_complete_iris_message m)
      then (do mark_burned env intent m; pure pending)
      else with_complete intent m

  unfoldable pub process_intent : Intent → Action Ledger PollOutcome
  process_intent intent =
      if status_eq intent.status minted && is_truthy intent.settle_tx_hash
      then (do credit_minted env intent; pure PollOutcome.credited)
      else (do
        messages ← lift (env.iris_messages intent.source_domain intent.source_tx_hash)
        with_message intent (select_iris_message env.codec intent messages))

  -- The `for` loop; what one intent throws ends it.
  unfoldable pub poll_each : List Intent → PollResult → Action Ledger PollResult
  poll_each [] r = pure r
  poll_each (intent ∷ rest) r = do
    outcome ← process_intent intent
    poll_each rest (count_outcome outcome (record r { polled = r.polled + 1 }))

  abbrev pub start : PollResult
  start = record {
    credited = 0;
    failed = 0;
    parked = 0;
    pending = 0;
    polled = 0;
    relayer_configured = is_some_text env.relayer_private_key;
    router_configured = is_some_text env.router;
    skipped = 0;
  }

  unfoldable pub due_intents : Ledger → List Intent
  due_intents db = take env.limit (
      oldest_first (λ (row : Intent). row.updated_at)
        (select (λ (row : Intent). includes non_terminal_statuses row.status) db.intents))

  unfoldable pub poll_onramp_intents : Action Ledger PollResult
  poll_onramp_intents =
      if not (is_truthy env.router)
      then pure start
      else if not (is_truthy env.relayer_private_key)
      then pure start
      else (do due ← atomic λ db. (ok (due_intents db), db); poll_each due start)
