-- ===== src/Onramp/Poller/Steps.antt =====
-- The steps on one intent: `markBurned`, `reassociateIntent`, `ensureUserForAddress`,
-- `advanceToAttested`, `parkNeedsOnboarding`, `failIntent`, `markCredited` and
-- `finalizeTreasuryFunding` of onramp/poller.ts.
pub mod Growth
use Prim.Native.String
use benzo_main.Prelude.{
  ℕ, ◌≡◌, String, Text, Bool, true, false, Option, none, some, List, [], ◌∷◌, ◌++◌, ◌&&◌, ◌||◌, not,
  ◌==◌, text_eq, str_eq, find, any, to_lower_case, to_decimal, if◌then◌else◌,
}
use benzo_main.Service.{
  Action, Result, ok, err, error, pure, throw, lift, atomic, transaction, ◌>>=◌, ◌>>◌,
}
use benzo_main.Table.{insert_unless}
use benzo_main.Database.{
  OnrampStatus, DestToken, usdc, eurc, Intent, User, Deposit, cctp, DepositStatus, Ledger,
}
use benzo_main.Onramp.Status.{status_eq, can_transition}
use benzo_main.Onramp.Intents.{IntentPatch, no_patch, transition_intent, patch_intent}
use benzo_main.Onramp.Message.{HookData, DecodedMessage}
use benzo_main.Onramp.Relayer.{SettleDepositResult}
use benzo_main.Onramp.Poller.{IrisMessage, FundingToken, PollerEnv, truthy, either_text}

abbrev pub token_eq : DestToken → DestToken → Bool
token_eq usdc usdc = true
token_eq eurc eurc = true
token_eq _ _ = false

unfoldable pub attestation_patch : DecodedMessage → IntentPatch
attestation_patch d = record no_patch {
  amount = some (to_decimal d.minted_amount);
  cctp_nonce = some (some d.nonce);
  error = some none;
  message_hash = some d.message_hash;
}

abbrev pub has_address : Text → User → Bool
has_address address u = text_eq u.address address

-- The insert with `onConflictDoUpdate`, which leaves a user that is there as it is.
abbrev user_or_new : Option User → User → Ledger → Result String × Ledger
user_or_new (some u) row db = (ok u.id, db)
user_or_new none row db = (ok row.id, record db { users = db.users ++ row ∷ [] })

-- Null keys are distinct.
abbrev pub same_key : Option String → Option String → Bool
same_key (some a) (some b) = str_eq a b
same_key _ _ = false

-- The unique index on the organisation and the key.
abbrev pub is_deposit_of : Deposit → Deposit → Bool
is_deposit_of row x = str_eq x.org_id row.org_id && same_key x.idempotency_key row.idempotency_key

unfoldable pub insert_deposit : Deposit → Ledger → Result (Unit {0}) × Ledger
insert_deposit row db =
    (ok tt, record db { deposits = insert_unless (is_deposit_of row) row db.deposits })

module _ (env : PollerEnv) where
  unfoldable pub ensure_user_for_address : Text → Action Ledger String
  ensure_user_for_address address = atomic λ db.
      user_or_new (find (has_address (to_lower_case address)) db.users)
        (record { id = env.fresh_user_id (to_lower_case address); address = to_lower_case address })
        db

  unfoldable pub mark_burned : Intent → IrisMessage → Action Ledger Intent
  mark_burned intent m =
      let patch : IntentPatch = record no_patch {
        cctp_nonce = some (either_text m.event_nonce intent.cctp_nonce);
        error = some none;
      } in
      if not (status_eq intent.status OnrampStatus.initiated)
      then patch_intent env.now intent.id patch
      else transition_intent env.now intent.id OnrampStatus.burned patch

  unfoldable pub reassociate_intent : Intent → DecodedMessage → Action Ledger Intent
  reassociate_intent intent d = do
    user_id ← ensure_user_for_address (to_lower_case d.hook_data.user)
    patch_intent env.now intent.id (record (attestation_patch d) {
      recipient = some (record {
        user_address = to_lower_case d.hook_data.user;
        user_id = user_id;
        user_pub_key_x = to_decimal d.hook_data.pk_x;
        user_pub_key_y = to_decimal d.hook_data.pk_y;
      });
    })

  -- The first of the two transitions of `advanceToAttested`.
  burned_first : Intent → IntentPatch → Action Ledger Intent
  burned_first intent patch =
      if status_eq intent.status OnrampStatus.initiated
      then transition_intent env.now intent.id OnrampStatus.burned patch
      else pure intent

  then_attested : IntentPatch → Intent → Action Ledger Intent
  then_attested patch current =
      if status_eq current.status OnrampStatus.burned
        || status_eq current.status OnrampStatus.needs_onboarding
      then transition_intent env.now current.id OnrampStatus.attested patch
      else if status_eq current.status OnrampStatus.attested
      then patch_intent env.now current.id patch
      else pure current

  unfoldable pub advance_to_attested : Intent → DecodedMessage → Action Ledger Intent
  unfolding burned_first then_attested
  advance_to_attested intent d = do
    current ← burned_first intent (attestation_patch d)
    then_attested (attestation_patch d) current

  -- A patch where the status is `to` already or cannot move there, and a transition otherwise.
  unfoldable pub move_or_patch : Intent → OnrampStatus → IntentPatch → Action Ledger Intent
  move_or_patch intent to patch =
      if status_eq intent.status to
      then patch_intent env.now intent.id patch
      else if not (can_transition intent.status to)
      then patch_intent env.now intent.id patch
      else transition_intent env.now intent.id to patch

  unfoldable pub park_needs_onboarding : Intent → DecodedMessage → Action Ledger Intent
  park_needs_onboarding intent d =
      move_or_patch intent OnrampStatus.needs_onboarding
        (record (attestation_patch d) { error = some (some "recipient_not_eerc_registered") })

  unfoldable pub fail_intent : Intent → String → Action Ledger Intent
  fail_intent intent reason =
      move_or_patch intent OnrampStatus.failed (record no_patch { error = some (some reason) })

  minted_first : Intent → IntentPatch → Action Ledger Intent
  minted_first intent patch =
      if status_eq intent.status OnrampStatus.attested
      then transition_intent env.now intent.id OnrampStatus.minted patch
      else pure intent

  then_credited : IntentPatch → Intent → Action Ledger Intent
  then_credited patch current =
      if status_eq current.status OnrampStatus.minted
      then transition_intent env.now current.id OnrampStatus.credited patch
      else pure current

  unfoldable pub mark_credited : Intent → SettleDepositResult → Action Ledger Intent
  unfolding minted_first then_credited
  mark_credited intent settle = do
    let patch : IntentPatch = record no_patch {
      error = some none;
      settle_tx_hash = some (either_text settle.tx_hash intent.settle_tx_hash);
    }
    current ← minted_first intent patch
    then_credited patch current

  abbrev pub is_token_of : Intent → FundingToken → Bool
  is_token_of intent entry = token_eq entry.token intent.dest_token

  -- `intent.settleTxHash?.toLowerCase() ?? null`
  abbrev lowered : Option Text → Option Text
  lowered none = none
  lowered (some t) = some (to_lower_case t)

  -- The row that mirrors a credited treasury funding.
  unfoldable pub cctp_deposit : Intent → String → Text → FundingToken → Deposit
  cctp_deposit intent org amount entry = record {
    id = env.fresh_deposit_id intent.id;
    org_id = org;
    token = entry.token;
    token_id = entry.token_id;
    amount = amount;
    tx_hash = lowered intent.settle_tx_hash;
    source = cctp;
    status = DepositStatus.confirmed;
    idempotency_key = some (String.◌++◌ "cctp:" intent.id);
    updated_at = env.now;
  }

  mirror : Intent → String → Text → Option FundingToken → Action Ledger (Unit {0})
  mirror intent org amount none = pure tt
  mirror intent org amount (some entry) =
      atomic (insert_deposit (cctp_deposit intent org amount entry))

  -- An org id is a uuid, so it is never the empty text.
  funded : Intent → Option String → Option Text → Action Ledger (Unit {0})
  unfolding mirror
  funded intent (some org) (some amount) =
      mirror intent org amount (find (is_token_of intent) env.funding_tokens)
  funded intent _ _ = pure tt

  unfoldable pub finalize_treasury_funding : Intent → Action Ledger (Unit {0})
  unfolding funded
  finalize_treasury_funding intent = funded intent intent.org_id (truthy intent.amount)

  -- The transaction on an intent that was settled before.
  unfoldable pub credit_minted : Intent → Action Ledger (Unit {0})
  credit_minted intent = transaction do
    credited ←
        transition_intent env.now intent.id OnrampStatus.credited
          (record no_patch { error = some none })
    finalize_treasury_funding credited

  -- The transaction after a settlement.
  unfoldable pub credit_settled : Intent → SettleDepositResult → Action Ledger (Unit {0})
  credit_settled intent settle =
      transaction do credited ← mark_credited intent settle; finalize_treasury_funding credited
