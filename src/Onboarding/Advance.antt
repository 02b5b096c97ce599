-- ===== src/Onboarding/Advance.antt =====
-- The worker of onboarding/service.ts: `advanceOnboarding` and its steps, and the handlers of its
-- jobs. The `while` loop takes fuel, and tells whether it ended.
pub mod Stands
pub mod Steps
pub mod Ends
pub mod Drips
use benzo_main.Prelude.{
  ℕ, zero, suc, ◌+◌, ◌≡◌, String, Text, Bool, true, false, Option, none, some, List, [], ◌∷◌, ◌++◌,
  leb, find, any, or_else, to_decimal, if◌then◌else◌,
}
use Prim.Native.String
use benzo_main.Service.{
  Action, Result, Exn, ok, err, error, message, pure, throw, lift, atomic, transaction, try_catch,
  ◌>>=◌, ◌>>◌,
}
use benzo_main.Table.{update_where}
use benzo_main.Onboarding.{
  OnboardingStatus, pending_kyc, kyc_approved, allowlisted, gas_dripped, awaiting_registration,
  complete, failed, MockKycInput, MockKycPayload, KycRecord, Onboarding, Drip, OnboardingJob,
  OnboardingState, AllowlistStepResult, GasDripStepResult, sent, balance_sufficient, OnboardingEnv,
}
use benzo_main.Onboarding.Kyc.{normalize_mock_kyc_payload}
use benzo_main.Onboarding.Records.{
  OnboardingRecord, is_kyc_of, select_onboarding_record, require_onboarding_record,
  update_onboardings, update_onboarding, mark_onboarding_failed, find_recent_drip,
  enqueue_onboarding_advance,
}

abbrev no_input : MockKycInput
no_input = record { country = none; name = none }

-- `row.mockKycInput ?? data.mockKyc`
abbrev pub either_input : Option MockKycInput → Option MockKycInput → Option MockKycInput
either_input none other = other
either_input (some i) other = some i

unfoldable pub upsert_kyc : KycRecord → OnboardingState → Result (Unit {0}) × OnboardingState
upsert_kyc row db = (
  ok tt,
  record db {
    kyc_records =
        if any (is_kyc_of row.user_id) db.kyc_records
        then update_where (is_kyc_of row.user_id)
            (λ k. record k { payload = row.payload; approved_at = row.approved_at }) db.kyc_records
        else db.kyc_records ++ row ∷ [];
  },
)

unfoldable pub insert_drip : Drip → OnboardingState → Result (Unit {0}) × OnboardingState
insert_drip d db = (ok tt, record db { drips = db.drips ++ d ∷ [] })

-- The columns that the steps write.
abbrev pub as_approved : ℕ → Onboarding → Onboarding
as_approved now o = record o { error = none; kyc_approved_at = some now; status = kyc_approved }

abbrev pub as_allowlisted : ℕ → AllowlistStepResult → Onboarding → Onboarding
as_allowlisted now result o = record o {
  allowlisted_at = some now;
  allowlist_result = some result.result;
  allowlist_tx_hash = result.tx_hash;
  error = none;
  status = allowlisted;
}

abbrev pub as_dripped : ℕ → String → Option Text → Onboarding → Onboarding
as_dripped now result hash o = record o {
  error = none;
  gas_dripped_at = some now;
  gas_drip_result = some result;
  gas_drip_tx_hash = hash;
  status = gas_dripped;
}

abbrev pub as_awaiting : Onboarding → Onboarding
as_awaiting o = record o { status = awaiting_registration }

abbrev pub as_complete : ℕ → Onboarding → Onboarding
as_complete now o = record o {
  error = none;
  registration_completed_at = some now;
  registration_last_checked_at = some now;
  status = complete;
}

abbrev pub as_checked : ℕ → Onboarding → Onboarding
as_checked now o = record o {
  error = none;
  registration_last_checked_at = some now;
  status = awaiting_registration;
}

-- `row = await requireOnboardingRecord(…); continue`
unfoldable pub read_again : String → Action OnboardingState (Option OnboardingRecord)
read_again user_id = do row ← require_onboarding_record user_id; pure (some row)

module _ (env : OnboardingEnv) where
  unfoldable pub approve_mock_kyc :
      OnboardingRecord → Option MockKycInput → Action OnboardingState (Unit {0})
  approve_mock_kyc row input =
      let user_id = row.onboarding.user_id in
      transaction do
        atomic (
            upsert_kyc (record {
              user_id = user_id;
              payload = normalize_mock_kyc_payload (or_else input no_input);
              approved_at = env.now;
            }))
        atomic (update_onboardings env.now user_id (as_approved env.now))

  unfoldable pub complete_allowlist_step : OnboardingRecord → Action OnboardingState (Unit {0})
  complete_allowlist_step row = do
    result ← lift (env.ensure_allowlisted row.address)
    update_onboarding env row.onboarding.user_id (as_allowlisted env.now result)

  unfoldable pub store_drip : OnboardingRecord → String → Text → Action OnboardingState (Unit {0})
  store_drip row mode hash = transaction do
    atomic (
        insert_drip (record {
          user_id = row.onboarding.user_id;
          address = row.address;
          chain_env = env.chain_env;
          chain_id = env.benzonet_chain_id;
          amount_wei = to_decimal env.drip_wei;
          tx_hash = hash;
          mode = mode;
          dripped_at = env.now;
        }))
    atomic (
        update_onboardings env.now row.onboarding.user_id
          (as_dripped env.now (String.◌++◌ mode "_sent") (some hash)))

  -- The client sent a drip to the address.
  unfoldable pub record_send : Text → OnboardingState → Result (Unit {0}) × OnboardingState
  record_send address db = (
    ok tt,
    record db { sends = db.sends ++ record { address = address; sent_at = env.now } ∷ [] },
  )

  unfoldable pub after_drip :
      OnboardingRecord → GasDripStepResult → Action OnboardingState (Unit {0})
  after_drip row balance_sufficient =
      update_onboarding env row.onboarding.user_id (as_dripped env.now "balance_sufficient" none)
  after_drip row (sent mode hash) = do atomic (record_send row.address); store_drip row mode hash

  unfoldable pub drip_unless_recent :
      OnboardingRecord → Option Drip → Action OnboardingState (Unit {0})
  drip_unless_recent row (some recent) =
      update_onboarding env row.onboarding.user_id
        (as_dripped env.now "rate_limited_existing" (some recent.tx_hash))
  drip_unless_recent row none = do
    result ← lift (env.drip_gas row.address env.drip_wei)
    after_drip row result

  unfoldable pub complete_gas_step : OnboardingRecord → Action OnboardingState (Unit {0})
  complete_gas_step row = do
    balance ← lift (env.get_native_balance row.address)
    if leb env.drip_balance_threshold_wei balance
        then update_onboarding env row.onboarding.user_id
            (as_dripped env.now "balance_sufficient" none)
        else (do recent ← find_recent_drip env row.address; drip_unless_recent row recent)

  unfoldable pub after_registration_check :
      OnboardingRecord → Bool → Action OnboardingState (Unit {0})
  after_registration_check row true =
      update_onboarding env row.onboarding.user_id (as_complete env.now)
  after_registration_check row false = do
    update_onboarding env row.onboarding.user_id (as_checked env.now)
    enqueue_onboarding_advance env (record {
      address = row.address;
      mock_kyc = none;
      user_id = row.onboarding.user_id;
      start_after = some env.onboarding_registration_poll_seconds;
    })
    pure tt

  unfoldable pub poll_registration : OnboardingRecord → Action OnboardingState (Unit {0})
  poll_registration row = do
    registered ← lift (env.is_user_registered row.address)
    after_registration_check row registered

  module _ (job : OnboardingJob) where
    -- The body of the `while` loop: the row for the next turn, or a return.
    unfoldable pub advance_step :
        OnboardingStatus → OnboardingRecord → Action OnboardingState (Option OnboardingRecord)
    advance_step complete row = pure none
    advance_step failed row = pure none
    advance_step pending_kyc row = do
      approve_mock_kyc row (either_input row.onboarding.mock_kyc_input job.mock_kyc)
      read_again job.user_id
    advance_step kyc_approved row = do complete_allowlist_step row; read_again job.user_id
    advance_step allowlisted row = do complete_gas_step row; read_again job.user_id
    advance_step gas_dripped row = do
      update_onboarding env row.onboarding.user_id as_awaiting
      read_again job.user_id
    advance_step awaiting_registration row = do poll_registration row; pure none

    unfoldable pub advance_loop : ℕ → Option OnboardingRecord → Action OnboardingState Bool
    advance_loop fuel none = pure true
    advance_loop zero (some row) = pure false
    advance_loop (suc fuel) (some row) =
        advance_step row.onboarding.status row >>= advance_loop fuel

    unfoldable pub advance_onboarding : ℕ → Action OnboardingState Bool
    advance_onboarding fuel = do row ← select_onboarding_record job.user_id; advance_loop fuel row

  unfoldable pub handle_onboarding_job : ℕ → OnboardingJob → ℕ → ℕ → Action OnboardingState Bool
  handle_onboarding_job fuel job retry_count retry_limit =
      try_catch (advance_onboarding job fuel) pure (λ e.
        if leb retry_limit retry_count
        then (do mark_onboarding_failed env job.user_id (message e); pure true)
        else throw e)

  unfoldable pub handle_onboarding_failed_job : OnboardingJob → Action OnboardingState (Unit {0})
  handle_onboarding_failed_job job = mark_onboarding_failed env job.user_id "onboarding_job_failed"
