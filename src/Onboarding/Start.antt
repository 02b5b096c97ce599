-- ===== src/Onboarding/Start.antt =====
-- `startOnboarding`, `getOnboardingForUser`, `listAdminOnboardings` and
-- `enqueueOutstandingOnboardings` of onboarding/service.ts. `serializeOnboarding`, which names the
-- columns of a record anew for the reply, is left out.
pub mod Stands
pub mod Bounds
use benzo_main.Prelude.{
  ℕ, zero, suc, ◌+◌, ◌≡◌, String, Text, Bool, true, false, Option, none, some, List, [], ◌∷◌, ◌++◌,
  ◌&&◌, ◌||◌, min, max, take, drop, length, find, any, select, if◌then◌else◌,
}
use benzo_main.Service.{
  Action, Result, ok, err, error, pure, throw, atomic, transaction, ◌>>=◌, ◌>>◌,
}
use benzo_main.Table.{newest_first}
use benzo_main.Onboarding.{
  OnboardingStatus, pending_kyc, kyc_approved, allowlisted, gas_dripped, awaiting_registration,
  complete, failed, MockKycInput, Onboarding, OnboardingJob, OnboardingState, OnboardingEnv,
  has_status,
}
use benzo_main.Onboarding.Records.{
  OnboardingRecord, is_of, is_user, joined_record, or_lookup_failed, select_onboarding_record,
  update_onboardings, enqueue_onboarding_advance,
}
use benzo_main.Onboarding.Advance.{either_input}

pub record StartOnboardingInput : Type 0 where
  pub address : Text
  pub mock_kyc : Option MockKycInput
  pub user_id : String

pub record StartOnboardingResult : Type 0 where
  pub job_id : Option String
  pub onboarding : OnboardingRecord

-- An argument that is a finite number, without its fraction.
pub data ℤ : Type 0 where
  pos : ℕ → ℤ
  negsuc : ℕ → ℤ

abbrev default_admin_onboarding_limit : ℕ
default_admin_onboarding_limit = 100

abbrev pub max_admin_onboarding_limit : ℕ
max_admin_onboarding_limit = 500

unfoldable pub normalize_admin_onboarding_limit : Option ℤ → ℕ
normalize_admin_onboarding_limit none = default_admin_onboarding_limit
normalize_admin_onboarding_limit (some (pos n)) = min (max n 1) max_admin_onboarding_limit
normalize_admin_onboarding_limit (some (negsuc n)) = min 1 max_admin_onboarding_limit

unfoldable pub normalize_admin_onboarding_offset : Option ℤ → ℕ
normalize_admin_onboarding_offset none = 0
normalize_admin_onboarding_offset (some (pos n)) = n
normalize_admin_onboarding_offset (some (negsuc n)) = 0

abbrev pub is_in_progress : Onboarding → Bool
is_in_progress o =
    has_status pending_kyc o
    || has_status kyc_approved o
    || has_status allowlisted o
    || has_status gas_dripped o
    || has_status awaiting_registration o

-- The rows of an inner join with the users.
abbrev pub joined_records : List Onboarding → OnboardingState → List OnboardingRecord
joined_records [] db = []
joined_records (o ∷ os) db = elim (joined_record (some o) db) [
  | none ↦ joined_records os db
  | some r ↦ r ∷ joined_records os db
]

abbrev pub wanted : Option OnboardingStatus → Onboarding → Bool
wanted none o = true
wanted (some status) o = has_status status o

unfoldable pub list_admin_onboardings :
    Option ℤ → Option ℤ → Option OnboardingStatus → Action OnboardingState (List OnboardingRecord)
list_admin_onboardings limit offset status = atomic λ db. (
  ok (
      take (normalize_admin_onboarding_limit limit) (
        drop (normalize_admin_onboarding_offset offset) (
          newest_first (λ (r : OnboardingRecord). r.onboarding.updated_at)
            (joined_records (select (wanted status) db.onboardings) db)))),
  db,
)

module _ (env : OnboardingEnv) where
  unfoldable pub new_onboarding : StartOnboardingInput → Onboarding
  new_onboarding input = record {
    user_id = input.user_id;
    status = pending_kyc;
    chain_env = env.chain_env;
    chain_id = env.benzonet_chain_id;
    mock_kyc_input = input.mock_kyc;
    kyc_approved_at = none;
    allowlist_tx_hash = none;
    allowlist_result = none;
    allowlisted_at = none;
    gas_drip_tx_hash = none;
    gas_drip_result = none;
    gas_dripped_at = none;
    registration_last_checked_at = none;
    registration_completed_at = none;
    error = none;
    updated_at = env.now;
  }

  -- `insert(…).onConflictDoNothing().returning()`
  unfoldable pub insert_onboarding :
      Onboarding → OnboardingState → Result (Option Onboarding) × OnboardingState
  insert_onboarding o db =
      if any (is_of o.user_id) db.onboardings
      then (ok none, db)
      else (ok (some o), record db { onboardings = db.onboardings ++ o ∷ [] })

  abbrev pub inserted_or_found :
      String → Option Onboarding → Action OnboardingState (Option Onboarding)
  inserted_or_found user_id (some o) = pure (some o)
  inserted_or_found user_id none = atomic λ db. (ok (find (is_of user_id) db.onboardings), db)

  abbrev pub with_input : Option MockKycInput → Onboarding → Onboarding
  with_input input o = record o { mock_kyc_input = input }

  abbrev pub lacks_input : Onboarding → Option MockKycInput → Bool
  lacks_input o none = false
  lacks_input o (some given) =
      has_status pending_kyc o && elim (o.mock_kyc_input) [ none ↦ true | some i ↦ false ]

  unfoldable pub enqueue_found :
      StartOnboardingInput → Option Onboarding → Action OnboardingState (Option String)
  enqueue_found input none = throw (error "onboarding_lookup_failed")
  enqueue_found input (some row) =
      if has_status complete row || has_status failed row then pure none else (do
        if lacks_input row input.mock_kyc
            then atomic (update_onboardings env.now input.user_id (with_input input.mock_kyc))
            else pure tt
        enqueue_onboarding_advance env (record {
          address = input.address;
          mock_kyc = either_input row.mock_kyc_input input.mock_kyc;
          user_id = input.user_id;
          start_after = none;
        }))

  unfoldable pub start_in : StartOnboardingInput → Action OnboardingState (Option String)
  start_in input = do
    inserted ← atomic (insert_onboarding (new_onboarding input))
    row ← inserted_or_found input.user_id inserted
    enqueue_found input row

  unfoldable pub start_onboarding :
      StartOnboardingInput → Action OnboardingState StartOnboardingResult
  start_onboarding input = do
    job_id ← transaction (start_in input)
    found ← select_onboarding_record input.user_id
    onboarding ← or_lookup_failed found
    pure (record { job_id = job_id; onboarding = onboarding })

  abbrev outstanding_job : OnboardingRecord → OnboardingJob
  outstanding_job r = record {
    address = r.address;
    mock_kyc = if has_status pending_kyc r.onboarding then r.onboarding.mock_kyc_input else none;
    user_id = r.onboarding.user_id;
    start_after = none;
  }

  unfoldable pub enqueue_all : List OnboardingRecord → Action OnboardingState (Unit {0})
  enqueue_all [] = pure tt
  enqueue_all (r ∷ rs) = do enqueue_onboarding_advance env (outstanding_job r); enqueue_all rs

  unfoldable pub enqueue_outstanding_onboardings : Action OnboardingState ℕ
  enqueue_outstanding_onboardings = do
    rows ← atomic λ db. (ok (joined_records (select is_in_progress db.onboardings) db), db)
    enqueue_all rows
    pure (length rows)
