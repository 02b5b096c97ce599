-- ===== src/Onboarding.antt =====
-- Onboarding, backend/services/api/src/onboarding: the tables of db/schema.ts that it uses, what it
-- is given, and its parts in the modules below. `pg-boss`'s `upsert` of a job and the chain client
-- are fields of the environment; a job's queue is the state's.
pub mod Kyc
pub mod Records
pub mod Advance
pub mod Start
mod Tests
use benzo_main.Prelude.{ℕ, String, Text, Bool, true, false, Option, List, ◌==◌}
use benzo_main.Service.{Result}
use benzo_main.Database.{User}

-- `onboarding_status`
pub data OnboardingStatus : Type 0 where
  pending_kyc kyc_approved allowlisted gas_dripped awaiting_registration : OnboardingStatus
  complete failed : OnboardingStatus

-- `MockKycInputPayload`
pub record MockKycInput : Type 0 where
  pub country : Option Text
  pub name : Option Text

-- `MockKycPayload`, whose label is constant.
pub record MockKycPayload : Type 0 where
  pub country : Text
  pub name : Text

pub record KycRecord : Type 0 where
  pub user_id : String
  pub payload : MockKycPayload
  pub approved_at : ℕ

pub record Onboarding : Type 0 where
  pub user_id : String
  pub status : OnboardingStatus
  pub chain_env : String
  pub chain_id : ℕ
  pub mock_kyc_input : Option MockKycInput
  pub kyc_approved_at : Option ℕ
  pub allowlist_tx_hash : Option Text
  pub allowlist_result : Option String
  pub allowlisted_at : Option ℕ
  pub gas_drip_tx_hash : Option Text
  pub gas_drip_result : Option String
  pub gas_dripped_at : Option ℕ
  pub registration_last_checked_at : Option ℕ
  pub registration_completed_at : Option ℕ
  pub error : Option String
  pub updated_at : ℕ

pub record Drip : Type 0 where
  pub user_id : String
  pub address : Text
  pub chain_env : String
  pub chain_id : ℕ
  pub amount_wei : Text
  pub tx_hash : Text
  pub mode : String
  pub dripped_at : ℕ

-- A job of the queue `onboarding.advance`, with its delay in seconds.
pub record OnboardingJob : Type 0 where
  pub address : Text
  pub mock_kyc : Option MockKycInput
  pub user_id : String
  pub start_after : Option ℕ

-- A drip that the chain client says it sent.
pub record Send : Type 0 where
  pub address : Text
  pub sent_at : ℕ

-- The tables, the queue, and `sends`, which no statement reads: it records what the chain client
-- says it sent.
pub record OnboardingState : Type 0 where
  pub users : List User
  pub onboardings : List Onboarding
  pub kyc_records : List KycRecord
  pub drips : List Drip
  pub jobs : List OnboardingJob
  pub sends : List Send

pub record AllowlistStepResult : Type 0 where
  pub result : String
  pub tx_hash : Option Text

pub data GasDripStepResult : Type 0 where
  sent : String → Text → GasDripStepResult
  balance_sufficient : GasDripStepResult

pub record OnboardingEnv : Type 0 where
  pub now : ℕ
  pub chain_env : String
  pub benzonet_chain_id : ℕ
  pub drip_balance_threshold_wei : ℕ
  pub drip_wei : ℕ
  pub onboarding_registration_poll_seconds : ℕ
  pub drip_gas : Text → ℕ → Result GasDripStepResult
  pub ensure_allowlisted : Text → Result AllowlistStepResult
  pub get_native_balance : Text → Result ℕ
  pub is_user_registered : Text → Result Bool
  pub upsert_job : OnboardingJob → List OnboardingJob → List OnboardingJob
  pub job_id : OnboardingJob → List OnboardingJob → Option String

-- The position of a status in the order in which the worker goes through them.
abbrev pub status_tag : OnboardingStatus → ℕ
status_tag pending_kyc = 0
status_tag kyc_approved = 1
status_tag allowlisted = 2
status_tag gas_dripped = 3
status_tag awaiting_registration = 4
status_tag complete = 5
status_tag failed = 6

abbrev pub has_status : OnboardingStatus → Onboarding → Bool
has_status status o = status_tag o.status == status_tag status
