-- ===== src/Onboarding/Tests.antt =====
-- A user to be onboarded, on which the theorems about the onboarding are applied.
use benzo_main.Prelude.{◌≤◌, ◌≡◌, refl, codes, true, none, some, List, [], ◌∷◌, arith, length}
use benzo_main.Service.{World, atomic, transaction, ok, alone, ◌>>=◌}
use benzo_main.Database.{User}
use benzo_main.Onboarding.{
  pending_kyc, kyc_approved, Onboarding, Drip, OnboardingJob, OnboardingState, sent, OnboardingEnv,
}
use benzo_main.Onboarding.Records.{
  OnboardingRecord, find_recent_drip, update_onboarding, update_onboardings,
}
use benzo_main.Table.{newest_first}
use benzo_main.Onboarding.Advance.{
  advance_onboarding, complete_gas_step, drip_unless_recent, after_drip, record_send, store_drip,
  insert_drip,
}
use benzo_main.Onboarding.Advance.Ends.{Ends, advance_onboarding-Ends}
use benzo_main.Onboarding.Advance.Drips.{Spaced, Recorded, complete_gas_step-Spaced}
use benzo_main.Onboarding.Start.{
  pos, negsuc, StartOnboardingInput, start_onboarding, list_admin_onboardings,
  max_admin_onboarding_limit,
}
use benzo_main.Onboarding.Start.Stands.{advance_job, start_onboarding-Ends}
use benzo_main.Onboarding.Start.Bounds.{list_admin_onboardings-bound}

abbrev env : OnboardingEnv
env = record {
  now = 100000000;
  chain_env = "local";
  benzonet_chain_id = 1;
  drip_balance_threshold_wei = 10;
  drip_wei = 50;
  onboarding_registration_poll_seconds = 30;
  drip_gas = λ a n. ok (sent "transfer" (codes "0xd"));
  ensure_allowlisted = λ a. ok (record { result = "added"; tx_hash = some (codes "0xa") });
  get_native_balance = λ a. ok 3;
  is_user_registered = λ a. ok true;
  upsert_job = λ job jobs. job ∷ jobs;
  job_id = λ job jobs. some "j1";
}

abbrev user : User
user = record { id = "u1"; address = codes "0x1" }

abbrev input : StartOnboardingInput
input = record { address = codes "0x1"; mock_kyc = none; user_id = "u1" }

abbrev old_drip : Drip
old_drip = record {
  user_id = "u1";
  address = codes "0x1";
  chain_env = "local";
  chain_id = 1;
  amount_wei = codes "50";
  tx_hash = codes "0xc";
  mode = "transfer";
  dripped_at = 500;
}

abbrev empty : OnboardingState
empty = record {
  users = user ∷ [];
  onboardings = [];
  kyc_records = [];
  drips = old_drip ∷ [];
  jobs = [];
  sends = record { address = codes "0x1"; sent_at = 500 } ∷ [];
}

abbrev onboarding : Onboarding
onboarding = record {
  user_id = "u1";
  status = kyc_approved;
  chain_env = "local";
  chain_id = 1;
  mock_kyc_input = none;
  kyc_approved_at = some 9;
  allowlist_tx_hash = none;
  allowlist_result = none;
  allowlisted_at = none;
  gas_drip_tx_hash = none;
  gas_drip_result = none;
  gas_dripped_at = none;
  registration_last_checked_at = none;
  registration_completed_at = none;
  error = none;
  updated_at = 9;
}

abbrev started : OnboardingState
started = record empty { onboardings = onboarding ∷ [] }

abbrev job : OnboardingJob
job = record { address = codes "0x1"; mock_kyc = none; user_id = "u1"; start_after = none }

advance_onboarding-Ends_example :
    Ends env job (codes "0x1") kyc_approved (advance_onboarding env job 5 (alone started))
advance_onboarding-Ends_example =
    advance_onboarding-Ends env job (codes "0x1") 5 kyc_approved started (omega arith) (record {
      onboarding = onboarding;
      found = refl;
      at = refl;
      user = user;
      known = refl;
      lives = refl;
    })

start_onboarding-Ends_example : Ends env (advance_job input none) (codes "0x1") pending_kyc (
    (start_onboarding env input >>= λ r. advance_onboarding env (advance_job input none) 5)
      (alone empty))
start_onboarding-Ends_example =
    start_onboarding-Ends env input empty user refl refl 5 none (omega arith)

-- The others take a turn in between, and write nothing.
abbrev busy : World OnboardingState
busy = record { state = started; others = (λ s. s) ∷ (λ s. s) ∷ [] }

abbrev waiting : OnboardingRecord
waiting = record { onboarding = onboarding; address = codes "0x1"; kyc = none }

complete_gas_step-Spaced_example :
    Spaced (complete_gas_step env waiting busy).1.state.sends
    × Recorded
        (complete_gas_step env waiting busy).1.state.drips
        (complete_gas_step env waiting busy).1.state.sends
complete_gas_step-Spaced_example =
    complete_gas_step-Spaced env waiting busy ((λ stage s i. i), ((λ stage s i. i), tt)) (tt, tt)
      (refl, tt)

-- The step at this time sends a drip, and a second one no more.
sends_once :
    let once = complete_gas_step env waiting busy in
    let twice = complete_gas_step env waiting once.1 in
    (length once.1.state.sends ≡ 2)
    × (length once.1.state.drips ≡ 2)
    × (twice.1.state.sends ≡ once.1.state.sends)
unfolding complete_gas_step find_recent_drip newest_first drip_unless_recent after_drip record_send
    store_drip insert_drip update_onboarding update_onboardings transaction atomic ◌>>=◌
sends_once = (refl, refl, refl)

list_admin_onboardings-bound_example :
    (rows : List OnboardingRecord) × ((list_admin_onboardings
        (some (pos 1000))
        (some (negsuc 2))
        none
        (alone started)).0
      ≡ ok rows)
    × (length rows ≤ max_admin_onboarding_limit)
list_admin_onboardings-bound_example =
    list_admin_onboardings-bound (some (pos 1000)) (some (negsuc 2)) none (alone started)
