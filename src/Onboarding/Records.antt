-- ===== src/Onboarding/Records.antt =====
-- The statements on an onboarding, onboarding/service.ts: `selectOnboardingRecord`,
-- `updateOnboarding`, `markOnboardingFailed`, `findRecentDrip` and the queue.
use benzo_main.Prelude.{
  ℕ, ◌+◌, String, Text, Bool, Option, none, some, List, ◌&&◌, leb, text_eq, str_eq, find, select,
  head_or_none,
}
use benzo_main.Service.{Action, Result, ok, error, pure, throw, atomic, ◌>>=◌}
use benzo_main.Table.{update_where, newest_first}
use benzo_main.Database.{User}
use benzo_main.Onboarding.{
  failed, KycRecord, Onboarding, Drip, OnboardingJob, OnboardingState, OnboardingEnv,
}

-- The columns of the join: of the onboarding, its user's address, and its KYC record.
pub record OnboardingRecord : Type 0 where
  pub onboarding : Onboarding
  pub address : Text
  pub kyc : Option KycRecord

abbrev pub is_of : String → Onboarding → Bool
is_of user_id o = str_eq o.user_id user_id

abbrev pub is_user : String → User → Bool
is_user id u = str_eq u.id id

abbrev pub is_kyc_of : String → KycRecord → Bool
is_kyc_of user_id k = str_eq k.user_id user_id

abbrev pub with_user : Onboarding → Option User → List KycRecord → Option OnboardingRecord
with_user o none ks = none
with_user o (some u) ks =
    some (record { onboarding = o; address = u.address; kyc = find (is_kyc_of o.user_id) ks })

abbrev pub joined_record : Option Onboarding → OnboardingState → Option OnboardingRecord
joined_record none db = none
joined_record (some o) db = with_user o (find (is_user o.user_id) db.users) db.kyc_records

unfoldable pub select_onboarding_record : String → Action OnboardingState (Option OnboardingRecord)
select_onboarding_record user_id =
    atomic λ db. (ok (joined_record (find (is_of user_id) db.onboardings) db), db)

abbrev pub or_lookup_failed : Option OnboardingRecord → Action OnboardingState OnboardingRecord
or_lookup_failed none = throw (error "onboarding_lookup_failed")
or_lookup_failed (some row) = pure row

unfoldable pub require_onboarding_record : String → Action OnboardingState OnboardingRecord
require_onboarding_record user_id = do row ← select_onboarding_record user_id; or_lookup_failed row

-- `update(onboardings).set({…, updatedAt})`
abbrev pub touched : ℕ → (Onboarding → Onboarding) → Onboarding → Onboarding
touched now f o = record (f o) { updated_at = now }

unfoldable pub update_onboardings :
    ℕ → String → (Onboarding → Onboarding) → OnboardingState → Result (Unit {0}) × OnboardingState
update_onboardings now user_id f db =
    (ok tt, record db { onboardings = update_where (is_of user_id) (touched now f) db.onboardings })

module _ (env : OnboardingEnv) where
  unfoldable pub update_onboarding :
      String → (Onboarding → Onboarding) → Action OnboardingState (Unit {0})
  update_onboarding user_id f = atomic (update_onboardings env.now user_id f)

  abbrev pub as_failed : String → Onboarding → Onboarding
  as_failed reason o = record o { error = some reason; status = failed }

  unfoldable pub mark_onboarding_failed : String → String → Action OnboardingState (Unit {0})
  mark_onboarding_failed user_id reason = update_onboarding user_id (as_failed reason)

  -- Within the last day.
  abbrev pub is_recent : Text → Drip → Bool
  is_recent address d = text_eq d.address address && leb env.now (d.dripped_at + 86400000)

  unfoldable pub find_recent_drip : Text → Action OnboardingState (Option Drip)
  find_recent_drip address = atomic λ db. (
    ok (
        head_or_none
          (newest_first (λ (d : Drip). d.dripped_at) (select (is_recent address) db.drips))),
    db,
  )

  unfoldable pub enqueue_onboarding_advance : OnboardingJob → Action OnboardingState (Option String)
  enqueue_onboarding_advance job =
      atomic λ db. (ok (env.job_id job db.jobs), record db { jobs = env.upsert_job job db.jobs })
