-- ===== src/Onboarding/Advance/Steps.antt =====
-- What each step of the worker of backend/services/api/src/onboarding/service.ts leaves, when
-- nobody else writes.
use benzo_main.Prelude.{◌≡◌, ◌⊎◌, refl, String, Text, Option, none, some, inl, inr, Bool-cases, leb}
use Prim.Native.String
use benzo_main.Service.{
  Action, Result, Exn, ok, err, World, alone, atomic, transaction, lift, ◌>>=◌, Result-cases,
}
use benzo_main.Table.{update_where}
use benzo_main.Onboarding.{
  OnboardingStatus, kyc_approved, allowlisted, gas_dripped, MockKycInput, Onboarding, Drip,
  OnboardingState, GasDripStepResult, sent, balance_sufficient, OnboardingEnv,
}
use benzo_main.Onboarding.Records.{
  OnboardingRecord, update_onboardings, update_onboarding, find_recent_drip, touched, is_of,
}
use benzo_main.Onboarding.Advance.{
  as_approved, as_allowlisted, as_dripped, upsert_kyc, insert_drip, approve_mock_kyc,
  complete_allowlist_step, store_drip, record_send, after_drip, drip_unless_recent,
  complete_gas_step,
}
use benzo_main.Onboarding.Advance.Stands.{Stands, IsRow, Stands-update}

module _ (env : OnboardingEnv) (address : Text) where
  -- A call of the chain client that throws this.
  abbrev pub Refused : Exn → Type 0
  Refused e =
      (env.ensure_allowlisted address ≡ err e)
      ⊎ (env.get_native_balance address ≡ err e)
      ⊎ (env.drip_gas address env.drip_wei ≡ err e)
      ⊎ (env.is_user_registered address ≡ err e)

  abbrev Standing : String → OnboardingStatus → OnboardingState → Type 0
  Standing id status db = Stands id address status db.onboardings db.users

  -- A step ended with the onboarding at its next status, or changed nothing.
  pub data Does (id : String) (next : OnboardingStatus) (db : OnboardingState)
      : Result (Unit {0}) × World OnboardingState → Type 0 where
    done :
        {out : Result (Unit {0}) × World OnboardingState} (after : OnboardingState)
        → out ≡ (ok tt, alone after)
        → Standing id next after
        → Does id next db out
    refused :
        {out : Result (Unit {0}) × World OnboardingState} (e : Exn)
        → out ≡ (err e, alone db)
        → Refused e
        → Does id next db out

  module _ {id : String} {status : OnboardingStatus} (row : OnboardingRecord)
      (is_row : IsRow id address status row) (db : OnboardingState)
      (stands : Standing id status db) where
    pub update_onboarding-Does :
        (next : OnboardingStatus) (f : Onboarding → Onboarding)
        → ((o : Onboarding) → (f o).user_id ≡ o.user_id)
        → ((o : Onboarding) → (f o).status ≡ next)
        → Does id next db (update_onboarding env row.onboarding.user_id f (alone db))
    unfolding update_onboarding update_onboardings atomic
    update_onboarding-Does next f keeps moves =
        done
          (record db {
            onboardings =
                update_where (is_of row.onboarding.user_id) (touched env.now f) db.onboardings;
          })
          refl (rw is_row.of (Stands-update env.now id f keeps moves stands))

    pub approve_mock_kyc-Does :
        (input : Option MockKycInput)
        → Does id kyc_approved db (approve_mock_kyc env row input (alone db))
    unfolding approve_mock_kyc transaction upsert_kyc update_onboardings atomic ◌>>=◌
    approve_mock_kyc-Does input = done (approve_mock_kyc env row input (alone db)).1.state refl (
        rw is_row.of
          (Stands-update env.now id (as_approved env.now) (λ o. refl) (λ o. refl) stands))

    sent-Does :
        (mode : String) (hash : Text)
        → Does id gas_dripped db (after_drip env row (sent mode hash) (alone db))
    unfolding after_drip record_send store_drip transaction insert_drip update_onboardings atomic
        ◌>>=◌
    sent-Does mode hash = done (after_drip env row (sent mode hash) (alone db)).1.state refl (
        rw is_row.of (
          Stands-update env.now id (as_dripped env.now (String.◌++◌ mode "_sent") (some hash))
            (λ o. refl) (λ o. refl) stands))

    dripped-Does :
        (result : String) (hash : Option Text)
        → Does id gas_dripped db (
            update_onboarding env row.onboarding.user_id
              (as_dripped env.now result hash)
              (alone db))
    dripped-Does result hash =
        update_onboarding-Does gas_dripped (as_dripped env.now result hash) (λ o. refl) (λ o. refl)

    after_drip-Does :
        (result : GasDripStepResult) → Does id gas_dripped db (after_drip env row result (alone db))
    unfolding after_drip
    after_drip-Does balance_sufficient = dripped-Does "balance_sufficient" none
    after_drip-Does (sent mode hash) = sent-Does mode hash

    -- A call of the client, and a step on what it answers.
    module _ {A : Type 0} (next : OnboardingStatus) (call : Result A)
        (step : A → Action OnboardingState (Unit {0})) where
      call-Does :
          ((e : Exn) → call ≡ err e → Refused e)
          → ((a : A) → call ≡ ok a → Does id next db (step a (alone db)))
          → Does id next db ((lift call >>= step) (alone db))
      unfolding ◌>>=◌
      call-Does throws does = elim (Result-cases call) [
        | inl (a, h) ↦ rw h (does a h)
        | inr (e, h) ↦ rw h (refused e refl (throws e h))
      ]

    pub complete_allowlist_step-Does :
        Does id allowlisted db (complete_allowlist_step env row (alone db))
    unfolding complete_allowlist_step
    complete_allowlist_step-Does =
        call-Does allowlisted (env.ensure_allowlisted row.address) _
          (λ e h. inl (rw is_row.lives at h))
          (λ a h.
            update_onboarding-Does allowlisted (as_allowlisted env.now a) (λ o. refl) (λ o. refl))

    drip_unless_recent-Does :
        (recent : Option Drip)
        → Does id gas_dripped db (drip_unless_recent env row recent (alone db))
    unfolding drip_unless_recent
    drip_unless_recent-Does (some d) = dripped-Does "rate_limited_existing" (some d.tx_hash)
    drip_unless_recent-Does none =
        call-Does gas_dripped (env.drip_gas row.address env.drip_wei) _
          (λ e h. inr (inr (inl (rw is_row.lives at h)))) (λ a h. after_drip-Does a)

    below_threshold-Does :
        Does id gas_dripped db
          ((find_recent_drip env row.address >>= drip_unless_recent env row) (alone db))
    unfolding ◌>>=◌ find_recent_drip atomic
    below_threshold-Does = drip_unless_recent-Does _

    pub complete_gas_step-Does : Does id gas_dripped db (complete_gas_step env row (alone db))
    unfolding complete_gas_step
    complete_gas_step-Does =
        call-Does gas_dripped (env.get_native_balance row.address) _
          (λ e h. inr (inl (rw is_row.lives at h)))
          (λ balance h. elim (Bool-cases (leb env.drip_balance_threshold_wei balance)) [
            | inl enough ↦ rw enough (dripped-Does "balance_sufficient" none)
            | inr low ↦ rw low below_threshold-Does
          ])
