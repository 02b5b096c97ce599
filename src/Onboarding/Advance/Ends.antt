-- ===== src/Onboarding/Advance/Ends.antt =====
-- The `while` loop of `advanceOnboarding`, backend/services/api/src/onboarding/service.ts: it ends,
-- and where.
use benzo_main.Prelude.{
  ℕ, suc, ◌-◌, ◌≤◌, ◌≡◌, ◌⊎◌, refl, sym, subst, Text, Bool, true, false, none, some, inl, inr,
  arith,
}
use benzo_main.Service.{Action, Result, ok, err, World, alone, atomic, pure, ◌>>=◌, Result-cases}
use benzo_main.Onboarding.{
  OnboardingStatus, pending_kyc, kyc_approved, allowlisted, gas_dripped, awaiting_registration,
  complete, failed, OnboardingJob, OnboardingState, OnboardingEnv, status_tag,
}
use benzo_main.Onboarding.Records.{
  OnboardingRecord, update_onboarding, update_onboardings, enqueue_onboarding_advance,
}
use benzo_main.Onboarding.Advance.{
  as_awaiting, as_checked, as_complete, after_registration_check, poll_registration, read_again,
  advance_step, advance_loop, advance_onboarding,
}
use benzo_main.Onboarding.Advance.Stands.{
  Stands, IsRow, Stands-update, Stands-Reads, select_onboarding_record-Reads, read_again-Reads,
}
use benzo_main.Onboarding.Advance.Steps.{
  Refused, Does, done, refused, update_onboarding-Does, approve_mock_kyc-Does,
  complete_allowlist_step-Does, complete_gas_step-Does,
}

module _ (env : OnboardingEnv) (job : OnboardingJob) (address : Text) where
  abbrev pub Standing : OnboardingStatus → OnboardingState → Type 0
  Standing status db = Stands job.user_id address status db.onboardings db.users

  -- The status that the registration decides.
  abbrev pub Settled : OnboardingStatus → Type 0
  Settled status =
      ((env.is_user_registered address ≡ ok true) × (status ≡ complete))
      ⊎ ((env.is_user_registered address ≡ ok false) × (status ≡ awaiting_registration))

  abbrev pub Final : OnboardingStatus → OnboardingStatus → Type 0
  Final complete status = status ≡ complete
  Final failed status = status ≡ failed
  Final pending_kyc status = Settled status
  Final kyc_approved status = Settled status
  Final allowlisted status = Settled status
  Final gas_dripped status = Settled status
  Final awaiting_registration status = Settled status

  -- How a run that starts at a status ends.
  abbrev pub Ends : OnboardingStatus → Result Bool × World OnboardingState → Type 0
  Ends start (ok false, w) = ⊥
  Ends start (ok true, w) =
      (status : OnboardingStatus) × Standing status w.state × Final start status
  Ends start (err e, w) =
      (status : OnboardingStatus) × Standing status w.state
      × (status_tag start ≤ status_tag status)
      × Refused env address e

  -- From the next status on.
  Ends-earlier :
      (start next : OnboardingStatus)
      → ((status : OnboardingStatus) → Final next status → Final start status)
      → status_tag start ≤ status_tag next
      → (out : Result Bool × World OnboardingState) → Ends next out
      → Ends start out
  Ends-earlier start next final le (ok true, w) (status, stands, h) =
      (status, stands, final status h)
  Ends-earlier start next final le (ok false, w) h = absurd h
  Ends-earlier start next final le (err e, w) (status, stands, at, h) =
      (status, stands, omega arith, h)

  -- A run of the loop from any row that stands at the status.
  EndsFrom : OnboardingStatus → ℕ → Type 0
  EndsFrom start fuel =
      (row : OnboardingRecord) (db : OnboardingState)
      → IsRow job.user_id address start row
      → Standing start db
      → Ends start (advance_loop env job fuel (some row) (alone db))

  -- A turn that ends with the next status, and the turns after it.
  module _ {start next : OnboardingStatus} (fuel : ℕ)
      (final : (status : OnboardingStatus) → Final next status → Final start status)
      (le : status_tag start ≤ status_tag next) (later : EndsFrom next fuel) where
    turn-Ends :
        (step : Action OnboardingState (Unit {0})) (db : OnboardingState)
        → Standing start db
        → Does env address job.user_id next db (step (alone db))
        → Ends start
            (((step >>= λ _. read_again job.user_id) >>= advance_loop env job fuel) (alone db))
    unfolding EndsFrom ◌>>=◌
    turn-Ends step db stands (done after h standing) =
        let reads = Stands-Reads after standing in
        rw (h, read_again-Reads after reads)
          (Ends-earlier start next final le _ (later reads.row after reads.is_row standing))
    turn-Ends step db stands (refused e h why) = rw h (start, stands, omega arith, why)

  registration-Ends :
      (row : OnboardingRecord) (db : OnboardingState)
      → IsRow job.user_id address awaiting_registration row
      → Standing awaiting_registration db
      → (fuel : ℕ) (registered : Bool) → env.is_user_registered address ≡ ok registered
      → Ends awaiting_registration (
          ((after_registration_check env row registered >>= λ _. pure none)
              >>= advance_loop env job fuel)
            (alone db))
  unfolding advance_loop after_registration_check update_onboarding update_onboardings
      enqueue_onboarding_advance atomic ◌>>=◌
  registration-Ends row db is_row stands fuel true h = (
    complete,
    rw is_row.of
        (Stands-update env.now job.user_id (as_complete env.now) (λ o. refl) (λ o. refl) stands),
    inl (h, refl),
  )
  registration-Ends row db is_row stands fuel false h = (
    awaiting_registration,
    rw is_row.of
        (Stands-update env.now job.user_id (as_checked env.now) (λ o. refl) (λ o. refl) stands),
    inr (h, refl),
  )

  -- A turn, by the status of its row.
  EndsFrom-turn :
      (start : OnboardingStatus) (fuel : ℕ)
      → ((row : OnboardingRecord) (db : OnboardingState)
          → IsRow job.user_id address start row
          → Standing start db
          → Ends start ((advance_step env job start row >>= advance_loop env job fuel) (alone db)))
      → EndsFrom start (suc fuel)
  unfolding EndsFrom advance_loop
  EndsFrom-turn start fuel h row db is_row stands =
      subst
        (λ status.
          Ends start ((advance_step env job status row >>= advance_loop env job fuel) (alone db)))
        (sym is_row.at) (h row db is_row stands)

  -- The statuses, from the last to the first, each with the turns that it may take.
  awaiting-EndsFrom : (fuel : ℕ) → EndsFrom awaiting_registration (suc fuel)
  unfolding advance_loop advance_step poll_registration ◌>>=◌
  awaiting-EndsFrom fuel = EndsFrom-turn awaiting_registration fuel λ row db is_row stands.
      elim (Result-cases (env.is_user_registered row.address)) [
        | inl (registered, h) ↦
            rw h (registration-Ends row db is_row stands fuel registered (rw is_row.lives at h))
        | inr (e, h) ↦
            rw h
              (awaiting_registration, stands, omega arith, inr (inr (inr (rw is_row.lives at h))))
      ]

  gas_dripped-EndsFrom : (fuel : ℕ) → EndsFrom gas_dripped (suc (suc fuel))
  unfolding advance_step
  gas_dripped-EndsFrom fuel = EndsFrom-turn gas_dripped (suc fuel) λ row db is_row stands.
      turn-Ends (suc fuel) (λ status h. h) (omega arith) (awaiting-EndsFrom fuel) _ db stands
        (update_onboarding-Does env address row is_row db stands awaiting_registration as_awaiting
          (λ o. refl) (λ o. refl))

  allowlisted-EndsFrom : (fuel : ℕ) → EndsFrom allowlisted (suc (suc (suc fuel)))
  unfolding advance_step
  allowlisted-EndsFrom fuel = EndsFrom-turn allowlisted (suc (suc fuel)) λ row db is_row stands.
      turn-Ends (suc (suc fuel)) (λ status h. h) (omega arith) (gas_dripped-EndsFrom fuel) _ db
        stands (complete_gas_step-Does env address row is_row db stands)

  kyc_approved-EndsFrom : (fuel : ℕ) → EndsFrom kyc_approved (suc (suc (suc (suc fuel))))
  unfolding advance_step
  kyc_approved-EndsFrom fuel =
      EndsFrom-turn kyc_approved (suc (suc (suc fuel))) λ row db is_row stands.
        turn-Ends (suc (suc (suc fuel))) (λ status h. h) (omega arith) (allowlisted-EndsFrom fuel) _
          db stands (complete_allowlist_step-Does env address row is_row db stands)

  pending_kyc-EndsFrom : (fuel : ℕ) → EndsFrom pending_kyc (suc (suc (suc (suc (suc fuel)))))
  unfolding advance_step
  pending_kyc-EndsFrom fuel =
      EndsFrom-turn pending_kyc (suc (suc (suc (suc fuel)))) λ row db is_row stands.
        turn-Ends (suc (suc (suc (suc fuel)))) (λ status h. h) (omega arith)
          (kyc_approved-EndsFrom fuel) _ db stands
          (approve_mock_kyc-Does env address row is_row db stands _)

  complete-EndsFrom : (fuel : ℕ) → EndsFrom complete (suc fuel)
  unfolding advance_loop advance_step ◌>>=◌
  complete-EndsFrom fuel =
      EndsFrom-turn complete fuel λ row db is_row stands. (complete, stands, refl)

  failed-EndsFrom : (fuel : ℕ) → EndsFrom failed (suc fuel)
  unfolding advance_loop advance_step ◌>>=◌
  failed-EndsFrom fuel = EndsFrom-turn failed fuel λ row db is_row stands. (failed, stands, refl)

  EndsFrom-status :
      (fuel : ℕ) (status : OnboardingStatus) → EndsFrom status (suc (suc (suc (suc (suc fuel)))))
  EndsFrom-status fuel pending_kyc = pending_kyc-EndsFrom fuel
  EndsFrom-status fuel kyc_approved = kyc_approved-EndsFrom (suc fuel)
  EndsFrom-status fuel allowlisted = allowlisted-EndsFrom (suc (suc fuel))
  EndsFrom-status fuel gas_dripped = gas_dripped-EndsFrom (suc (suc (suc fuel)))
  EndsFrom-status fuel awaiting_registration = awaiting-EndsFrom (suc (suc (suc (suc fuel))))
  EndsFrom-status fuel complete = complete-EndsFrom (suc (suc (suc (suc fuel))))
  EndsFrom-status fuel failed = failed-EndsFrom (suc (suc (suc (suc fuel))))

  EndsFrom-enough : (fuel : ℕ) (status : OnboardingStatus) → 5 ≤ fuel → EndsFrom status fuel
  EndsFrom-enough fuel status le =
      let eq : suc (suc (suc (suc (suc (fuel - 5))))) ≡ fuel = omega arith in
      subst (EndsFrom status) eq (EndsFrom-status (fuel - 5) status)

  -- When nobody else writes and the job's user has an onboarding, `advanceOnboarding` ends within
  -- five turns of its loop. If it returns, an onboarding that was not settled is complete if the
  -- chain client says that the address is registered and awaits its registration if it says that it
  -- is not, and one that was complete or failed is so still. If it throws, then a call of the chain
  -- client threw that error, and the onboarding stands at its first status or a later one.
  pub advance_onboarding-Ends :
      (fuel : ℕ) (status : OnboardingStatus) (db : OnboardingState)
      → 5 ≤ fuel
      → Standing status db
      → Ends status (advance_onboarding env job fuel (alone db))
  unfolding EndsFrom advance_onboarding ◌>>=◌
  advance_onboarding-Ends fuel status db le stands =
      let reads = Stands-Reads db stands in
      rw (select_onboarding_record-Reads db reads)
        (EndsFrom-enough fuel status le reads.row db reads.is_row stands)
