-- ===== src/Onboarding/Start/Stands.antt =====
-- `startOnboarding` of backend/services/api/src/onboarding/service.ts, alone and before a run of
-- the worker.
use benzo_main.Prelude.{
  ℕ, ◌≤◌, ◌≡◌, refl, ◌∙◌, String, Bool, true, false, Option, none, some, List, [], ◌∷◌, ◌++◌, ◌||◌,
  inl, inr, Bool-cases, find, eq_refl, if◌then◌else◌,
}
use benzo_main.Service.{Action, ok, alone, atomic, transaction, pure, ◌>>=◌, >>=-step}
use benzo_main.Table.Rows.{find-append_new, any-of-find, any-of-none}
use benzo_main.Database.{User}
use benzo_main.Onboarding.{
  OnboardingStatus, pending_kyc, complete, failed, MockKycInput, Onboarding, OnboardingJob,
  OnboardingState, OnboardingEnv, has_status,
}
use benzo_main.Onboarding.Records.{is_of, is_user, update_onboardings, enqueue_onboarding_advance}
use benzo_main.Onboarding.Advance.{advance_onboarding}
use benzo_main.Onboarding.Advance.Stands.{
  Stands, Stands-update_from, Reads, Stands-Reads, select_onboarding_record-Reads,
}
use benzo_main.Onboarding.Advance.Ends.{Ends, advance_onboarding-Ends}
use benzo_main.Onboarding.Start.{
  StartOnboardingInput, new_onboarding, insert_onboarding, with_input, lacks_input, enqueue_found,
  start_in, start_onboarding,
}

-- The status that a user's onboarding has once it is started.
abbrev pub started_status : Option Onboarding → OnboardingStatus
started_status none = pending_kyc
started_status (some o) = o.status

-- A job for the user's onboarding.
abbrev pub advance_job : StartOnboardingInput → Option MockKycInput → OnboardingJob
advance_job input mock_kyc = record {
  address = input.address;
  mock_kyc = mock_kyc;
  user_id = input.user_id;
  start_after = none;
}

module _ (env : OnboardingEnv) (input : StartOnboardingInput) (db : OnboardingState) where
  abbrev Standing : OnboardingStatus → OnboardingState → Type 0
  Standing status s = Stands input.user_id input.address status s.onboardings s.users

  -- What the transaction leaves.
  record Left (status : OnboardingStatus) (m : Action OnboardingState (Option String))
      (s : OnboardingState) : Type 0 where
    pub after : OnboardingState
    pub job_id : Option String
    pub left : m (alone s) ≡ (ok job_id, alone after)
    pub standing : Standing status after

  enqueue-Left :
      (job : OnboardingJob) (status : OnboardingStatus) (s : OnboardingState)
      → Standing status s
      → Left status (enqueue_onboarding_advance env job) s
  unfolding enqueue_onboarding_advance atomic
  enqueue-Left job status s h = record {
    after = record s { jobs = env.upsert_job job s.jobs };
    job_id = env.job_id job s.jobs;
    left = refl;
    standing = h;
  }

  -- The mock KYC input is written, or not, and the job is put in the queue.
  write_and_enqueue-Left :
      (write : Bool) (job : OnboardingJob) (status : OnboardingStatus) (s : OnboardingState)
      → Standing status s
      → Left status
          ((if write
              then atomic (update_onboardings env.now input.user_id (with_input env input.mock_kyc))
              else pure tt)
            >>= λ _. enqueue_onboarding_advance env job)
          s
  unfolding update_onboardings atomic ◌>>=◌
  write_and_enqueue-Left false job status s h = enqueue-Left job status s h
  write_and_enqueue-Left true job status s h =
      let l = enqueue-Left job status _ (
        Stands-update_from env.now input.user_id (with_input env input.mock_kyc) (λ o. refl)
          (λ o at. at) h) in
      record { after = l.after; job_id = l.job_id; left = l.left; standing = l.standing }

  enqueue_found-Left :
      (o : Onboarding) (s : OnboardingState)
      → Standing o.status s
      → Left o.status (enqueue_found env input (some o)) s
  unfolding enqueue_found
  enqueue_found-Left o s h = elim (Bool-cases (has_status complete o || has_status failed o)) [
    | inl over ↦ rw over (record { after = s; job_id = none; left = refl; standing = h })
    | inr going ↦
        rw going (write_and_enqueue-Left (lacks_input env o input.mock_kyc) _ o.status s h)
  ]

  module _ (u : User) (known : find (is_user input.user_id) db.users ≡ some u)
      (lives : u.address ≡ input.address) where
    Standing-of :
        (o : Onboarding) (os : List Onboarding)
        → find (is_of input.user_id) os ≡ some o
        → Standing o.status (record db { onboardings = os })
    Standing-of o os h = record {
      onboarding = o;
      found = h;
      at = refl;
      user = u;
      known = known;
      lives = lives;
    }

    Left-eq :
        {status : OnboardingStatus} {m n : Action OnboardingState (Option String)}
        (s : OnboardingState)
        → m (alone db) ≡ n (alone s)
        → Left status n s
        → Left status m db
    Left-eq s h l = record {
      after = l.after;
      job_id = l.job_id;
      left = h ∙ l.left;
      standing = l.standing;
    }

    start_in-new :
        find (is_of input.user_id) db.onboardings ≡ none
        → start_in env input (alone db)
          ≡ enqueue_found env input
              (some (new_onboarding env input))
              (alone (record db { onboardings = db.onboardings ++ new_onboarding env input ∷ [] }))
    unfolding start_in insert_onboarding new_onboarding atomic ◌>>=◌
    start_in-new h = rw (any-of-none (is_of input.user_id) db.onboardings h) refl

    start_in-again :
        (o : Onboarding)
        → find (is_of input.user_id) db.onboardings ≡ some o
        → start_in env input (alone db) ≡ enqueue_found env input (some o) (alone db)
    unfolding start_in insert_onboarding new_onboarding atomic ◌>>=◌
    start_in-again o h = rw (any-of-find (is_of input.user_id) db.onboardings o h, h) refl

    appended :
        find (is_of input.user_id) db.onboardings ≡ none
        → find (is_of input.user_id) (db.onboardings ++ new_onboarding env input ∷ [])
          ≡ some (new_onboarding env input)
    unfolding new_onboarding
    appended h =
        find-append_new (is_of input.user_id) db.onboardings (new_onboarding env input)
          (any-of-none (is_of input.user_id) db.onboardings h) (eq_refl input.user_id)

    start_in-Left :
        (found : Option Onboarding)
        → find (is_of input.user_id) db.onboardings ≡ found
        → Left (started_status found) (start_in env input) db
    unfolding new_onboarding
    start_in-Left none h = Left-eq _ (start_in-new h) (
        enqueue_found-Left (new_onboarding env input) _
          (Standing-of (new_onboarding env input) _ (appended h)))
    start_in-Left (some o) h =
        Left-eq db (start_in-again o h) (enqueue_found-Left o db (Standing-of o db.onboardings h))

    transaction-Left :
        (status : OnboardingStatus) (l : Left status (start_in env input) db)
        → transaction (start_in env input) (alone db) ≡ (ok l.job_id, alone l.after)
    unfolding transaction atomic
    transaction-Left status l = rw l.left refl

    started-eq :
        (status : OnboardingStatus) (l : Left status (start_in env input) db)
        (r : Reads input.user_id input.address status l.after)
        → start_onboarding env input (alone db)
          ≡ (ok (record { job_id = l.job_id; onboarding = r.row }), alone l.after)
    unfolding start_onboarding ◌>>=◌
    started-eq status l r =
        rw (transaction-Left status l, select_onboarding_record-Reads l.after r) refl

    -- When nobody else writes, starting the onboarding of a user who is in the table and then
    -- running the worker on it, with any mock KYC input in the job, ends within five turns of its
    -- loop. A new onboarding starts as pending and one that is there from the status that it has:
    -- if the worker returns, one that was not settled is complete or awaits its registration, as the
    -- chain client says, and a complete or failed one is so still; if it throws, a call of the chain
    -- client threw that error.
    pub start_onboarding-Ends :
        (fuel : ℕ) (mock_kyc : Option MockKycInput)
        → 5 ≤ fuel
        → Ends env
            (advance_job input mock_kyc)
            input.address
            (started_status (find (is_of input.user_id) db.onboardings))
            ((start_onboarding env input >>= λ r.
                advance_onboarding env (advance_job input mock_kyc) fuel)
              (alone db))
    start_onboarding-Ends fuel mock_kyc le =
        let status = started_status (find (is_of input.user_id) db.onboardings) in
        let l = start_in-Left (find (is_of input.user_id) db.onboardings) refl in
        let r = Stands-Reads l.after l.standing in
        rw
          (>>=-step (start_onboarding env input)
            (λ r. advance_onboarding env (advance_job input mock_kyc) fuel) (alone db)
            (started-eq status l r))
          (advance_onboarding-Ends env (advance_job input mock_kyc) input.address fuel status
            l.after le l.standing)
