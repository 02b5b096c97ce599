-- ===== src/Onboarding/Advance/Drips.antt =====
-- The gas drips of backend/services/api/src/onboarding/service.ts: one address gets no two within a
-- day of each other, and has a row for each.
use benzo_main.Prelude.{
  ◌+◌, ◌≡◌, String, Text, Bool, false, Option, none, some, List, [], ◌∷◌, ◌++◌, ◌&&◌, inl, inr,
  Option-cases, to_decimal, Bool-cases, All, All-append, All-imp, any, true, ◌||◌, ◌==◌, ==_iff,
  text_eq_iff, text_eq_refl, arith, ◌∙◌, leb, text_eq, select, head_or_none,
}
use benzo_main.Service.{Result, ok, err, World, atomic, transaction, ◌>>=◌}
use benzo_main.Service.Leads.{Leads, KeepStages, Leads-atomic, Leads-lift, Leads-bind, Leads-if}
use benzo_main.Table.{newest_first}
use benzo_main.Table.Rows.{select-none}
use Prim.Native.String
use benzo_main.Table.{update_where}
use benzo_main.Onboarding.{
  Onboarding, Send, Drip, OnboardingState, GasDripStepResult, sent, balance_sufficient,
  OnboardingEnv,
}
use benzo_main.Onboarding.Records.{
  OnboardingRecord, is_of, touched, is_recent, update_onboardings, update_onboarding,
  find_recent_drip,
}
use benzo_main.Onboarding.Advance.{
  as_dripped, insert_drip, record_send, store_drip, after_drip, drip_unless_recent,
  complete_gas_step,
}

-- The second was sent no more than a day after the first, to the same address.
abbrev pub within_day : Send → Send → Bool
within_day d e = text_eq d.address e.address && leb e.sent_at (d.sent_at + 86400000)

abbrev pub Spaced : List Send → Type 0
Spaced [] = Unit
Spaced (d ∷ ds) = All (λ e. within_day d e ≡ false) ds × Spaced ds

Spaced-append :
    (ds : List Send) (e : Send)
    → All (λ d. within_day d e ≡ false) ds
    → Spaced ds
    → Spaced (ds ++ e ∷ [])
Spaced-append [] e h s = (tt, tt)
Spaced-append (d ∷ ds) e h s = (All-append _ ds (e ∷ []) s.0 (h.0, tt), Spaced-append ds e h.1 s.1)

abbrev pub is_row_of : Send → Drip → Bool
is_row_of e d = text_eq d.address e.address && d.dripped_at == e.sent_at

-- Each drip that was sent has its row.
abbrev pub Recorded : List Drip → List Send → Type 0
Recorded rows sends = All (λ e. any (is_row_of e) rows ≡ true) sends

any-append_one :
    {A : Type 0} (p : A → Bool) (xs : List A) (x : A) → any p (xs ++ x ∷ []) ≡ (any p xs || p x)
any-append_one p [] x = ground arith
any-append_one p (y ∷ ys) x = ground (arith, any-append_one p ys x)

-- What the step knows: nothing, that the address was sent no drip within the last day, or that it
-- has just been sent one, which may have no row yet.
pub data Known : Type 0 where
  nothing clear unstored : Known

module _ (env : OnboardingEnv) (row : OnboardingRecord) where
  abbrev pub is_late : Send → Bool
  is_late e = text_eq e.address row.address && leb env.now (e.sent_at + 86400000)

  abbrev pub is_this : Send → Bool
  is_this e = text_eq row.address e.address && env.now == e.sent_at

  abbrev pub DripsAre : Known → OnboardingState → Type 0
  DripsAre nothing db = Spaced db.sends × Recorded db.drips db.sends
  DripsAre clear db =
      All (λ e. is_late e ≡ false) db.sends × Spaced db.sends × Recorded db.drips db.sends
  DripsAre unstored db =
      Spaced db.sends × All (λ e. (any (is_row_of e) db.drips || is_this e) ≡ true) db.sends

  row-late :
      (e : Send) (d : Drip)
      → is_row_of e d ≡ true
      → is_recent env row.address d ≡ false
      → is_late e ≡ false
  row-late e d same h =
      let hit : text_eq d.address e.address ≡ true = ground (arith, same) in
      let at : (d.dripped_at == e.sent_at) ≡ true = ground (arith, same) in
      let is_address = (text_eq_iff d.address e.address).0 hit in
      let is_time = (==_iff d.dripped_at e.sent_at).0 at in rw (← is_address, ← is_time) h

  rows-late :
      (e : Send) (rows : List Drip)
      → All (λ d. is_recent env row.address d ≡ false) rows
      → any (is_row_of e) rows ≡ true
      → is_late e ≡ false
  rows-late e [] h has_row = cc has_row
  rows-late e (d ∷ rows) h has_row = elim (Bool-cases (is_row_of e d)) [
    | inl same ↦ row-late e d same h.0
    | inr other ↦ rows-late e rows h.1 (rw other at has_row)
  ]

  -- An update of the onboarding leaves the drips alone.
  update_onboarding-Leads :
      (f : Onboarding → Onboarding)
      → Leads DripsAre nothing (update_onboarding env row.onboarding.user_id f) (λ r. nothing)
  unfolding update_onboarding update_onboardings
  update_onboarding-Leads f = Leads-atomic DripsAre nothing _ _ λ s i. i

  clear_update-Leads :
      (f : Onboarding → Onboarding)
      → Leads DripsAre clear (update_onboarding env row.onboarding.user_id f) (λ r. nothing)
  unfolding update_onboarding update_onboardings
  clear_update-Leads f =
      Leads-atomic DripsAre clear _ _ λ s (late, spaced, recorded). (spaced, recorded)

  abbrev after_send : Result (Unit {0}) → Known
  after_send (ok a) = unstored
  after_send (err e) = nothing

  record_send-Leads : Leads DripsAre clear (atomic (record_send env row.address)) after_send
  unfolding record_send
  record_send-Leads = Leads-atomic DripsAre clear _ _ λ s (late, spaced, recorded). (
    Spaced-append s.sends _ late spaced,
    All-append _ s.sends _ (All-imp _ _ s.sends (λ e has_row. ground (arith, has_row)) recorded)
        (ground (arith, text_eq_refl row.address), tt),
  )

  module _ (mode : String) (hash : Text) where
    -- The state after the transaction.
    abbrev stored : OnboardingState → Result (Unit {0}) × OnboardingState
    stored db = (
      ok tt,
      record db {
        drips =
            db.drips
            ++ record {
              user_id = row.onboarding.user_id;
              address = row.address;
              chain_env = env.chain_env;
              chain_id = env.benzonet_chain_id;
              amount_wei = to_decimal env.drip_wei;
              tx_hash = hash;
              mode = mode;
              dripped_at = env.now;
            }
              ∷ [];
        onboardings =
            update_where (is_of row.onboarding.user_id)
              (touched env.now (as_dripped env.now (String.◌++◌ mode "_sent") (some hash)))
              db.onboardings;
      },
    )

    stored-Leads : Leads DripsAre unstored (atomic stored) (λ r. nothing)
    stored-Leads = Leads-atomic DripsAre unstored stored _ λ s (spaced, recorded).
        (spaced, All-imp _ _ s.sends (λ e h. any-append_one (is_row_of e) s.drips _ ∙ h) recorded)

    store_drip-Leads : Leads DripsAre unstored (store_drip env row mode hash) (λ r. nothing)
    unfolding store_drip insert_drip update_onboardings transaction atomic ◌>>=◌
    store_drip-Leads = stored-Leads

  after_drip-Leads :
      (result : GasDripStepResult) → Leads DripsAre clear (after_drip env row result) (λ r. nothing)
  unfolding after_drip
  after_drip-Leads balance_sufficient = clear_update-Leads _
  after_drip-Leads (sent mode hash) =
      Leads-bind DripsAre clear _ _ after_send _ record_send-Leads (λ a. store_drip-Leads mode hash)
        (λ e s i. i)

  -- What the newest drip of the last day tells.
  abbrev told : Result (Option Drip) → Known
  told (ok none) = clear
  told (ok (some d)) = nothing
  told (err e) = nothing

  all_late :
      (s : OnboardingState)
      → DripsAre nothing s
      → All (λ d. is_recent env row.address d ≡ false) s.drips
      → All (λ e. is_late e ≡ false) s.sends
  all_late s i h = All-imp _ _ s.sends (λ e has_row. rows-late e s.drips h has_row) i.1

  find_recent_drip-Leads : Leads DripsAre nothing (find_recent_drip env row.address) told
  unfolding find_recent_drip
  find_recent_drip-Leads = Leads-atomic DripsAre nothing _ _ λ s i.
      elim (Option-cases (
        head_or_none (
          newest_first (λ (d : Drip). d.dripped_at)
            (select (is_recent env row.address) s.drips)))) [
              | inl h ↦ rw h (
                all_late s i (
                    select-none (λ (d : Drip). d.dripped_at) (is_recent env row.address) s.drips h),
                i.0,
                i.1,
              )
              | inr (d, h) ↦ rw h i
            ]

  drip_unless_recent-Leads :
      (recent : Option Drip)
      → Leads DripsAre (told (ok recent)) (drip_unless_recent env row recent) (λ r. nothing)
  unfolding drip_unless_recent
  drip_unless_recent-Leads (some d) = update_onboarding-Leads _
  drip_unless_recent-Leads none =
      Leads-bind DripsAre clear _ _ (λ r. clear) _ (Leads-lift DripsAre clear _ _ λ s i. i)
        after_drip-Leads (λ e s (late, spaced, recorded). (spaced, recorded))

  complete_gas_step-Leads : Leads DripsAre nothing (complete_gas_step env row) (λ r. nothing)
  unfolding complete_gas_step
  complete_gas_step-Leads =
      Leads-bind DripsAre nothing _ _ (λ r. nothing) _ (Leads-lift DripsAre nothing _ _ λ s i. i)
        (λ balance.
          Leads-if DripsAre nothing (leb env.drip_balance_threshold_wei balance)
            (update_onboarding env row.onboarding.user_id
              (as_dripped env.now "balance_sufficient" none))
            _ _ (λ enough. update_onboarding-Leads (as_dripped env.now "balance_sufficient" none))
            (λ low.
              Leads-bind DripsAre nothing _ _ told _ find_recent_drip-Leads drip_unless_recent-Leads
                (λ e s i. i)))
        (λ e s i. i)

  -- If the chain client sent no two drips to one address within a day of each other, and each that
  -- it sent has its row, then so it is after `completeGasStep`, whether it returns or throws. The
  -- others keep that so in every stage of the step: they send no drip to this address between its
  -- look for a recent one and its own row, and erase no row that is needed.
  pub complete_gas_step-Spaced :
      (w : World OnboardingState)
      → KeepStages DripsAre w.others
      → Spaced w.state.sends
      → Recorded w.state.drips w.state.sends
      → Spaced (complete_gas_step env row w).1.state.sends
        × Recorded
            (complete_gas_step env row w).1.state.drips
            (complete_gas_step env row w).1.state.sends
  complete_gas_step-Spaced w keep spaced recorded =
      (complete_gas_step-Leads.run w keep (spaced, recorded)).1
