-- ===== src/Onramp/Poller/Run/Growth.antt =====
-- A whole pass of the poller moves the ledger only as `Grows` allows, whatever others write.
use benzo_main.Prelude.{ℕ, ◌≡◌, Text, true, Option, none, some, List, [], ◌∷◌, get_elem?}
use benzo_main.Service.{
  Exn, error, recipient_not_registered, relayer_unavailable, settle_retryable, ok, World, atomic,
}
use benzo_main.Service.Maintains.{Maintains, maintains_rules}
use benzo_main.Table.Evolution.{Evolves-get_elem?}
use benzo_main.Database.{Intent, Ledger}
use benzo_main.Database.Growth.{Grows, Grows-refl, AllGrow, AllGrow-Calm, Advances, IsNewIntent}
use benzo_main.Onramp.Status.{is_terminal_status}
use benzo_main.Onramp.Status.Reachable.{Reaches-terminal}
use benzo_main.Onramp.Intents.Growth.{atomic-Maintains}
use benzo_main.Onramp.Message.{DecodedMessage}
use benzo_main.Onramp.Poller.{IrisMessage, PollerEnv}
use benzo_main.Onramp.Poller.Steps.Growth.{
  mark_burned-Maintains, reassociate_intent-Maintains, advance_to_attested-Maintains,
  park_needs_onboarding-Maintains, fail_intent-Maintains, credit_minted-Maintains,
  credit_settled-Maintains,
}
use benzo_main.Onramp.Poller.Run.{
  PollResult, after_refusal, settle, with_key, with_registration, for_router, check_recipient,
  with_decoded, with_complete, with_message, process_intent, poll_each, poll_onramp_intents,
  due_intents,
}

module _ (env : PollerEnv) (origin : Ledger) where
  after_refusal-Maintains :
      (intent : Intent) (d : DecodedMessage) (e : Exn)
      → Maintains (Grows origin) (after_refusal env intent d e)
  unfolding after_refusal
  after_refusal-Maintains intent d recipient_not_registered =
      search (maintains_rules, park_needs_onboarding-Maintains)
  after_refusal-Maintains intent d (relayer_unavailable reason) = search maintains_rules
  after_refusal-Maintains intent d (error m) = search maintains_rules
  after_refusal-Maintains intent d (settle_retryable m) = search maintains_rules

  settle-Maintains :
      (intent : Intent) (message attestation : Text) (d : DecodedMessage)
      → Maintains (Grows origin) (settle env intent message attestation d)
  unfolding settle
  settle-Maintains intent message attestation d =
      search (maintains_rules, credit_settled-Maintains, after_refusal-Maintains) depth 7

  with_key-Maintains :
      (intent : Intent) (message attestation : Text) (d : DecodedMessage) (key : ℕ × ℕ)
      → Maintains (Grows origin) (with_key env intent message attestation d key)
  unfolding with_key
  with_key-Maintains intent message attestation d (x, y) =
      search
        (maintains_rules, fail_intent-Maintains, advance_to_attested-Maintains, settle-Maintains)

  with_registration-Maintains :
      (intent : Intent) (message attestation : Text) (d : DecodedMessage) (key : Option (ℕ × ℕ))
      → Maintains (Grows origin) (with_registration env intent message attestation d key)
  unfolding with_registration
  with_registration-Maintains intent message attestation d none =
      search (maintains_rules, park_needs_onboarding-Maintains)
  with_registration-Maintains intent message attestation d (some key) =
      with_key-Maintains intent message attestation d key

  for_router-Maintains :
      (intent : Intent) (message attestation : Text) (d : DecodedMessage)
      → Maintains (Grows origin) (for_router env intent message attestation d)
  unfolding for_router
  for_router-Maintains intent message attestation d =
      search (maintains_rules, reassociate_intent-Maintains, with_registration-Maintains)

  check_recipient-Maintains :
      (intent : Intent) (message attestation : Text) (d : DecodedMessage) (router : Option Text)
      → Maintains (Grows origin) (check_recipient env intent message attestation d router)
  unfolding check_recipient
  check_recipient-Maintains intent message attestation d none = search maintains_rules
  check_recipient-Maintains intent message attestation d (some []) = search maintains_rules
  check_recipient-Maintains intent message attestation d (some (c ∷ s)) =
      search (maintains_rules, fail_intent-Maintains, for_router-Maintains) depth 8

  with_decoded-Maintains :
      (intent : Intent) (message attestation : Text) (d : DecodedMessage)
      → Maintains (Grows origin) (with_decoded env intent message attestation d)
  unfolding with_decoded
  with_decoded-Maintains intent message attestation d =
      search (maintains_rules, fail_intent-Maintains, check_recipient-Maintains) depth 8

  with_complete-Maintains :
      (intent : Intent) (m : IrisMessage) → Maintains (Grows origin) (with_complete env intent m)
  unfolding with_complete
  with_complete-Maintains intent m = search (maintains_rules, with_decoded-Maintains) depth 8

  with_message-Maintains :
      (intent : Intent) (m : Option IrisMessage)
      → Maintains (Grows origin) (with_message env intent m)
  unfolding with_message
  with_message-Maintains intent none = search maintains_rules
  with_message-Maintains intent (some m) =
      search (maintains_rules, mark_burned-Maintains, with_complete-Maintains)

  pub process_intent-Maintains :
      (intent : Intent) → Maintains (Grows origin) (process_intent env intent)
  unfolding process_intent
  process_intent-Maintains intent =
      search (maintains_rules, credit_minted-Maintains, with_message-Maintains)

  poll_each-Maintains :
      (due : List Intent) (r : PollResult) → Maintains (Grows origin) (poll_each env due r)
  unfolding poll_each
  poll_each-Maintains [] r = search maintains_rules
  poll_each-Maintains (intent ∷ rest) r =
      search (maintains_rules, process_intent-Maintains, poll_each-Maintains rest)

  due-Maintains : Maintains (Grows origin) (atomic {S = Ledger} λ db. (ok (due_intents env db), db))
  due-Maintains = atomic-Maintains origin _ Grows-refl

  poll-Maintains : Maintains (Grows origin) (poll_onramp_intents env)
  unfolding poll_onramp_intents
  poll-Maintains = search (maintains_rules, due-Maintains, poll_each-Maintains) depth 7

-- A pass of the poller, in a world where the others also move the ledger as it may change, moves
-- it so too: no intent or deposit disappears or changes its identity, every intent's status
-- follows the transition graph, and a deposit leaves `submitted` at most once.
pub poll-Grows :
    (env : PollerEnv) (w : World Ledger)
    → AllGrow w.others
    → Grows w.state (poll_onramp_intents env w).1.state
poll-Grows env w calm =
    ((poll-Maintains env w.state).from w (Grows-refl w.state, AllGrow-Calm w.state w.others calm)).0

-- An intent that is credited or failed before a pass has the same id and status after it, at its
-- place in the table, whatever the others write, as long as they too move the ledger only as it
-- may change.
pub poll-terminal :
    (env : PollerEnv) (w : World Ledger) (i : ℕ) (x : Intent)
    → AllGrow w.others
    → get_elem? w.state.intents i ≡ some x
    → is_terminal_status x.status ≡ true
    → (y : Intent) × (get_elem? (poll_onramp_intents env w).1.state.intents i ≡ some y)
      × (x.id ≡ y.id)
      × (x.status ≡ y.status)
poll-terminal env w i x calm found terminal =
    let (y, at_place, moved) =
      Evolves-get_elem? Advances IsNewIntent w.state.intents
        (poll_onramp_intents env w).1.state.intents i x (poll-Grows env w calm).intents found in
    (y, at_place, moved.same_id, Reaches-terminal terminal moved.advanced)
