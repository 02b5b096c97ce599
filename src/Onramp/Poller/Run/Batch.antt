-- ===== src/Onramp/Poller/Run/Batch.antt =====
-- A pass over several intents: its counters, and what one intent's throw does to the others.
use benzo_main.Prelude.{
  ℕ, ◌+◌, ◌≤◌, ◌≡◌, refl, ap, ◌∙◌, Text, true, false, some, List, [], ◌∷◌, ◌&&◌, arith, length, inl,
  inr, Bool-cases, length-take,
}
use benzo_main.Service.{
  Exn, Result, ok, err, Action, World, alone, arrive, pure, atomic, ◌>>=◌, >>=-eq-ok, ok-injective,
}
use benzo_main.Database.{minted, Intent, Ledger}
use benzo_main.Onramp.Status.{status_eq}
use benzo_main.Onramp.Message.{decode_cctp_onramp_message}
use benzo_main.Onramp.Poller.{IrisMessage, PollerEnv, PollOutcome, is_truthy}
use benzo_main.Onramp.Poller.Choice.{is_complete_iris_message, select_iris_message, require_hex}
use benzo_main.Onramp.Poller.Run.{
  PollResult, count_outcome, with_complete, with_message, process_intent, poll_each, start,
  due_intents, poll_onramp_intents,
}

abbrev pub outcomes : PollResult → ℕ
outcomes r = r.credited + r.failed + r.parked + r.pending + r.skipped

outcomes-count_outcome :
    (o : PollOutcome) (r : PollResult) → outcomes (count_outcome o r) ≡ outcomes r + 1
unfolding count_outcome
outcomes-count_outcome PollOutcome.credited r = omega arith
outcomes-count_outcome PollOutcome.failed r = omega arith
outcomes-count_outcome PollOutcome.parked r = omega arith
outcomes-count_outcome PollOutcome.pending r = omega arith
outcomes-count_outcome PollOutcome.skipped r = omega arith

polled-count_outcome : (o : PollOutcome) (r : PollResult) → (count_outcome o r).polled ≡ r.polled
unfolding count_outcome
polled-count_outcome PollOutcome.credited r = refl
polled-count_outcome PollOutcome.failed r = refl
polled-count_outcome PollOutcome.parked r = refl
polled-count_outcome PollOutcome.pending r = refl
polled-count_outcome PollOutcome.skipped r = refl

module _ (env : PollerEnv) where
  poll_each-counts :
      (due : List Intent) (r out : PollResult) (w w' : World Ledger)
      → poll_each env due r w ≡ (ok out, w')
      → (out.polled ≡ r.polled + length due) × (outcomes out ≡ outcomes r + length due)
  unfolding poll_each
  poll_each-counts [] r out w w' h =
      let same : r ≡ out = ok-injective (ap (λ (p : Result PollResult × World Ledger). p.0) h) in
      rw (← same) (omega arith, omega arith)
  poll_each-counts (x ∷ rest) r out w w' h =
      let (o, v, first, later) = >>=-eq-ok (process_intent env x) _ w w' h in
      let next = record r { polled = r.polled + 1 } in
      let (polled, counted) = poll_each-counts rest (count_outcome o next) out v w' later in
      (
        omega (arith, polled, polled-count_outcome o next),
        omega (arith, counted, outcomes-count_outcome o next),
      )

  poll_ready :
      (s : Ledger)
      → is_truthy env.router ≡ true
      → is_truthy env.relayer_private_key ≡ true
      → poll_onramp_intents env (alone s) ≡ poll_each env (due_intents env s) (start env) (alone s)
  unfolding poll_onramp_intents ◌>>=◌ atomic
  poll_ready s router key = rw router (rw key)

  throw_ends_pass :
      (x : Intent) (rest : List Intent) (r : PollResult) (e : Exn) (s : Ledger)
      → process_intent env x (alone s) ≡ (err e, alone s)
      → poll_each env (x ∷ rest) r (alone s) ≡ (err e, alone s)
  unfolding poll_each ◌>>=◌
  throw_ends_pass x rest r e s h = rw h

  undecodable_throws :
      (x : Intent) (ms : List IrisMessage) (m : IrisMessage) (message attestation : Text) (e : Exn)
      (s : Ledger)
      → (status_eq x.status minted && is_truthy x.settle_tx_hash) ≡ false
      → env.iris_messages x.source_domain x.source_tx_hash ≡ ok ms
      → select_iris_message env.codec x ms ≡ some m
      → is_complete_iris_message m ≡ true
      → require_hex m.message "message" ≡ ok message
      → require_hex m.attestation "attestation" ≡ ok attestation
      → decode_cctp_onramp_message env.codec message ≡ err e
      → process_intent env x (alone s) ≡ (err e, alone s)
  unfolding process_intent with_message with_complete ◌>>=◌
  undecodable_throws x ms m message attestation e s fresh answer chosen complete hex1 hex2 bad =
      rw fresh (rw answer (rw chosen (rw complete (rw hex1 (rw hex2 (rw bad))))))

  start_counts :
      (out : PollResult) (w w' : World Ledger)
      → pure (start env) w ≡ (ok out, w')
      → (out.polled ≡ outcomes out) × (out.polled ≤ env.limit)
  start_counts out w w' h =
      let same : start env ≡ out =
        ok-injective (ap (λ (p : Result PollResult × World Ledger). p.0) h) in
      rw (← same) (omega arith, omega arith)

  length-due_intents : (s : Ledger) → length (due_intents env s) ≤ env.limit
  unfolding due_intents
  length-due_intents s = omega (arith, length-take {0} {A = Intent} env.limit)

  read_due : Action Ledger (List Intent)
  read_due = atomic λ db. (ok (due_intents env db), db)

  length-read_due :
      (due : List Intent) (w u : World Ledger) → read_due w ≡ (ok due, u) → length due ≤ env.limit
  unfolding read_due atomic
  length-read_due due w u h =
      let same : due_intents env (arrive w.state w.others).state ≡ due =
        ok-injective (ap (λ (p : Result (List Intent) × World Ledger). p.0) h) in
      rw (← same) (length-due_intents (arrive w.state w.others).state)

  due_counts :
      (out : PollResult) (w w' : World Ledger)
      → (read_due >>= λ due. poll_each env due (start env)) w ≡ (ok out, w')
      → (out.polled ≡ outcomes out) × (out.polled ≤ env.limit)
  due_counts out w w' h =
      let (due, u, first, later) = >>=-eq-ok read_due _ w w' h in
      let (polled, counted) = poll_each-counts due (start env) out u w' later in
      (omega (arith, polled, counted), omega (arith, polled, length-read_due due w u first))

-- A pass that returns has counted each intent that it polled in exactly one outcome, and has
-- polled no more intents than its limit.
pub poll_counts :
    (env : PollerEnv) (out : PollResult) (w w' : World Ledger)
    → poll_onramp_intents env w ≡ (ok out, w')
    → (out.polled ≡ outcomes out) × (out.polled ≤ env.limit)
unfolding poll_onramp_intents read_due
poll_counts env out w w' h = elim (Bool-cases (is_truthy env.router)) [
  | inl router ↦ elim (Bool-cases (is_truthy env.relayer_private_key)) [
    | inl key ↦ due_counts env out w w' (rw (router, key) at h)
    | inr missing ↦ start_counts env out w w' (rw (router, missing) at h)
  ]
  | inr missing ↦ start_counts env out w w' (rw missing at h)
]

-- If the intent that a pass takes first has a complete Iris message that does not decode, the
-- pass throws and writes nothing, whatever intents are due behind it; so the next pass takes the
-- same intent first.
pub undecodable_blocks :
    (env : PollerEnv) (s : Ledger) (x : Intent) (rest : List Intent) (ms : List IrisMessage)
    (m : IrisMessage) (message attestation : Text) (e : Exn)
    → is_truthy env.router ≡ true
    → is_truthy env.relayer_private_key ≡ true
    → due_intents env s ≡ x ∷ rest
    → (status_eq x.status minted && is_truthy x.settle_tx_hash) ≡ false
    → env.iris_messages x.source_domain x.source_tx_hash ≡ ok ms
    → select_iris_message env.codec x ms ≡ some m
    → is_complete_iris_message m ≡ true
    → require_hex m.message "message" ≡ ok message
    → require_hex m.attestation "attestation" ≡ ok attestation
    → decode_cctp_onramp_message env.codec message ≡ err e
    → poll_onramp_intents env (alone s) ≡ (err e, alone s)
undecodable_blocks env s x rest ms m message attestation e router key due fresh answer chosen
      complete hex1 hex2 bad =
    poll_ready env s router key
    ∙ rw due (
        throw_ends_pass env x rest (start env) e s (
          undecodable_throws env x ms m message attestation e s fresh answer chosen complete hex1
            hex2 bad))
