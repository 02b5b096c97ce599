-- ===== src/Payroll/Worker.antt =====
-- `processPayrollItem` and its steps, payroll/runner.ts. What lies outside (the chain, the prover,
-- the sealing of secrets, the eERC encryption) is a `PayrollEnv`. The advisory lock of
-- `withOrgPayrollLock` keeps other workers away; operators may still write between statements.
pub mod Writes
pub mod Bounds
pub mod Pause
pub mod Ties
pub mod Stays
pub mod Confirming
pub mod Attempting
pub mod OneTransaction
use Prim.Native.String
use benzo_main.Prelude.{
  ℕ, ◌+◌, ◌≡◌, String, Text, Bool, true, false, Option, none, some, List, [], ◌∷◌, ◌++◌, ◌&&◌, ◌||◌,
  str_eq, text_eq, leb, ltb, ◌==◌, find, any, if◌then◌else◌,
}
use benzo_main.Service.{
  Action, Result, Exn, ok, err, error, message, pure, throw, lift, atomic, transaction, try_catch,
  ◌>>=◌, ◌>>◌,
}
use benzo_main.Table.{update_where, insert_unless}
use benzo_main.Payroll.{
  ItemStatus, RunStatus, ready, running, paused, Run, Item, Treasury, EventLink, Broadcast,
  PayrollState,
}
use benzo_main.Payroll.Amount.{parse_payroll_amount}
use benzo_main.Payroll.Progress.{finalize_run_if_settled, is_run, is_in, update_runs}
use benzo_main.Payroll.Statements.{
  payroll_confirmations, payroll_max_attempts, status_is_ready, status_is_running, TransferContext,
  Prepared, PayrollEnv, is_item, update_items, load_runnable_item, mark_item_failed,
  mark_submitted_item_unreconciled, LoadedTreasury, load_treasury, as_submitted, as_unconfirmed,
  record_broadcast, JobItem, confirm_rows, after_attempt, job_of, is_startable, as_running,
  as_started,
}

module _ (env : PayrollEnv) where
  -- `submitPreparedTransfer`: the transaction is out, whatever the call answers.
  unfoldable pub submit_prepared : JobItem → Text → Option Text → Action PayrollState (Unit {0})
  submit_prepared job hash none = pure tt
  submit_prepared job hash (some raw) = do
    atomic
        (record_broadcast (record { item_id = job.item_id; tx_hash = hash; raw_transaction = raw }))
    lift (env.send_raw_transaction (record { raw_transaction = raw; tx_hash = hash }))

  -- `catch` of the confirmation.
  unfoldable pub after_unconfirmed : JobItem → Text → Exn → Action PayrollState (Unit {0})
  after_unconfirmed job hash e =
      if str_eq (message e) "transfer_reverted"
      then (do mark_item_failed job.item_id (message e); finalize_run_if_settled job.run_id)
      else (do
        atomic (update_items (is_item job.item_id) (as_unconfirmed hash (message e)))
        throw (error (message e)))

  abbrev sealed_raw : Option Text → Option Text
  sealed_raw none = none
  sealed_raw (some raw) = some (env.seal_string raw)

  unfoldable pub confirm_submitted_item :
      JobItem → Text → Option Text → Action PayrollState (Unit {0})
  confirm_submitted_item job hash raw = do
    atomic (update_items (is_item job.item_id) (as_submitted hash (sealed_raw raw)))
    try_catch
        (do
          submit_prepared job hash raw
          lift (env.wait_for_confirmations hash payroll_confirmations))
        (λ _. do confirm_rows job hash; finalize_run_if_settled job.run_id)
        (after_unconfirmed job hash)

  -- `buildTransferProofInput` of payroll/eerc.ts, its ciphertexts left to the environment.
  unfoldable pub build_transfer_proof_input : TransferContext → List ℕ → ℕ → Result (List ℕ)
  build_transfer_proof_input context sender amount =
      if ltb context.sender_balance amount
      then err (error "insufficient_treasury_balance")
      else ok (env.encrypt_transfer context sender amount)

  -- From the sealed keys to a signed transaction.
  unfoldable pub prepare : Item → Run → Text → LoadedTreasury → Action PayrollState Prepared
  prepare item run recipient treasury = do
    eoa_key ← lift (env.unseal_string treasury.sealed_eoa_key)
    stored ← lift (env.unseal_string treasury.sealed_eerc_key)
    sender ← lift (env.read_account stored)
    amount ← lift (parse_payroll_amount item.amount env.decimals)
    context ← lift (env.load_transfer_context recipient sender run.token_id treasury.address)
    built ← lift (build_transfer_proof_input context sender amount)
    proof ← lift (env.prove_transfer built)
    lift (env.prepare_transfer proof eoa_key recipient run.token_id)

  -- The body of the `try`: the signed transaction is stored before anything is sent.
  unfoldable pub prepare_and_store : Item → Run → Text → Action PayrollState Prepared
  prepare_and_store item run recipient = do
    treasury ← load_treasury run.org_id
    prepared ← prepare item run recipient treasury
    atomic (
        update_items (is_item item.id)
          (as_submitted prepared.tx_hash (some (env.seal_string prepared.raw_transaction))))
    pure prepared

  unfoldable pub after_failed_attempt : Item → Run → Exn → Action PayrollState (Unit {0})
  after_failed_attempt item run e =
      let attempt = item.attempt + 1 in
      do
        atomic (update_items (is_item item.id) (after_attempt attempt (message e)))
        finalize_run_if_settled run.id
        if ltb attempt payroll_max_attempts then throw (error (message e)) else pure tt

  unfoldable pub attempt_item : Item → Run → Text → Action PayrollState (Unit {0})
  attempt_item item run recipient = do
    atomic (update_runs (is_startable run.id) as_running)
    atomic (update_items (is_item item.id) (as_started (item.attempt + 1)))
    try_catch (prepare_and_store item run recipient)
        (λ prepared.
          confirm_submitted_item (job_of item run) prepared.tx_hash (some prepared.raw_transaction))
        (after_failed_attempt item run)

  unfoldable pub start_item : Item → Run → Option Text → Action PayrollState (Unit {0})
  start_item item run none = do
    mark_item_failed item.id "missing_resolved_address"
    finalize_run_if_settled run.id
  start_item item run (some recipient) =
      if leb payroll_max_attempts item.attempt
      then (do mark_item_failed item.id "max_attempts_exceeded"; finalize_run_if_settled run.id)
      else attempt_item item run recipient

  abbrev unsealed : Option Text → Result (Option Text)
  unsealed none = ok none
  unsealed (some sealed) = elim (env.unseal_string sealed) [
    | ok raw ↦ ok (some raw)
    | err e ↦ err e
  ]

  -- An item that was sent before is confirmed, never sent anew.
  unfoldable pub resume_item : Item → Run → Option Text → Action PayrollState (Unit {0})
  resume_item item run (some hash) = do
    raw ← lift (unsealed item.submission_raw_tx)
    confirm_submitted_item (job_of item run) hash raw
  resume_item item run none =
      if is_in ItemStatus.submitted item
      then mark_submitted_item_unreconciled item.id
      else start_item item run item.resolved_address

  unfoldable pub process_item : Item → Run → Action PayrollState (Unit {0})
  process_item item run =
      if status_is_running run.status || status_is_ready run.status
      then (if is_in ItemStatus.confirmed item || is_in ItemStatus.failed item
          then finalize_run_if_settled run.id
          else resume_item item run item.tx_hash)
      else pure tt

  unfoldable pub process_loaded : Option (Item × Run) → Action PayrollState (Unit {0})
  process_loaded none = pure tt
  process_loaded (some (item, run)) = process_item item run

  unfoldable pub process_payroll_item : String → Action PayrollState (Unit {0})
  process_payroll_item id = do row ← load_runnable_item id; process_loaded row
