-- ===== src/Payroll/Worker/Writes.antt =====
-- Everything that one job writes: an invariant that each of these writes maintains is maintained
-- by the job, whatever else is written in between by others who maintain it too.
use benzo_main.Prelude.{ℕ, ◌+◌, ◌≤◌, ◌≡◌, String, Text, Bool, false, Option, none, some, arith, leb}
use benzo_main.Service.{Exn, atomic}
use benzo_main.Service.Maintains.{Maintains, maintains_rules, Maintains-atomic}
use benzo_main.Payroll.{Item, Run, RunStatus, complete, EventLink, Broadcast, PayrollState}
use benzo_main.Payroll.Progress.{
  ProgressCounts, get_payroll_progress_counts, is_run, with_outcome, update_runs, finalize_with,
  finalize_run_if_settled,
}
use benzo_main.Payroll.Statements.{
  PayrollEnv, LoadedTreasury, JobItem, is_item, update_items, as_failed, as_unreconciled,
  as_submitted, as_confirmed, as_unconfirmed, after_attempt, as_started, as_running, is_startable,
  insert_link, record_broadcast, load_runnable_item, mark_item_failed,
  mark_submitted_item_unreconciled, load_treasury, confirm_rows, payroll_max_attempts,
}
use benzo_main.Payroll.Worker.{
  submit_prepared, after_unconfirmed, confirm_submitted_item, prepare, prepare_and_store,
  after_failed_attempt, attempt_item, start_item, resume_item, process_item, process_loaded,
  process_payroll_item,
}

-- How a job may rewrite the row of its item.
pub data ItemWrite : (Item → Item) → Type 0 where
  to_failed : (reason : String) → ItemWrite (as_failed reason)
  to_unreconciled : ItemWrite as_unreconciled
  to_submitted : (hash : Text) (sealed : Option Text) → ItemWrite (as_submitted hash sealed)
  to_confirmed : (hash : Text) → ItemWrite (as_confirmed hash)
  to_unconfirmed : (hash : Text) (reason : String) → ItemWrite (as_unconfirmed hash reason)
  to_retry : (attempt : ℕ) (reason : String) → ItemWrite (after_attempt attempt reason)
  to_started : (attempt : ℕ) → attempt ≤ payroll_max_attempts → ItemWrite (as_started attempt)

pub data RunWrite : (Run → Bool) → (Run → Run) → Type 0 where
  to_complete : (id : String) → RunWrite (is_run id) (with_outcome complete none)
  to_settled_failed :
      (id : String) (reason : Option String)
      → RunWrite (is_run id) (with_outcome RunStatus.failed reason)
  to_running : (id : String) → RunWrite (is_startable id) as_running

-- `I` is maintained by every write of a job.
pub record WritesMaintain (I : PayrollState → Type 0) : Type 0 where
  pub on_item :
      (id : String) (f : Item → Item) (s : PayrollState)
      → ItemWrite f
      → I s
      → I (update_items (is_item id) f s).1
  pub on_run :
      (p : Run → Bool) (f : Run → Run) (s : PayrollState)
      → RunWrite p f
      → I s
      → I (update_runs p f s).1
  pub on_link : (row : EventLink) (s : PayrollState) → I s → I (insert_link row s).1
  pub on_broadcast : (b : Broadcast) (s : PayrollState) → I s → I (record_broadcast b s).1

attempts_left : (n : ℕ) → leb payroll_max_attempts n ≡ false → n + 1 ≤ payroll_max_attempts
attempts_left n h = ground arith

module _ {I : PayrollState → Type 0} (writes : WritesMaintain I) where
  item_write :
      (id : String) (f : Item → Item)
      → ItemWrite f
      → Maintains I (atomic (update_items (is_item id) f))
  item_write id f how = Maintains-atomic _ λ s h. writes.on_item id f s how h

  run_write :
      (p : Run → Bool) (f : Run → Run) → RunWrite p f → Maintains I (atomic (update_runs p f))
  run_write p f how = Maintains-atomic _ λ s h. writes.on_run p f s how h

  link_write : (row : EventLink) → Maintains I (atomic (insert_link row))
  link_write row = Maintains-atomic _ λ s h. writes.on_link row s h

  broadcast_write : (b : Broadcast) → Maintains I (atomic (record_broadcast b))
  broadcast_write b = Maintains-atomic _ λ s h. writes.on_broadcast b s h

  counts_read : (id : String) → Maintains I (get_payroll_progress_counts id)
  unfolding get_payroll_progress_counts
  counts_read id = Maintains-atomic _ λ s h. h

  item_read : (id : String) → Maintains I (load_runnable_item id)
  unfolding load_runnable_item
  item_read id = Maintains-atomic _ λ s h. h

  treasury_read : (org : String) → Maintains I (load_treasury org)
  unfolding load_treasury
  treasury_read org = Maintains-atomic _ λ s h. h

  finalize_with-Maintains : (id : String) (c : ProgressCounts) → Maintains I (finalize_with id c)
  unfolding finalize_with
  finalize_with-Maintains id c = search (maintains_rules, run_write, to_complete, to_settled_failed)

  finalize-Maintains : (id : String) → Maintains I (finalize_run_if_settled id)
  unfolding finalize_run_if_settled
  finalize-Maintains id = search (maintains_rules, counts_read, finalize_with-Maintains)

  mark_item_failed-Maintains : (id reason : String) → Maintains I (mark_item_failed id reason)
  unfolding mark_item_failed
  mark_item_failed-Maintains id reason = item_write id _ (to_failed reason)

  unreconciled-Maintains : (id : String) → Maintains I (mark_submitted_item_unreconciled id)
  unfolding mark_submitted_item_unreconciled
  unreconciled-Maintains id = item_write id _ to_unreconciled

  confirm_rows-Maintains : (job : JobItem) (hash : Text) → Maintains I (confirm_rows job hash)
  unfolding confirm_rows
  confirm_rows-Maintains job hash = search (maintains_rules, item_write, to_confirmed, link_write)

  submit_prepared-Maintains :
      (env : PayrollEnv) (job : JobItem) (hash : Text) (raw : Option Text)
      → Maintains I (submit_prepared env job hash raw)
  unfolding submit_prepared
  submit_prepared-Maintains env job hash none = search maintains_rules
  submit_prepared-Maintains env job hash (some raw) = search (maintains_rules, broadcast_write)

  after_unconfirmed-Maintains :
      (env : PayrollEnv) (job : JobItem) (hash : Text) (e : Exn)
      → Maintains I (after_unconfirmed env job hash e)
  unfolding after_unconfirmed
  after_unconfirmed-Maintains env job hash e =
      search (
        maintains_rules, mark_item_failed-Maintains, finalize-Maintains, item_write, to_unconfirmed,
      )

  confirm-Maintains :
      (env : PayrollEnv) (job : JobItem) (hash : Text) (raw : Option Text)
      → Maintains I (confirm_submitted_item env job hash raw)
  unfolding confirm_submitted_item
  confirm-Maintains env job hash raw =
      search
        (
          maintains_rules, item_write, to_submitted, submit_prepared-Maintains,
          confirm_rows-Maintains, finalize-Maintains, after_unconfirmed-Maintains,
        )
        depth 7

  prepare-Maintains :
      (env : PayrollEnv) (item : Item) (run : Run) (recipient : Text) (t : LoadedTreasury)
      → Maintains I (prepare env item run recipient t)
  unfolding prepare
  prepare-Maintains env item run recipient t = search maintains_rules depth 20

  prepare_and_store-Maintains :
      (env : PayrollEnv) (item : Item) (run : Run) (recipient : Text)
      → Maintains I (prepare_and_store env item run recipient)
  unfolding prepare_and_store
  prepare_and_store-Maintains env item run recipient =
      search (maintains_rules, treasury_read, prepare-Maintains, item_write, to_submitted) depth 8

  failed_attempt-Maintains :
      (env : PayrollEnv) (item : Item) (run : Run) (e : Exn)
      → Maintains I (after_failed_attempt env item run e)
  unfolding after_failed_attempt
  failed_attempt-Maintains env item run e =
      search (maintains_rules, item_write, to_retry, finalize-Maintains) depth 7

  attempt_item-Maintains :
      (env : PayrollEnv) (item : Item) (run : Run) (recipient : Text)
      → item.attempt + 1 ≤ payroll_max_attempts
      → Maintains I (attempt_item env item run recipient)
  unfolding attempt_item
  attempt_item-Maintains env item run recipient fits =
      search
        (
          maintains_rules, run_write, to_running, item_write, to_started, fits,
          prepare_and_store-Maintains, confirm-Maintains, failed_attempt-Maintains,
        )
        depth 7

  start_item-Maintains :
      (env : PayrollEnv) (item : Item) (run : Run) (recipient : Option Text)
      → Maintains I (start_item env item run recipient)
  unfolding start_item
  start_item-Maintains env item run none =
      search (maintains_rules, mark_item_failed-Maintains, finalize-Maintains)
  start_item-Maintains env item run (some recipient) = search (
    maintains_rules, mark_item_failed-Maintains, finalize-Maintains, attempt_item-Maintains,
    attempts_left,
  )

  resume_item-Maintains :
      (env : PayrollEnv) (item : Item) (run : Run) (hash : Option Text)
      → Maintains I (resume_item env item run hash)
  unfolding resume_item
  resume_item-Maintains env item run none =
      search (maintains_rules, unreconciled-Maintains, start_item-Maintains)
  resume_item-Maintains env item run (some hash) = search (maintains_rules, confirm-Maintains)

  pub process_item-Maintains :
      (env : PayrollEnv) (item : Item) (run : Run) → Maintains I (process_item env item run)
  unfolding process_item
  process_item-Maintains env item run =
      search (maintains_rules, finalize-Maintains, resume_item-Maintains)

  process_loaded-Maintains :
      (env : PayrollEnv) (row : Option (Item × Run)) → Maintains I (process_loaded env row)
  unfolding process_loaded
  process_loaded-Maintains env none = search maintains_rules
  process_loaded-Maintains env (some (item, run)) = process_item-Maintains env item run

  pub process-Maintains :
      (env : PayrollEnv) (id : String) → Maintains I (process_payroll_item env id)
  unfolding process_payroll_item
  process-Maintains env id = search (maintains_rules, item_read, process_loaded-Maintains)
