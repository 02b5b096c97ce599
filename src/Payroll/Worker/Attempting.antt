-- ===== src/Payroll/Worker/Attempting.antt =====
-- An attempt at an item, from its guards to its confirmation, ends with every broadcast backed.
use benzo_main.Prelude.{refl, String, Text, Option, none, some}
use benzo_main.Service.{Result, Exn, ok, err, pure, atomic, ◌>>=◌}
use benzo_main.Service.Leads.{Leads, Leads-atomic, Leads-bind, Leads-try_catch}
use benzo_main.Payroll.{Item, Run}
use benzo_main.Payroll.Progress.{finalize_run_if_settled}
use benzo_main.Payroll.Statements.{
  PayrollEnv, LoadedTreasury, Prepared, is_item, update_items, as_submitted, mark_item_failed,
  job_of,
}
use benzo_main.Payroll.Worker.{
  prepare, prepare_and_store, after_failed_attempt, attempt_item, start_item, resume_item,
  process_item,
}
use benzo_main.Payroll.Worker.Ties.{Stage, tied, Inv, first_hash-TiedRows}
use benzo_main.Payroll.Worker.Stays.{
  Stays, Ends, run_write, Stays-pure, Stays-lift, Ends-if, Ends-Stays, Ends-bind, stays_rules,
  treasury_read, finalize-Stays, mark_item_failed-Stays, unreconciled-Stays, started-Stays,
  retry-Stays,
}
use benzo_main.Payroll.Worker.Confirming.{confirm-Stays}

-- Where the stored transaction leaves the rows.
abbrev stored : Result Prepared → Stage
stored (ok prepared) = tied (some prepared.tx_hash)
stored (err e) = tied none

abbrev written : Text → Result (Unit {0}) → Stage
written hash (ok u) = tied (some hash)
written hash (err e) = tied none

module _ (env : PayrollEnv) (item : Item) (run : Run) where
  prepare-Stays :
      (recipient : Text) (t : LoadedTreasury)
      → Stays item.id (tied none) (prepare env item run recipient t)
  unfolding prepare
  prepare-Stays recipient t = search stays_rules depth 20

  first_write :
      (prepared : Prepared)
      → Leads
          (Inv item.id)
          (tied none)
          (atomic (
            update_items
              (is_item item.id)
              (as_submitted prepared.tx_hash (some (env.seal_string prepared.raw_transaction)))))
          (written prepared.tx_hash)
  unfolding update_items
  first_write prepared =
      Leads-atomic _ _ _ _
        λ s h. first_hash-TiedRows item.id prepared.tx_hash _ s (λ _. refl) (λ _. refl) h

  store-Leads :
      (prepared : Prepared)
      → Leads
          (Inv item.id)
          (tied none)
          (atomic (
              update_items
                (is_item item.id)
                (as_submitted prepared.tx_hash (some (env.seal_string prepared.raw_transaction))))
            >>= λ _. pure prepared)
          stored
  store-Leads prepared =
      Leads-bind _ _ _ _ (written prepared.tx_hash) _ (first_write prepared)
        (λ _. record { run = λ w h i. (h, i) }) (λ e s h. h)

  prepare_and_store-Leads :
      (recipient : Text)
      → Leads (Inv item.id) (tied none) (prepare_and_store env item run recipient) stored
  unfolding prepare_and_store
  prepare_and_store-Leads recipient =
      Leads-bind _ _ _ _ (λ _. tied none) _ (treasury_read item.id (tied none) run.org_id)
        (λ t.
          Leads-bind _ _ _ _ (λ _. tied none) _ (prepare-Stays recipient t) store-Leads
            (λ e s h. h))
        (λ e s h. h)

  failed_attempt-Stays : (e : Exn) → Stays item.id (tied none) (after_failed_attempt env item run e)
  unfolding after_failed_attempt
  failed_attempt-Stays e = search (stays_rules, retry-Stays, finalize-Stays) depth 7

  attempt_item-Ends :
      (recipient : Text) → Ends item.id (tied none) (attempt_item env item run recipient)
  unfolding attempt_item
  attempt_item-Ends recipient = Ends-bind _ _ _ _ (run_write item.id (tied none) _ _) λ _.
      Ends-bind _ _ _ _ (started-Stays item.id (tied none) _) λ _.
        Leads-try_catch _ _ _ _ _ stored _ (prepare_and_store-Leads recipient)
          (λ prepared.
            Ends-Stays _ _ _ (
              confirm-Stays (job_of item run) prepared.tx_hash env (some prepared.raw_transaction)))
          (λ e. Ends-Stays _ _ _ (failed_attempt-Stays e))

  give_up-Stays :
      (reason : String)
      → Stays item.id
          (tied none)
          (mark_item_failed item.id reason >>= λ _. finalize_run_if_settled run.id)
  give_up-Stays reason = search (stays_rules, mark_item_failed-Stays, finalize-Stays)

  start_item-Ends :
      (recipient : Option Text) → Ends item.id (tied none) (start_item env item run recipient)
  unfolding start_item
  start_item-Ends none = Ends-Stays _ _ _ (give_up-Stays _)
  start_item-Ends (some recipient) = search (Ends-if, Ends-Stays, give_up-Stays, attempt_item-Ends)

  resume_item-Ends : (hash : Option Text) → Ends item.id (tied hash) (resume_item env item run hash)
  unfolding resume_item
  resume_item-Ends none = search (Ends-if, Ends-Stays, unreconciled-Stays, start_item-Ends)
  resume_item-Ends (some hash) =
      Ends-bind _ _ _ _ (Stays-lift item.id (tied (some hash)) _)
        λ raw. Ends-Stays _ _ _ (confirm-Stays (job_of item run) hash env raw)

  pub process_item-Ends : Ends item.id (tied item.tx_hash) (process_item env item run)
  unfolding process_item
  process_item-Ends = search (Ends-if, Ends-Stays, finalize-Stays, resume_item-Ends, Stays-pure)
