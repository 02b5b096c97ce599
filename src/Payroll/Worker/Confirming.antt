-- ===== src/Payroll/Worker/Confirming.antt =====
-- Confirming an item keeps its rows tied to the hash that is confirmed.
use benzo_main.Prelude.{refl, String, Text, Option, none, some}
use benzo_main.Service.{Exn, Action, atomic, try_catch}
use benzo_main.Service.Leads.{Leads-atomic, Leads-try_catch}
use benzo_main.Payroll.{PayrollState}
use benzo_main.Payroll.Statements.{
  PayrollEnv, JobItem, is_item, update_items, as_submitted, as_confirmed, as_unconfirmed,
  record_broadcast, confirm_rows,
}
use benzo_main.Payroll.Worker.{submit_prepared, after_unconfirmed, confirm_submitted_item}
use benzo_main.Payroll.Worker.Ties.{Stage, tied, broadcast-TiedRows}
use benzo_main.Payroll.Worker.Stays.{
  Stays, link_write, stays_rules, finalize-Stays, mark_item_failed-Stays, tied_write,
  id-as_submitted, tx_hash-as_submitted,
}

module _ (job : JobItem) (hash : Text) where
  abbrev here : Stage
  here = tied (some hash)

  submitted-Stays :
      (sealed : Option Text)
      → Stays job.item_id here
          (atomic (update_items (is_item job.item_id) (as_submitted hash sealed)))
  submitted-Stays sealed =
      tied_write job.item_id hash _ (id-as_submitted hash sealed) (tx_hash-as_submitted hash sealed)

  confirmed-Stays :
      Stays job.item_id here (atomic (update_items (is_item job.item_id) (as_confirmed hash)))
  confirmed-Stays = tied_write job.item_id hash _ (λ _. refl) (λ _. refl)

  unconfirmed-Stays :
      (reason : String)
      → Stays job.item_id here
          (atomic (update_items (is_item job.item_id) (as_unconfirmed hash reason)))
  unconfirmed-Stays reason = tied_write job.item_id hash _ (λ _. refl) (λ _. refl)

  broadcast-Stays :
      (raw : Text)
      → Stays job.item_id here (
          atomic (
            record_broadcast
              (record { item_id = job.item_id; tx_hash = hash; raw_transaction = raw })))
  broadcast-Stays raw = Leads-atomic _ _ _ _ λ s h.
      broadcast-TiedRows job.item_id
        (record { item_id = job.item_id; tx_hash = hash; raw_transaction = raw }) s refl h

  confirm_rows-Stays : Stays job.item_id here (confirm_rows job hash)
  unfolding confirm_rows
  confirm_rows-Stays = search (stays_rules, confirmed-Stays, link_write)

  submit_prepared-Stays :
      (env : PayrollEnv) (raw : Option Text)
      → Stays job.item_id here (submit_prepared env job hash raw)
  unfolding submit_prepared
  submit_prepared-Stays env none = search stays_rules
  submit_prepared-Stays env (some raw) = search (stays_rules, broadcast-Stays)

  after_unconfirmed-Stays :
      (env : PayrollEnv) (e : Exn) → Stays job.item_id here (after_unconfirmed env job hash e)
  unfolding after_unconfirmed
  after_unconfirmed-Stays env e =
      search (stays_rules, mark_item_failed-Stays, finalize-Stays, unconfirmed-Stays)

  try-Stays :
      {A B : Type 0} (m : Action PayrollState A) (k : A → Action PayrollState B)
      (c : Exn → Action PayrollState B)
      → Stays job.item_id here m
      → ((a : A) → Stays job.item_id here (k a))
      → ((e : Exn) → Stays job.item_id here (c e))
      → Stays job.item_id here (try_catch m k c)
  try-Stays m k c first next caught = Leads-try_catch _ here m k c (λ _. here) _ first next caught

  -- Confirming keeps the rows tied to the hash that is confirmed.
  pub confirm-Stays :
      (env : PayrollEnv) (raw : Option Text)
      → Stays job.item_id here (confirm_submitted_item env job hash raw)
  unfolding confirm_submitted_item
  confirm-Stays env raw =
      search
        (
          stays_rules, try-Stays, submitted-Stays, submit_prepared-Stays, confirm_rows-Stays,
          finalize-Stays, after_unconfirmed-Stays,
        )
        depth 7
