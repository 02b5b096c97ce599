-- ===== src/Payroll/Tests.antt =====
-- Concrete payrolls on which the worker's theorems are applied.
use benzo_main.Database.{usdc}
use benzo_main.Prelude.{
  ◌*◌, ◌^◌, ◌≤◌, ◌≡◌, ◌≢◌, refl, Text, codes, none, some, List, [], ◌∷◌, ◌++◌, arith, length,
  decimal_value, drop, get_elem?,
}
use benzo_main.Service.{Result, ok, err, error, alone, atomic, transaction, try_catch, ◌>>=◌}
use benzo_main.Service.Maintains.{Held}
use benzo_main.Payroll.{
  ItemStatus, RunStatus, ready, paused, running, Run, Item, Broadcast, PayrollState,
}
use benzo_main.Payroll.Amount.{is_amount, parse_payroll_amount, before_point, after_point}
use benzo_main.Payroll.Amount.Exact.{IsDecimal, parse_exact, parse_point}
use benzo_main.Payroll.Progress.{
  count_in, progress_counts, get_payroll_progress_counts, update_runs, finalize_with,
  finalize_run_if_settled,
}
use benzo_main.Payroll.Statements.{
  PayrollEnv, update_items, load_runnable_item, mark_item_failed, load_treasury, insert_link,
  record_broadcast, confirm_rows,
}
use benzo_main.Payroll.Worker.{
  submit_prepared, after_unconfirmed, confirm_submitted_item, build_transfer_proof_input, prepare,
  prepare_and_store, after_failed_attempt, attempt_item, start_item, resume_item, process_item,
  process_loaded, process_payroll_item,
}
use benzo_main.Payroll.Worker.Bounds.{WithinAttempts, attempts_bounded}
use benzo_main.Payroll.Worker.Pause.{paused_stays}
use benzo_main.Payroll.Worker.Ties.{Backed}
use benzo_main.Payroll.Worker.OneTransaction.{
  Job, run_jobs, one_transaction, process_payroll_item-Backed,
}

-- Services that answer, with a signer that gives each transaction the hash `hash` and a network
-- that answers `confirmed` to the wait for confirmations.
abbrev services : Text → Result (Unit {0}) → PayrollEnv
services hash confirmed = record {
  decimals = 6;
  seal_string = λ s. b'#' ∷ s;
  unseal_string = λ s. ok (drop 1 s);
  read_account = λ s. ok s;
  load_transfer_context = λ recipient sender token treasury. ok (record {
    auditor_public_key = (1, 2);
    receiver_public_key = (3, 4);
    sender_balance = 5000000;
    sender_encrypted_balance = [];
  });
  encrypt_transfer = λ context sender amount. amount ∷ [];
  prove_transfer = λ input. ok (record { calldata = input; balance_pct = [] });
  prepare_transfer =
      λ proof key recipient token. ok (record { raw_transaction = b'r' ∷ hash; tx_hash = hash });
  send_raw_transaction = λ prepared. ok tt;
  wait_for_confirmations = λ hash n. confirmed;
}

abbrev slow : PayrollEnv
slow = services (codes "0xaa") (err (error "timeout"))

abbrev good : PayrollEnv
good = services (codes "0xbb") (ok tt)

abbrev salary : Item
salary = record {
  id = "i1";
  run_id = "r1";
  row_index = 0;
  recipient_input = codes "0x1";
  resolved_address = some (codes "0x1");
  amount = codes "1.5";
  status = ItemStatus.pending;
  attempt = 0;
  confirmation_attempt = 0;
  tx_hash = none;
  submission_raw_tx = none;
  error = none;
}

abbrev march : RunStatus → Run
march status = record {
  id = "r1";
  org_id = "o1";
  status = status;
  item_count = 1;
  total_amount = codes "1.5";
  token = usdc;
  token_id = 1;
  created_by = "u1";
  error = none;
}

abbrev acme : RunStatus → PayrollState
acme status = record {
  runs = march status ∷ [];
  items = salary ∷ [];
  treasuries =
      record {
        org_id = "o1";
        address = codes "0x2";
        sealed_eoa_key = codes "#k";
        sealed_eerc_key = some (codes "#e");
        eerc_registered_at = some 0;
      }
      ∷ [];
  event_links = [];
  broadcasts = [];
}

abbrev job : PayrollEnv → Job
job env = record { env = env; item_id = "i1" }

-- The first job's confirmation times out; the second is given a signer with another hash.
abbrev two_jobs : List Job
two_jobs = job slow ∷ job good ∷ []

-- The row and the broadcasts that they leave.
abbrev paid : Item
paid = record salary { status = ItemStatus.confirmed; attempt = 1; tx_hash = some (codes "0xaa") }

abbrev sent : Broadcast
sent = record { item_id = "i1"; tx_hash = codes "0xaa"; raw_transaction = codes "r0xaa" }

one_transaction_example : sent.tx_hash ≡ sent.tx_hash
unfolding run_jobs process_payroll_item process_loaded process_item resume_item start_item
    attempt_item prepare_and_store prepare after_failed_attempt build_transfer_proof_input
    parse_payroll_amount is_amount confirm_submitted_item submit_prepared after_unconfirmed
    confirm_rows load_treasury load_runnable_item update_items mark_item_failed insert_link
    record_broadcast update_runs finalize_with finalize_run_if_settled progress_counts count_in
    get_payroll_progress_counts atomic transaction try_catch ◌>>=◌
one_transaction_example =
    one_transaction two_jobs (acme ready) paid sent sent 0 0 1 (refl, tt) refl refl refl refl refl
      refl

process_payroll_item-Backed_example :
    Backed (process_payroll_item slow "i1" (alone (acme ready))).1.state
process_payroll_item-Backed_example =
    process_payroll_item-Backed slow "i1" (alone (acme ready)) tt
      (record { distinct = (refl, tt); covered = (tt, tt) })

paused_stays_example :
    (y : Run) × (get_elem?
        (process_item good salary (march ready) (alone (acme paused))).1.state.runs
        0
      ≡ some y)
    × (y.id ≡ "r1")
    × (y.status ≢ running)
paused_stays_example =
    paused_stays good salary (march ready) (alone (acme paused)) 0 (march paused) tt refl refl

attempts_bounded_example :
    Held WithinAttempts (process_payroll_item slow "i1" (alone (acme ready))).1
attempts_bounded_example = attempts_bounded slow "i1" (alone (acme ready)) ((omega arith, tt), tt)

parse_exact_example :
    IsDecimal (codes "12.50")
    × (length (after_point (codes "12.50")) ≤ 6)
    × (12500000 * 10 ^ length (after_point (codes "12.50"))
        ≡ decimal_value (before_point (codes "12.50") ++ after_point (codes "12.50")) * 10 ^ 6)
unfolding parse_payroll_amount is_amount
parse_exact_example = parse_exact (codes "12.50") 6 12500000 refl

parse_point_example : parse_payroll_amount (codes "12.50") 6 ≡ ok 12500000
parse_point_example = parse_point (codes "12") (codes "50") 6 refl refl (omega arith) (omega arith)
