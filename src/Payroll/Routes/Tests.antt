-- ===== src/Payroll/Routes/Tests.antt =====
-- An organisation with a payroll, on which the theorems about its routes are applied.
use benzo_main.Prelude.{
  ℕ, ◌≡◌, refl, String, Text, codes, none, some, [], ◌∷◌, ◌++◌, find, str_eq, trim, to_lower_case,
  lower, to_decimal,
}
use benzo_main.Service.{World, ok, alone, ◌>>=◌, atomic, transaction, try_catch, bind_result}
use benzo_main.Table.{oldest_first}
use benzo_main.Database.{usdc}
use benzo_main.Orgs.{viewer, operator, load_membership, role_rank}
use benzo_main.Payroll.{RunStatus, ready, running, paused, complete, ItemStatus, Run, Treasury}
use benzo_main.Payroll.Amount.{parse_payroll_amount, is_amount}
use benzo_main.Payroll.Progress.{ProgressCounts, is_run, progress_counts, count_in}
use benzo_main.Payroll.Csv.{parse_csv, parse_lines, is_evm_address, is_row_amount}
use benzo_main.Payroll.Intake.{
  PreviewItem, handle_inputs, handle_key, resolve_recipient, check_rows, sum_amounts, scaled_amount,
  scaled_sum, format_payroll_amount,
}
use benzo_main.Payroll.Intake.Format.{parse-format_payroll_amount}
use benzo_main.Payroll.Routes.{
  RoutesState, RoutesEnv, refused, resume, start_run, pause_run, handle, load_run_for_role,
  load_run_funding_status, run_and_enqueue, enqueue_payroll_run, enqueue_each,
}
use benzo_main.Payroll.Routes.Access.{Funded, handle_refuses, start_run-Funded, pause_overwrites}
use benzo_main.Payroll.Routes.Create.{
  IntakeBody, CreateEnv, Summary, create_payroll, resolve_payroll_token, create_from_rows,
  load_handles, store_run, insert_batches, new_run,
}
use benzo_main.Payroll.Routes.Create.Total.{Exact, create_payroll-Exact}

parse-format_payroll_amount_example :
    parse_payroll_amount (format_payroll_amount 1050000 6) 6 ≡ ok 1050000
parse-format_payroll_amount_example = parse-format_payroll_amount 1050000 6

abbrev address : Text
address = codes "0x1111111111111111111111111111111111111111"

abbrev march : RunStatus → Run
march status = record {
  id = "r1";
  org_id = "o1";
  status = status;
  item_count = 1;
  total_amount = codes "1.5";
  token = usdc;
  token_id = 1;
  created_by = "u1";
  error = none;
}

abbrev funds : Treasury
funds = record {
  org_id = "o1";
  address = codes "0x2";
  sealed_eoa_key = codes "k";
  sealed_eerc_key = some (codes "e");
  eerc_registered_at = some 1;
}

abbrev acme : RunStatus → RoutesState
acme status = record {
  users = record { id = "u1"; address = address } ∷ [];
  handles = [];
  payroll = record {
    runs = march status ∷ [];
    items = [];
    treasuries = funds ∷ [];
    event_links = [];
    broadcasts = [];
  };
  members =
      record { org_id = "o1"; user_id = "u1"; role = operator }
      ∷ record { org_id = "o1"; user_id = "u2"; role = viewer }
      ∷ [];
  jobs = [];
}

abbrev env : RoutesEnv
env = record {
  payroll_eerc_decimals = 6;
  unseal_string = λ s. ok s;
  read_account = λ s. ok s;
  load_treasury_balance = λ token treasury. ok [];
  get_decrypted_balance = λ account balance. ok 2000000;
  send_job = λ job jobs. job ∷ jobs;
  job_id = λ job jobs. some "j1";
}

handle_refuses_example :
    (code : ℕ) × (reason : String) × (handle env resume "r1" "u2" (alone (acme paused))
      ≡ (ok (refused code reason), alone (acme paused)))
unfolding load_membership role_rank
handle_refuses_example = handle_refuses env resume (acme paused) "r1" "u2" refl

abbrev none_yet : ProgressCounts
none_yet = record {
  confirmed = 0;
  failed = 0;
  pending = 0;
  proved = 0;
  proving = 0;
  submitted = 0;
  total = 0;
}

start_run-Funded_example :
    (t : Treasury) × (find (λ (t : Treasury). str_eq t.org_id "o1") (funds ∷ []) ≡ some t)
    × Funded env (march ready) t
unfolding start_run load_membership role_rank progress_counts count_in parse_payroll_amount
    is_amount ◌>>=◌ load_run_for_role atomic try_catch load_run_funding_status bind_result
    run_and_enqueue enqueue_payroll_run enqueue_each oldest_first
start_run-Funded_example =
    start_run-Funded env (acme ready) "r1" "u1" (march ready)
      (start_run env "r1" "u1" (alone (acme ready))).1 running 0 0 none_yet refl refl refl

abbrev finish : RoutesState → RoutesState
finish s = acme complete

-- The run is completed between the pause's access check and its update.
abbrev overtaken : World RoutesState
overtaken = record { state = acme running; others = (λ s. s) ∷ (λ s. s) ∷ finish ∷ [] }

pause_overwrites_example :
    find (is_run "r1") (pause_run "r1" "u1" overtaken).1.state.payroll.runs ≡ some (march paused)
unfolding load_membership role_rank
pause_overwrites_example =
    pause_overwrites (acme running) "r1" "u1" (march running) (march complete) finish refl refl refl
      refl

abbrev ids : CreateEnv
ids = record {
  treasury_funding_tokens = [];
  payroll_token_id = 1;
  new_run_id = "r2";
  new_item_id = λ n. "i1";
}

abbrev body : IntakeBody
body = record { csv = codes "recipient,amount" ++ 10 ∷ codes "@Bob,3.00"; token = usdc }

-- The first user has a handle.
abbrev staffed : RoutesState
staffed = record (acme complete) { handles = record { handle = codes "bob"; user_id = "u1" } ∷ [] }

abbrev payment : PreviewItem
payment = record {
  row_index = 0;
  recipient_input = codes "@Bob";
  resolved_address = some address;
  amount = codes "3.00";
  status = ItemStatus.pending;
  error = none;
}

abbrev april : Run
april = record (march ready) { id = "r2"; total_amount = codes "3" }

abbrev summary : Summary
summary = record { total = 1; valid = 1; invalid = 0; total_amount = codes "3" }

create_payroll-Exact_example :
    Exact ids "o1" "u1" usdc
      (parse_csv body.csv)
      staffed
      (create_payroll ids "o1" "u1" body (alone staffed)).1.state
      april
      (payment ∷ [])
unfolding create_payroll resolve_payroll_token create_from_rows parse_csv parse_lines trim ◌>>=◌
    load_handles handle_inputs is_evm_address store_run transaction insert_batches check_rows
    resolve_recipient new_run to_lower_case lower sum_amounts handle_key is_row_amount scaled_amount
    scaled_sum to_decimal atomic
create_payroll-Exact_example =
    create_payroll-Exact ids "o1" "u1" body staffed april summary (payment ∷ [])
      (create_payroll ids "o1" "u1" body (alone staffed)).1 refl
