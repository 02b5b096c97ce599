-- ===== src/Payroll/Routes.antt =====
-- The routes of a payroll run, routes/payroll.ts: who may use them, starting, pausing and resuming,
-- and the enqueueing of runs, payroll/runner.ts. Authentication and the shape of a UUID are checked
-- before; a reply of 502 stands for an error that the handler caught.
pub mod Access
pub mod Create
mod Tests
use benzo_main.Prelude.{
  ℕ, ◌+◌, String, Text, Bool, true, false, not, Option, none, some, List, [], ◌∷◌, ◌++◌, ◌&&◌, ◌||◌,
  leb, ltb, str_eq, find, select, length, to_decimal, codes, is_some, if◌then◌else◌,
}
use benzo_main.Service.{
  Action, Result, ok, err, error, bind_result, pure, lift, atomic, transaction, try_catch, ◌>>=◌,
  ◌>>◌,
}
use benzo_main.Table.{update_where, oldest_first}
use benzo_main.Database.{User}
use benzo_main.Orgs.{OrgRole, viewer, operator, OrgMember, role_rank, load_membership}
use benzo_main.Payroll.{
  RunStatus, ready, running, paused, complete, ItemStatus, pending, proving, submitted, Run, Item,
  Treasury, PayrollState,
}
use benzo_main.Payroll.Statements.{status_is_running}
use benzo_main.Payroll.Amount.{parse_payroll_amount}
use benzo_main.Payroll.Progress.{ProgressCounts, progress_counts, is_run, is_in, of_run}
use benzo_main.Payroll.Intake.{format_payroll_amount}

-- `PayrollItemJobData`, whose singleton key is of its run and row.
pub record PayrollJob : Type 0 where
  pub item_id : String
  pub org_id : String
  pub row_index : ℕ
  pub run_id : String

pub record Handle : Type 0 where
  pub handle : Text
  pub user_id : String

pub record RoutesState : Type 0 where
  pub users : List User
  pub handles : List Handle
  pub payroll : PayrollState
  pub members : List OrgMember
  pub jobs : List PayrollJob

-- `send` of pg-boss gives no job id for a job that its singleton key holds back.
pub record RoutesEnv : Type 0 where
  pub payroll_eerc_decimals : ℕ
  pub unseal_string : Text → Result Text
  pub read_account : Text → Result (List ℕ)
  pub load_treasury_balance : ℕ → Text → Result (List ℕ)
  pub get_decrypted_balance : List ℕ → List ℕ → Result ℕ
  pub send_job : PayrollJob → List PayrollJob → List PayrollJob
  pub job_id : PayrollJob → List PayrollJob → Option String

-- The reply: refused with a code and an error, or done.
pub data Reply : Type 0 where
  refused : ℕ → String → Reply
  underfunded : Text → Text → Reply
  done : RunStatus → ℕ → ℕ → ProgressCounts → Reply

pub data Request : Type 0 where
  start pause resume : Request

-- `loadRunForRole`, of the run that it read.
pub data RunAccess : Type 0 where
  allowed : Run → RunAccess
  denied : ℕ → String → RunAccess

abbrev pub with_run_role : OrgRole → Run → Option OrgRole → RunAccess
with_run_role min_role run none = denied 404 "run_not_found"
with_run_role min_role run (some role) =
    if ltb (role_rank role) (role_rank min_role) then denied 403 "forbidden" else allowed run

abbrev pub run_access : OrgRole → String → Option Run → Action RoutesState RunAccess
run_access min_role user_id none = pure (denied 404 "run_not_found")
run_access min_role user_id (some run) =
    atomic
      λ db. (ok (with_run_role min_role run (load_membership db.members run.org_id user_id)), db)

unfoldable pub load_run_for_role : String → String → OrgRole → Action RoutesState RunAccess
load_run_for_role run_id user_id min_role = do
  run ← atomic λ db. (ok (find (is_run run_id) db.payroll.runs), db)
  run_access min_role user_id run

abbrev pub is_active : Item → Bool
is_active x = is_in pending x || is_in proving x || is_in submitted x

abbrev pub active_items : String → List Item → List Item
active_items run_id items =
    oldest_first (λ (x : Item). x.row_index) (select (λ x. of_run run_id x && is_active x) items)

abbrev pub run_items : Option Run → List Item → List PayrollJob
run_items none items = []
run_items (some run) [] = []
run_items (some run) (x ∷ items) =
    record { item_id = x.id; org_id = run.org_id; row_index = x.row_index; run_id = run.id }
    ∷ run_items (some run) items

abbrev pub counted : Option String → ℕ
counted none = 0
counted (some id) = 1

abbrev pub set_run : String → (Run → Run) → RoutesState → Result (Unit {0}) × RoutesState
set_run run_id f db = (
  ok tt,
  record db {
    payroll = record db.payroll { runs = update_where (is_run run_id) f db.payroll.runs };
  },
)

abbrev pub as_started_run : Run → Run
as_started_run r = record r { error = none; status = running }

abbrev pub as_paused_run : Run → Run
as_paused_run r = record r { status = paused }

abbrev pub status_in_ready : RunStatus → Bool
status_in_ready ready = true
status_in_ready _ = false

abbrev pub is_startable_status : RunStatus → Bool
is_startable_status ready = true
is_startable_status paused = true
is_startable_status running = true
is_startable_status _ = false

abbrev pub is_paused : RunStatus → Bool
is_paused paused = true
is_paused _ = false

abbrev pub is_over : RunStatus → Bool
is_over complete = true
is_over RunStatus.failed = true
is_over _ = false

abbrev pub pause_allowed : RunAccess → Action RoutesState Reply
pause_allowed (denied code reason) = pure (refused code reason)
pause_allowed (allowed run) = if is_over run.status then pure (refused 409 "run_terminal") else (do
  atomic (set_run run.id as_paused_run)
  progress ← atomic λ db. (ok (progress_counts run.id db.payroll.items), db)
  pure (done paused 0 0 progress))

-- `POST /payroll/:runId/pause`
unfoldable pub pause_run : String → String → Action RoutesState Reply
pause_run run_id user_id = do
  access ← load_run_for_role run_id user_id operator
  pause_allowed access

module _ (env : RoutesEnv) where
  unfoldable pub enqueue_payroll_item : PayrollJob → Action RoutesState (Option String)
  enqueue_payroll_item job =
      atomic λ db. (ok (env.job_id job db.jobs), record db { jobs = env.send_job job db.jobs })

  unfoldable pub enqueue_each : List PayrollJob → ℕ → Action RoutesState ℕ
  enqueue_each [] enqueued = pure enqueued
  enqueue_each (job ∷ jobs) enqueued = do
    job_id ← enqueue_payroll_item job
    enqueue_each jobs (enqueued + counted job_id)

  -- The number enqueued and the number that is pending.
  unfoldable pub enqueue_payroll_run : String → Action RoutesState (ℕ × ℕ)
  enqueue_payroll_run run_id = do
    items ← atomic λ db. (
      ok (run_items (find (is_run run_id) db.payroll.runs) (active_items run_id db.payroll.items)),
      db,
    )
    enqueued ← enqueue_each items 0
    pure (enqueued, length items)

  unfoldable pub enqueue_runs : List Run → ℕ → Action RoutesState ℕ
  enqueue_runs [] enqueued = pure enqueued
  enqueue_runs (run ∷ runs) enqueued = do
    result ← enqueue_payroll_run run.id
    enqueue_runs runs (enqueued + result.0)

  unfoldable pub enqueue_outstanding_payroll_items : Action RoutesState ℕ
  enqueue_outstanding_payroll_items = do
    runs ← atomic λ db. (ok (select (λ (r : Run). status_is_running r.status) db.payroll.runs), db)
    enqueue_runs runs 0

  -- The update that sets the run running, the jobs, and the reply.
  unfoldable pub run_and_enqueue : String → Action RoutesState Reply
  run_and_enqueue run_id = do
    atomic (set_run run_id as_started_run)
    enqueued ← enqueue_payroll_run run_id
    progress ← atomic λ db. (ok (progress_counts run_id db.payroll.items), db)
    pure (done running enqueued.0 enqueued.1 progress)

  -- `loadRunFundingStatus`: the balance, and what the run needs.
  unfoldable pub load_run_funding_status : Run → Text → Text → Result (ℕ × ℕ)
  load_run_funding_status run sealed address = bind_result (env.unseal_string sealed) λ opened.
      bind_result (env.read_account opened) λ account.
        bind_result (env.load_treasury_balance run.token_id address) λ balance.
          bind_result (env.get_decrypted_balance account balance) λ available.
            bind_result (parse_payroll_amount run.total_amount env.payroll_eerc_decimals)
              λ required. ok (available, required)

  abbrev pub if_funded : Run → ℕ × ℕ → Action RoutesState Reply
  if_funded run (available, required) =
      if leb required available
      then run_and_enqueue run.id
      else pure
          (underfunded (format_payroll_amount available env.payroll_eerc_decimals) run.total_amount)

  abbrev pub with_keys : Run → Treasury → Option ℕ → Option Text → Action RoutesState Reply
  with_keys run t none sealed = pure (refused 409 "treasury_not_eerc_registered")
  with_keys run t (some at) none = pure (refused 409 "treasury_not_eerc_registered")
  with_keys run t (some at) (some sealed) =
      if status_in_ready run.status
      then try_catch (lift (load_run_funding_status run sealed t.address)) (if_funded run)
          (λ e. pure (refused 502 "treasury_balance_unavailable"))
      else run_and_enqueue run.id

  abbrev pub with_treasury : Run → Option Treasury → Action RoutesState Reply
  with_treasury run none = pure (refused 409 "treasury_not_eerc_registered")
  with_treasury run (some t) = with_keys run t t.eerc_registered_at t.sealed_eerc_key

  abbrev pub start_allowed : RunAccess → Action RoutesState Reply
  start_allowed (denied code reason) = pure (refused code reason)
  start_allowed (allowed run) =
      if is_startable_status run.status
      then (do
        treasury ← atomic λ db.
            (ok (find (λ (t : Treasury). str_eq t.org_id run.org_id) db.payroll.treasuries), db)
        with_treasury run treasury)
      else pure (refused 409 "run_not_startable")

  -- `POST /payroll/:runId/start`
  unfoldable pub start_run : String → String → Action RoutesState Reply
  start_run run_id user_id = do
    access ← load_run_for_role run_id user_id operator
    start_allowed access

  abbrev pub resume_allowed : RunAccess → Action RoutesState Reply
  resume_allowed (denied code reason) = pure (refused code reason)
  resume_allowed (allowed run) =
      if is_paused run.status then run_and_enqueue run.id else pure (refused 409 "run_not_paused")

  -- `POST /payroll/:runId/resume`
  unfoldable pub resume_run : String → String → Action RoutesState Reply
  resume_run run_id user_id = do
    access ← load_run_for_role run_id user_id operator
    resume_allowed access

  -- What is asked for, and the reply.
  unfoldable pub handle : Request → String → String → Action RoutesState Reply
  handle start run_id user_id = start_run run_id user_id
  handle pause run_id user_id = pause_run run_id user_id
  handle resume run_id user_id = resume_run run_id user_id
