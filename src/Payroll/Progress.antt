-- ===== src/Payroll/Progress.antt =====
-- `getPayrollProgressCounts` and `finalizeRunIfSettled` of payroll/runner.ts.
use benzo_main.Prelude.{
  ℕ, ◌+◌, String, Bool, Option, none, some, List, [], ◌∷◌, ◌&&◌, ◌||◌, str_eq, ltb, ◌==◌,
  if◌then◌else◌,
}
use benzo_main.Service.{Result, ok, Action, pure, atomic, ◌>>=◌}
use benzo_main.Table.{update_where}
use benzo_main.Payroll.{
  ItemStatus, pending, proving, submitted, confirmed, RunStatus, complete, Run, Item, PayrollState,
}

pub record ProgressCounts : Type 0 where
  pub confirmed : ℕ
  pub failed : ℕ
  pub pending : ℕ
  pub proved : ℕ
  pub proving : ℕ
  pub submitted : ℕ
  pub total : ℕ

abbrev pub item_tag : ItemStatus → ℕ
item_tag pending = 0
item_tag proving = 1
item_tag submitted = 2
item_tag confirmed = 3
item_tag ItemStatus.failed = 4

abbrev pub is_in : ItemStatus → Item → Bool
is_in status x = item_tag x.status == item_tag status

abbrev pub of_run : String → Item → Bool
of_run run_id x = str_eq x.run_id run_id

-- `count(*)` of the run's items in a status, from `groupBy(status)`
unfoldable pub count_in : String → ItemStatus → List Item → ℕ
count_in run_id status [] = 0
count_in run_id status (x ∷ xs) =
    (if of_run run_id x && is_in status x then 1 else 0) + count_in run_id status xs

unfoldable pub progress_counts : String → List Item → ProgressCounts
progress_counts run_id items =
    let confirmed = count_in run_id ItemStatus.confirmed items in
    let failed = count_in run_id ItemStatus.failed items in
    let pending = count_in run_id ItemStatus.pending items in
    let proving = count_in run_id ItemStatus.proving items in
    let submitted = count_in run_id ItemStatus.submitted items in
    record {
      confirmed = confirmed;
      failed = failed;
      pending = pending;
      proved = confirmed;
      proving = proving;
      submitted = submitted;
      total = pending + proving + submitted + confirmed + failed;
    }

unfoldable pub get_payroll_progress_counts : String → Action PayrollState ProgressCounts
get_payroll_progress_counts run_id = atomic λ db. (ok (progress_counts run_id db.items), db)

abbrev pub is_run : String → Run → Bool
is_run id x = str_eq x.id id

abbrev pub with_outcome : RunStatus → Option String → Run → Run
with_outcome status reason x = record x { status = status; error = reason }

unfoldable pub update_runs :
    (Run → Bool) → (Run → Run) → PayrollState → Result (Unit {0}) × PayrollState
update_runs p f db = (ok tt, record db { runs = update_where p f db.runs })

unfoldable pub finalize_with : String → ProgressCounts → Action PayrollState (Unit {0})
finalize_with run_id counts =
    if ltb 0 counts.pending || (ltb 0 counts.proving || ltb 0 counts.submitted)
    then pure tt
    else if ltb 0 counts.confirmed
    then atomic (update_runs (is_run run_id) (with_outcome complete none))
    else atomic
        (update_runs (is_run run_id) (with_outcome RunStatus.failed (some "no_confirmed_items")))

unfoldable pub finalize_run_if_settled : String → Action PayrollState (Unit {0})
finalize_run_if_settled run_id = do
  counts ← get_payroll_progress_counts run_id
  finalize_with run_id counts
