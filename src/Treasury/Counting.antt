-- ===== src/Treasury/Counting.antt =====
-- The counters of a reconciliation pass.
use benzo_main.Prelude.{
  ℕ, ◌+◌, ◌≤◌, ◌≡◌, Text, Bool, true, false, Option, none, some, List, [], ◌∷◌, leb, or_else,
}
use benzo_main.Service.{ok, Action, atomic}
use benzo_main.Database.{DepositStatus, Deposit, Ledger}
use benzo_main.Treasury.{ReconcileEnv, ReconcileResult, confirmed, failed, due_deposits}

abbrev pub rows_counted : ReconcileResult → ℕ
rows_counted r = r.confirmed + r.failed + r.pending + r.skipped

-- `n` rows more, of which no fewer were polled than have a receipt's outcome or wait for one.
pub record CountsRows (n : ℕ) (r out : ReconcileResult) : Type 0 where
  pub total : rows_counted out ≡ rows_counted r + n
  pub asked :
      out.confirmed + out.failed + out.pending + r.polled
      ≤ r.confirmed + r.failed + r.pending + out.polled
  pub polled_rows : out.polled ≤ r.polled + n

-- After the row was polled.
pub record CountsPolled (r out : ReconcileResult) : Type 0 where
  pub total : rows_counted out ≡ rows_counted r + 1
  pub same_polled : out.polled ≡ r.polled
  pub asked : out.confirmed + out.failed + out.pending ≤ r.confirmed + r.failed + r.pending + 1

module _ (env : ReconcileEnv) where
  -- One for a submitted deposit with a hash that is as old as the grace.
  abbrev one_due : DepositStatus → Option Text → Bool → ℕ
  one_due DepositStatus.submitted (some hash) true = 1
  one_due DepositStatus.submitted (some hash) false = 0
  one_due DepositStatus.submitted none old = 0
  one_due DepositStatus.confirmed hash old = 0
  one_due DepositStatus.failed hash old = 0

  -- How many deposits wait for a receipt since the grace, which is 90 seconds if none is given.
  abbrev pub waiting : List Deposit → ℕ
  waiting [] = 0
  waiting (d ∷ ds) =
      one_due d.status d.tx_hash (leb (d.updated_at + or_else env.grace_ms 90000) env.now)
      + waiting ds

  read_due : Action Ledger (List Deposit)
  read_due = atomic λ db. (ok (due_deposits env db), db)
