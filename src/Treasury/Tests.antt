-- ===== src/Treasury/Tests.antt =====
-- Concrete deposits on which the theorems about the reconciler are applied.
use benzo_main.Prelude.{
  ◌≡◌, refl, Text, codes, false, none, some, [], ◌∷◌, to_lower_case, lower, ◌≢◌, text_eq_iff,
}
use benzo_main.Service.{ok, World, alone}
use benzo_main.Database.{usdc, Deposit, DepositSource, DepositStatus, Ledger}
use benzo_main.Treasury.{
  ReceiptReply, received, textual, ReconcileEnv, ReconcileResult, Candidate, SettledStatus,
  settle_submitted_treasury_deposit, reconcile_treasury_deposits,
}
use benzo_main.Treasury.Settlement.{other_hash, settle_refused}
use benzo_main.Treasury.Growth.{Sound, reconcile-Sound}
use benzo_main.Treasury.Counting.{waiting as waiting_rows}

abbrev sent : Text → Deposit
sent hash = record {
  id = "d1";
  org_id = "o1";
  token = usdc;
  token_id = 1;
  amount = codes "5";
  tx_hash = some hash;
  source = DepositSource.direct;
  status = DepositStatus.submitted;
  idempotency_key = none;
  updated_at = 0;
}

abbrev waiting : Deposit
waiting = record (sent (codes "0xcd")) { id = "d2"; updated_at = 1 }

abbrev treasury : Ledger
treasury = record { users = []; intents = []; deposits = sent (codes "0xAB") ∷ waiting ∷ [] }

abbrev candidate : Candidate
candidate = record { id = "d1"; tx_hash = codes "0xab" }

different : to_lower_case (codes "0xcd") ≢ to_lower_case (codes "0xab")
unfolding to_lower_case lower
different h = cc ((text_eq_iff (codes "0xcd") (codes "0xab")).1 h)

settle_refused_example :
    settle_submitted_treasury_deposit 7
      (record { id = "d2"; tx_hash = codes "0xab" })
      SettledStatus.confirmed
      (alone treasury)
    ≡ (ok false, alone treasury)
unfolding to_lower_case lower
settle_refused_example =
    settle_refused 7 (record { id = "d2"; tx_hash = codes "0xab" }) SettledStatus.confirmed treasury
      (other_hash waiting (codes "0xcd") refl refl different)

-- A client that has a receipt for every transaction.
abbrev reply : Text → ReceiptReply
reply hash = received (textual (codes "Success"))

abbrev reconciler : ReconcileEnv
reconciler = record { now = 100000; grace_ms = none; limit = none; get_transaction_receipt = reply }

abbrev tallied : ReconcileResult
tallied = record { confirmed = 2; failed = 0; pending = 0; polled = 2; skipped = 0 }

-- The others take a turn between two statements, and write nothing.
abbrev busy : World Ledger
busy = record { state = treasury; others = (λ s. s) ∷ (λ s. s) ∷ [] }

reconcile-Sound_example : Sound treasury (reconcile_treasury_deposits reconciler busy).1.state
reconcile-Sound_example =
    reconcile-Sound reconciler busy (refl, (refl, tt)) ((λ s h. h), ((λ s h. h), tt))
