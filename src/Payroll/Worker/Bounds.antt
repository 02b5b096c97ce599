-- ===== src/Payroll/Worker/Bounds.antt =====
-- No item is attempted more often than the worker allows.
use benzo_main.Prelude.{◌≤◌, String, none, some, All}
use benzo_main.Service.{World}
use benzo_main.Service.Maintains.{Held}
use benzo_main.Table.Evolution.{All-update_where}
use benzo_main.Payroll.{Item, PayrollState}
use benzo_main.Payroll.Progress.{update_runs}
use benzo_main.Payroll.Statements.{
  PayrollEnv, is_item, update_items, insert_link, record_broadcast, payroll_max_attempts,
}
use benzo_main.Payroll.Worker.{process_payroll_item}
use benzo_main.Payroll.Worker.Writes.{
  ItemWrite, to_failed, to_unreconciled, to_submitted, to_confirmed, to_unconfirmed, to_retry,
  to_started, WritesMaintain, process-Maintains,
}

abbrev pub Fits : Item → Type 0
Fits x = x.attempt ≤ payroll_max_attempts

abbrev pub WithinAttempts : PayrollState → Type 0
WithinAttempts s = All Fits s.items

write-WithinAttempts :
    {f : Item → Item}
    → ItemWrite f
    → (x : Item) → x.attempt ≤ payroll_max_attempts
    → (f x).attempt ≤ payroll_max_attempts
write-WithinAttempts (to_failed reason) x h = h
write-WithinAttempts to_unreconciled x h = h
write-WithinAttempts (to_submitted hash none) x h = h
write-WithinAttempts (to_submitted hash (some sealed)) x h = h
write-WithinAttempts (to_confirmed hash) x h = h
write-WithinAttempts (to_unconfirmed hash reason) x h = h
write-WithinAttempts (to_retry attempt reason) x h = h
write-WithinAttempts (to_started attempt fits) x h = fits

writes : WritesMaintain WithinAttempts
unfolding update_items update_runs insert_link record_broadcast
writes = record {
  on_item = λ id f s how h.
      All-update_where Fits Fits (is_item id) f s.items (λ x _ k. write-WithinAttempts how x k)
        (λ x _ k. k) h;
  on_run = λ p f s how h. h;
  on_link = λ row s h. h;
  on_broadcast = λ b s h. h;
}

-- If every item has at most `PAYROLL_MAX_ATTEMPTS` attempts and the others keep it so, then after
-- a job, whether it returns or throws, every item still has at most that many.
pub attempts_bounded :
    (env : PayrollEnv) (id : String) (w : World PayrollState)
    → Held WithinAttempts w
    → Held WithinAttempts (process_payroll_item env id w).1
attempts_bounded env id w h = (process-Maintains writes env id).from w h
