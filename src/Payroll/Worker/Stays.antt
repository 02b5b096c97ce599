-- ===== src/Payroll/Worker/Stays.antt =====
-- Stages of the ties between items and broadcasts: actions that keep a stage, and actions that
-- end with every broadcast backed by its item's row.
use benzo_main.Prelude.{ℕ, ◌≡◌, refl, String, Text, Bool, Option, none, some, if◌then◌else◌}
use benzo_main.Service.{Result, Exn, Action, pure, throw, atomic, lift, transaction, ◌>>=◌}
use benzo_main.Service.Leads.{Leads, Leads-atomic, Leads-transaction, Leads-if, Leads-bind}
use benzo_main.Payroll.{Item, Run, EventLink, PayrollState}
use benzo_main.Payroll.Progress.{
  ProgressCounts, get_payroll_progress_counts, update_runs, finalize_with, finalize_run_if_settled,
}
use benzo_main.Payroll.Statements.{
  is_item, update_items, as_submitted, after_attempt, as_started, insert_link, mark_item_failed,
  mark_submitted_item_unreconciled, load_treasury,
}
use benzo_main.Payroll.Worker.Ties.{
  Stage, backed, tied, loaded, Inv, TiedRows-Backed, update-TiedRows, write-Inv,
}

-- The stage `stage` throughout, however the action ends.
abbrev pub Stays : {A : Type 0} → String → Stage → Action PayrollState A → Type 0
Stays id stage m = Leads (Inv id) stage m (λ _. stage)

-- Whatever happens, the action ends `backed`.
abbrev pub Ends : {A : Type 0} → String → Stage → Action PayrollState A → Type 0
Ends id stage m = Leads (Inv id) stage m (λ _. backed)

weaken : (id : String) (stage : Stage) (s : PayrollState) → Inv id stage s → Inv id backed s
weaken id backed s h = h
weaken id (tied hash) s h = TiedRows-Backed id hash s h
weaken id (loaded x) s h = TiedRows-Backed id x.tx_hash s h.1

module _ (id : String) where
  -- Runs, links and treasuries are outside the invariant.
  pub run_write :
      (stage : Stage) (p : Run → Bool) (f : Run → Run) → Stays id stage (atomic (update_runs p f))
  unfolding update_runs
  run_write backed p f =
      Leads-atomic _ _ _ _ λ s h. record { distinct = h.distinct; covered = h.covered }
  run_write (tied hash) p f =
      Leads-atomic _ _ _ _ λ s h. record { distinct = h.distinct; rows = h.rows }
  run_write (loaded x) p f =
      Leads-atomic _ _ _ _ λ s h. (h.0, record { distinct = h.1.distinct; rows = h.1.rows })

  pub link_write : (stage : Stage) (row : EventLink) → Stays id stage (atomic (insert_link row))
  unfolding insert_link
  link_write backed row =
      Leads-atomic _ _ _ _ λ s h. record { distinct = h.distinct; covered = h.covered }
  link_write (tied hash) row =
      Leads-atomic _ _ _ _ λ s h. record { distinct = h.distinct; rows = h.rows }
  link_write (loaded x) row =
      Leads-atomic _ _ _ _ λ s h. (h.0, record { distinct = h.1.distinct; rows = h.1.rows })

module _ (id : String) {A : Type 0} where
  pub Stays-pure : (stage : Stage) (a : A) → Stays id stage (pure {S = PayrollState} a)
  Stays-pure stage a = record { run = λ w h i. (h, i) }

  pub Stays-throw : (stage : Stage) (e : Exn) → Stays id stage (throw {S = PayrollState} {A = A} e)
  Stays-throw stage e = record { run = λ w h i. (h, i) }

  pub Stays-lift : (stage : Stage) (r : Result A) → Stays id stage (lift {S = PayrollState} r)
  Stays-lift stage r = record { run = λ w h i. (h, i) }

  pub Stays-if :
      (stage : Stage) (b : Bool) (m n : Action PayrollState A)
      → Stays id stage m
      → Stays id stage n
      → Stays id stage (if b then m else n)
  Stays-if stage b m n first second = Leads-if _ stage b m n _ (λ _. first) (λ _. second)

  pub Stays-transaction :
      (stage : Stage) (m : Action PayrollState A)
      → Stays id stage m
      → Stays id stage (transaction m)
  Stays-transaction stage m body = Leads-transaction _ stage m _ body (λ e s h. h)

  pub Ends-if :
      (stage : Stage) (b : Bool) (m n : Action PayrollState A)
      → Ends id stage m
      → Ends id stage n
      → Ends id stage (if b then m else n)
  Ends-if stage b m n first second = Leads-if _ stage b m n _ (λ _. first) (λ _. second)

  pub Ends-Stays : (stage : Stage) (m : Action PayrollState A) → Stays id stage m → Ends id stage m
  Ends-Stays stage m stays = record {
    run =
        λ w h i. let (keep, there) = stays.run w h i in (keep, weaken id stage (m w).1.state there);
  }

module _ (id : String) {A B : Type 0} where
  pub Stays-bind :
      (stage : Stage) (m : Action PayrollState A) (k : A → Action PayrollState B)
      → Stays id stage m
      → ((a : A) → Stays id stage (k a))
      → Stays id stage (m >>= k)
  Stays-bind stage m k first next = Leads-bind _ stage m k _ _ first next (λ e s h. h)

  pub Ends-bind :
      (stage : Stage) (m : Action PayrollState A) (k : A → Action PayrollState B)
      → Stays id stage m
      → ((a : A) → Ends id stage (k a))
      → Ends id stage (m >>= k)
  Ends-bind stage m k first next =
      Leads-bind _ stage m k (λ _. stage) _ first next (λ e s h. weaken id stage s h)

pub ruleset stays_rules =
    (Stays-pure, Stays-throw, Stays-lift, Stays-if, Stays-bind, Stays-transaction)

module _ (id : String) where
  counts_read :
      (stage : Stage) (run_id : String) → Stays id stage (get_payroll_progress_counts run_id)
  unfolding get_payroll_progress_counts
  counts_read stage run_id = Leads-atomic _ _ _ _ λ s h. h

  pub treasury_read : (stage : Stage) (org : String) → Stays id stage (load_treasury org)
  unfolding load_treasury
  treasury_read stage org = Leads-atomic _ _ _ _ λ s h. h

  finalize_with-Stays :
      (stage : Stage) (run_id : String) (c : ProgressCounts)
      → Stays id stage (finalize_with run_id c)
  unfolding finalize_with
  finalize_with-Stays stage run_id c = search (stays_rules, run_write)

  pub finalize-Stays :
      (stage : Stage) (run_id : String) → Stays id stage (finalize_run_if_settled run_id)
  unfolding finalize_run_if_settled
  finalize-Stays stage run_id = search (stays_rules, counts_read, finalize_with-Stays)

  -- A write that leaves the hash alone.
  plain_write :
      (stage : Stage) (j : String) (f : Item → Item)
      → ((x : Item) → (f x).id ≡ x.id)
      → ((x : Item) → (f x).tx_hash ≡ x.tx_hash)
      → Stays id stage (atomic (update_items (is_item j) f))
  plain_write stage j f same keeps =
      Leads-atomic _ _ _ _ λ s h. write-Inv id j f s stage same keeps h

  pub mark_item_failed-Stays :
      (stage : Stage) (j reason : String) → Stays id stage (mark_item_failed j reason)
  unfolding mark_item_failed
  mark_item_failed-Stays stage j reason = plain_write stage j _ (λ _. refl) (λ _. refl)

  pub unreconciled-Stays :
      (stage : Stage) (j : String) → Stays id stage (mark_submitted_item_unreconciled j)
  unfolding mark_submitted_item_unreconciled
  unreconciled-Stays stage j = plain_write stage j _ (λ _. refl) (λ _. refl)

  pub started-Stays :
      (stage : Stage) (n : ℕ) → Stays id stage (atomic (update_items (is_item id) (as_started n)))
  started-Stays stage n = plain_write stage id _ (λ _. refl) (λ _. refl)

  pub retry-Stays :
      (stage : Stage) (n : ℕ) (reason : String)
      → Stays id stage (atomic (update_items (is_item id) (after_attempt n reason)))
  retry-Stays stage n reason = plain_write stage id _ (λ _. refl) (λ _. refl)

  -- A write that stores the hash to which the rows are tied.
  pub tied_write :
      (hash : Text) (f : Item → Item)
      → ((x : Item) → (f x).id ≡ x.id)
      → ((x : Item) → (f x).tx_hash ≡ some hash)
      → Stays id (tied (some hash)) (atomic (update_items (is_item id) f))
  tied_write hash f same sets =
      Leads-atomic _ _ _ _ λ s h. update-TiedRows id (some hash) f s same (λ x _. sets x) h

pub id-as_submitted :
    (hash : Text) (sealed : Option Text) (x : Item) → (as_submitted hash sealed x).id ≡ x.id
id-as_submitted hash none x = refl
id-as_submitted hash (some t) x = refl

pub tx_hash-as_submitted :
    (hash : Text) (sealed : Option Text) (x : Item)
    → (as_submitted hash sealed x).tx_hash ≡ some hash
tx_hash-as_submitted hash none x = refl
tx_hash-as_submitted hash (some t) x = refl
