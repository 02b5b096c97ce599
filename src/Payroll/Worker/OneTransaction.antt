-- ===== src/Payroll/Worker/OneTransaction.antt =====
-- One item, one transaction: however often its job is run, only one transaction is handed to the
-- network for an item.
use benzo_main.Prelude.{
  ℕ, zero, suc, subst, ◌≡◌, refl, sym, ◌∙◌, String, Option, none, some, List, [], ◌∷◌, find,
  find_holds, eq_iff, All, get_elem?,
}
use benzo_main.Service.{Result, ok, err, World, alone}
use benzo_main.Service.Leads.{KeepStages, Leads, Leads-atomic, Leads-bind}
use benzo_main.Payroll.{Item, Run, Broadcast, PayrollState}
use benzo_main.Payroll.Progress.{is_run}
use benzo_main.Payroll.Statements.{PayrollEnv, is_item, load_runnable_item, joined}
use benzo_main.Payroll.Worker.{process_item, process_loaded, process_payroll_item}
use benzo_main.Payroll.Worker.Ties.{
  Stage, backed, tied, loaded, Covers, DistinctIds, Inv, Backed, load-rows,
}
use benzo_main.Payroll.Worker.Stays.{Ends, Stays-pure}
use benzo_main.Payroll.Worker.Attempting.{process_item-Ends}

-- What the read of the job's row tells.
abbrev read_stage : Result (Option (Item × Run)) → Stage
read_stage (ok none) = backed
read_stage (ok (some (item, run))) = loaded item
read_stage (err e) = backed

joined-stage :
    (id : String) (s : PayrollState) (x : Option Item)
    → find (is_item id) s.items ≡ x
    → Backed s
    → Inv id (read_stage (ok (joined x s))) s
joined-stage id s none found h = h
joined-stage id s (some x) found h =
    elim (find (is_run x.run_id) s.runs)
      as (λ r. Inv id (read_stage (ok (elim r [ none ↦ none | some run ↦ some (x, run) ]))) s) [
        | none ↦ h
        | some run ↦ (
          (eq_iff x.id id).0 (find_holds (is_item id) s.items x found),
          record {
            distinct = h.distinct;
            rows = load-rows id s.broadcasts s.items x h.distinct h.covered found;
          },
        )
      ]

module _ (env : PayrollEnv) (id : String) where
  load-Leads : Leads (Inv id) backed (load_runnable_item id) read_stage
  unfolding load_runnable_item
  load-Leads = Leads-atomic _ _ _ _ λ s h. joined-stage id s (find (is_item id) s.items) refl h

  loaded-Ends : (item : Item) (run : Run) → Ends id (loaded item) (process_item env item run)
  loaded-Ends item run = record {
    run = λ w h i.
        (subst (λ j. Ends j (tied item.tx_hash) (process_item env item run)) i.0
            (process_item-Ends env item run)).run
          w h i.1;
  }

  process_loaded-Ends :
      (row : Option (Item × Run)) → Ends id (read_stage (ok row)) (process_loaded env row)
  unfolding process_loaded
  process_loaded-Ends none = Stays-pure id backed tt
  process_loaded-Ends (some (item, run)) = loaded-Ends item run

  process-Ends : Ends id backed (process_payroll_item env id)
  unfolding process_payroll_item
  process-Ends = Leads-bind _ _ _ _ read_stage _ load-Leads process_loaded-Ends (λ e s h. h)

-- If every broadcast made for an item so far carries the hash that the item's row holds, and ids
-- are distinct, then it is so after a job, whether it returns or throws, at any answers of the
-- chain and the prover, as long as the others' writes in between also keep it so and do not touch
-- the hash of the job's item.
pub process_payroll_item-Backed :
    (env : PayrollEnv) (id : String) (w : World PayrollState)
    → KeepStages (Inv id) w.others
    → Backed w.state
    → Backed (process_payroll_item env id w).1.state
process_payroll_item-Backed env id w others h = ((process-Ends env id).run w others h).1

-- A job for an item, with what lies outside while it runs.
pub record Job : Type 0 where
  pub env : PayrollEnv
  pub item_id : String

-- Jobs one after another; a job that throws is over, and may be run again.
unfoldable pub run_jobs : List Job → PayrollState → PayrollState
run_jobs [] s = s
run_jobs (job ∷ jobs) s = run_jobs jobs (process_payroll_item job.env job.item_id (alone s)).1.state

run_jobs-Backed : (jobs : List Job) (s : PayrollState) → Backed s → Backed (run_jobs jobs s)
unfolding run_jobs
run_jobs-Backed [] s h = h
run_jobs-Backed (job ∷ jobs) s h =
    run_jobs-Backed jobs _ (process_payroll_item-Backed job.env job.item_id (alone s) tt h)

get-All :
    {A : Type 0} (P : A → Type 0) (xs : List A) (i : ℕ) (x : A)
    → All P xs
    → get_elem? xs i ≡ some x
    → P x
get-All P [] i x h e = absurd (cc e)
get-All P (y ∷ ys) zero x h e = let same : y ≡ x = cc in subst P same h.0
get-All P (y ∷ ys) (suc i) x h e = get-All P ys i x h.1 e

abbrev Sent : Item → Broadcast → Type 0
Sent x b = b.item_id ≡ x.id → x.tx_hash ≡ some b.tx_hash

All-Covers : (xs : List Item) → All (Covers []) xs
All-Covers [] = tt
All-Covers (x ∷ xs) = (tt, All-Covers xs)

nothing_sent : (s : PayrollState) → s.broadcasts ≡ [] → All (Covers s.broadcasts) s.items
nothing_sent s e = subst (λ bs. All (Covers bs) s.items) (sym e) (All-Covers s.items)

-- Whatever jobs are run one after another on a payroll without broadcasts, retries and failures
-- included, two transactions that were handed to the network for one item have the same hash: no
-- item is paid by two different transactions.
pub one_transaction :
    (jobs : List Job) (s : PayrollState) (x : Item) (b c : Broadcast) (i j k : ℕ)
    → DistinctIds s.items
    → s.broadcasts ≡ []
    → get_elem? (run_jobs jobs s).items i ≡ some x
    → get_elem? (run_jobs jobs s).broadcasts j ≡ some b
    → get_elem? (run_jobs jobs s).broadcasts k ≡ some c
    → b.item_id ≡ x.id
    → c.item_id ≡ x.id
    → b.tx_hash ≡ c.tx_hash
one_transaction jobs s x b c i j k distinct none_yet at_i at_j at_k for_b for_c =
    let end =
      run_jobs-Backed jobs s (record { distinct = distinct; covered = nothing_sent s none_yet }) in
    let covers =
      get-All (Covers (run_jobs jobs s).broadcasts) (run_jobs jobs s).items i x end.covered at_i in
    let holds_b = get-All (Sent x) (run_jobs jobs s).broadcasts j b covers at_j in
    let holds_c = get-All (Sent x) (run_jobs jobs s).broadcasts k c covers at_k in
    let same : some b.tx_hash ≡ some c.tx_hash = sym (holds_b for_b) ∙ holds_c for_c in cc
