-- ===== src/Treasury/Growth.antt =====
-- A reconciliation pass moves the ledger only as `Grows` allows, whatever others write.
use benzo_main.Prelude.{
  ℕ, ◌≡◌, refl, sym, subst, String, Text, true, false, Option, none, some, List, [], ◌∷◌, arith,
  any, find, find_holds, inl, inr, Bool-cases, eq_iff,
}
use benzo_main.Service.{ok, World, atomic, transaction, run_alone, ◌>>=◌}
use benzo_main.Service.Maintains.{Maintains, Calm, Maintains-atomic, maintains_rules}
use benzo_main.Table.{update_where}
use benzo_main.Table.Evolution.{Evolves, Evolves-refl}
use benzo_main.Table.Rows.{update_where_unselected}
use benzo_main.Database.{DepositStatus, Deposit, Ledger}
use benzo_main.Database.Growth.{
  settles, DepositMoves, AnyDeposit, deposit_laws, intent_laws, Grows, Grows-trans, Grows-refl,
}
use benzo_main.Treasury.{
  ReceiptStatus, ReconcileEnv, ReconcileResult, Candidate, SettledStatus, is_submitted,
  has_deposit_id, is_settleable, with_deposit_status, update_deposits, settle_locked, settle_in,
  settle_submitted_treasury_deposit, with_receipt, reconcile_row, reconcile_each, due_deposits,
  reconcile_treasury_deposits,
}
use benzo_main.Treasury.Settlement.{locked_row, settled_ledger}

-- Ids are a primary key.
abbrev pub DistinctDeposits : List Deposit → Type 0
DistinctDeposits [] = Unit
DistinctDeposits (x ∷ xs) = (any (has_deposit_id x.id) xs ≡ false) × DistinctDeposits xs

-- The ledger has grown from `origin`, and ids are distinct.
pub record Sound (origin s : Ledger) : Type 0 where
  pub grown : Grows origin s
  pub distinct : DistinctDeposits s.deposits

submitted-eq :
    (status : DepositStatus) → is_submitted status ≡ true → status ≡ DepositStatus.submitted
submitted-eq DepositStatus.submitted h = refl
submitted-eq DepositStatus.confirmed h = absurd (cc h)
submitted-eq DepositStatus.failed h = absurd (cc h)

module _ (now : ℕ) (status : SettledStatus) where
  abbrev settled : Deposit → Deposit
  settled = with_deposit_status now status

  settled-DepositMoves : (x : Deposit) → is_submitted x.status ≡ true → DepositMoves x (settled x)
  settled-DepositMoves x h = record {
    same_id = refl;
    same_org = refl;
    same_amount = refl;
    same_key = refl;
    settled = settles (submitted-eq x.status h);
  }

  -- With distinct ids an update by id moves the row that a search by id finds, and no other.
  update-Evolves :
      (id : String) (xs : List Deposit) (x : Deposit)
      → DistinctDeposits xs
      → find (has_deposit_id id) xs ≡ some x
      → is_submitted x.status ≡ true
      → Evolves DepositMoves AnyDeposit xs (update_where (has_deposit_id id) settled xs)
  update-Evolves id [] x d h on = cc
  update-Evolves id (y ∷ ys) x d h on = elim (Bool-cases (has_deposit_id id y)) [
    | inl hit ↦
        (let same : y ≡ x = cc (rw hit at h) in
          let named = (eq_iff y.id id).0 hit in
          rw hit (
            settled-DepositMoves y (rw same on),
            rw (update_where_unselected (has_deposit_id id) settled ys (rw (← named) d.0))
                (Evolves-refl deposit_laws ys),
          ))
    | inr miss ↦ rw miss (deposit_laws.moves_refl y, update-Evolves id ys x d.1 (rw miss at h) on)
  ]

  any-settled :
      (j id : String) (xs : List Deposit)
      → any (has_deposit_id j) (update_where (has_deposit_id id) settled xs)
        ≡ any (has_deposit_id j) xs
  any-settled j id [] = refl
  any-settled j id (x ∷ xs) = elim (Bool-cases (has_deposit_id id x)) [
    | inl on ↦ rw (on, any-settled j id xs)
    | inr off ↦ rw (off, any-settled j id xs)
  ]

  settled-DistinctDeposits :
      (id : String) (xs : List Deposit)
      → DistinctDeposits xs
      → DistinctDeposits (update_where (has_deposit_id id) settled xs)
  settled-DistinctDeposits id [] h = tt
  settled-DistinctDeposits id (x ∷ xs) h = elim (Bool-cases (has_deposit_id id x)) [
    | inl on ↦ rw on (rw (any-settled x.id id xs) h.0, settled-DistinctDeposits id xs h.1)
    | inr off ↦ rw off (rw (any-settled x.id id xs) h.0, settled-DistinctDeposits id xs h.1)
  ]

  settled_ledger-Sound :
      (c : Candidate) (origin s : Ledger) (x : Deposit)
      → Sound origin s
      → locked_row c s ≡ some x
      → is_settleable c x ≡ true
      → Sound origin (settled_ledger now status x s)
  settled_ledger-Sound c origin s x h at_row fit =
      let named = (eq_iff x.id c.id).0 (find_holds (has_deposit_id c.id) s.deposits x at_row) in
      record {
        grown = Grows-trans origin s (settled_ledger now status x s) h.grown (record {
          intents = Evolves-refl intent_laws s.intents;
          deposits =
              update-Evolves x.id s.deposits x h.distinct
                (subst (λ id. find (has_deposit_id id) s.deposits ≡ some x) (sym named) at_row)
                (ground (arith, fit));
        });
        distinct = settled-DistinctDeposits x.id s.deposits h.distinct;
      }

  locked-Sound :
      (c : Candidate) (origin s : Ledger) (row : Option Deposit)
      → Sound origin s
      → locked_row c s ≡ row
      → Sound origin (run_alone (settle_in now c status) s).1
  unfolding settle_in settle_locked update_deposits atomic ◌>>=◌
  locked-Sound c origin s none h at_row = rw at_row h
  locked-Sound c origin s (some x) h at_row = elim (Bool-cases (is_settleable c x)) [
    | inl fit ↦ rw at_row (rw fit (settled_ledger-Sound c origin s x h at_row fit))
    | inr unfit ↦ rw at_row (rw unfit h)
  ]

  settle-Maintains :
      (c : Candidate) (origin : Ledger)
      → Maintains (Sound origin) (settle_submitted_treasury_deposit now c status)
  unfolding settle_submitted_treasury_deposit transaction
  settle-Maintains c origin =
      Maintains-atomic (run_alone (settle_in now c status))
        λ s h. locked-Sound c origin s (locked_row c s) h refl

module _ (env : ReconcileEnv) (origin : Ledger) where
  with_receipt-Maintains :
      (c : Candidate) (receipt : Option ReceiptStatus) (r : ReconcileResult)
      → Maintains (Sound origin) (with_receipt env c receipt r)
  unfolding with_receipt
  with_receipt-Maintains c none r = search maintains_rules
  with_receipt-Maintains c (some receipt) r = search (maintains_rules, settle-Maintains)

  reconcile_row-Maintains :
      (id : String) (hash : Option Text) (r : ReconcileResult)
      → Maintains (Sound origin) (reconcile_row env id hash r)
  unfolding reconcile_row
  reconcile_row-Maintains id none r = search maintains_rules
  reconcile_row-Maintains id (some []) r = search maintains_rules
  reconcile_row-Maintains id (some (c ∷ s)) r = search (maintains_rules, with_receipt-Maintains)

  reconcile_each-Maintains :
      (due : List Deposit) (r : ReconcileResult)
      → Maintains (Sound origin) (reconcile_each env due r)
  unfolding reconcile_each
  reconcile_each-Maintains [] r = search maintains_rules
  reconcile_each-Maintains (row ∷ rest) r =
      search (maintains_rules, reconcile_row-Maintains, reconcile_each-Maintains rest)

  read-Maintains :
      Maintains (Sound origin) (atomic {S = Ledger} λ db. (ok (due_deposits env db), db))
  read-Maintains = Maintains-atomic _ λ s h. h

  reconcile-Maintains : Maintains (Sound origin) (reconcile_treasury_deposits env)
  unfolding reconcile_treasury_deposits
  reconcile-Maintains = search (maintains_rules, read-Maintains, reconcile_each-Maintains)

-- If deposit ids are distinct, and the others' writes keep them so and move the ledger as it may
-- change from the start of the pass, then so does a reconciliation pass, however it ends: no
-- intent or deposit disappears or changes its identity, and a deposit is settled at most once.
pub reconcile-Sound :
    (env : ReconcileEnv) (w : World Ledger)
    → DistinctDeposits w.state.deposits
    → Calm (Sound w.state) w.others
    → Sound w.state (reconcile_treasury_deposits env w).1.state
reconcile-Sound env w distinct calm =
    ((reconcile-Maintains env w.state).from w
      (record { grown = Grows-refl w.state; distinct = distinct }, calm)).0
