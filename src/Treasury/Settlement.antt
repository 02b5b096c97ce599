-- ===== src/Treasury/Settlement.antt =====
-- One candidate's settlement: a deposit is settled at most once.
use benzo_main.Prelude.{
  ℕ, ◌≡◌, refl, Bool, true, false, Option, none, some, find, ◌≢◌, Text, [], ◌∷◌, ◌&&◌, inl, inr,
  Bool-cases, text_eq, text_eq_iff, to_lower_case,
}
use benzo_main.Service.{ok, alone, atomic, transaction, ◌>>=◌}
use benzo_main.Table.{update_where}
use benzo_main.Database.{DepositStatus, Deposit, Ledger}
use benzo_main.Treasury.{
  Candidate, SettledStatus, confirmed, failed, is_submitted, has_deposit_id, is_settleable,
  same_hash, with_deposit_status, settle_in, settle_locked, settle_submitted_treasury_deposit,
}

-- The ledger after the settlement of the locked row `x`.
abbrev pub settled_ledger : ℕ → SettledStatus → Deposit → Ledger → Ledger
settled_ledger now status x s = record s {
  deposits = update_where (has_deposit_id x.id) (with_deposit_status now status) s.deposits;
}

-- The deposit that a candidate locks.
abbrev pub locked_row : Candidate → Ledger → Option Deposit
locked_row c s = find (has_deposit_id c.id) s.deposits

module _ (now : ℕ) (c : Candidate) (status : SettledStatus) (s : Ledger) where
  settle_missing :
      locked_row c s ≡ none
      → settle_submitted_treasury_deposit now c status (alone s) ≡ (ok false, alone s)
  unfolding settle_submitted_treasury_deposit settle_in settle_locked transaction atomic ◌>>=◌
  settle_missing h = rw h

  settle_unfit :
      (x : Deposit)
      → locked_row c s ≡ some x
      → is_settleable c x ≡ false
      → settle_submitted_treasury_deposit now c status (alone s) ≡ (ok false, alone s)
  unfolding settle_submitted_treasury_deposit settle_in settle_locked transaction atomic ◌>>=◌
  settle_unfit x h unfit = rw h (rw unfit)

and-false : (b : Bool) → (b && false) ≡ false
and-false true = refl
and-false false = refl

-- The columns of the settled deposit, written out.
abbrev pub settled : ℕ → SettledStatus → Deposit → Deposit
settled now confirmed x = record x { status = DepositStatus.confirmed; updated_at = now }
settled now failed x = record x { status = DepositStatus.failed; updated_at = now }

-- Why what is stored for a candidate must not be settled.
pub data Unfit (c : Candidate) (row : Option Deposit) : Type 0 where
  missing : row ≡ none → Unfit c row
  other_status : (x : Deposit) → row ≡ some x → x.status ≢ DepositStatus.submitted → Unfit c row
  no_hash : (x : Deposit) → row ≡ some x → x.tx_hash ≡ none → Unfit c row
  empty_hash : (x : Deposit) → row ≡ some x → x.tx_hash ≡ some [] → Unfit c row
  other_hash :
      (x : Deposit) (hash : Text)
      → row ≡ some x
      → x.tx_hash ≡ some hash
      → to_lower_case hash ≢ to_lower_case c.tx_hash
      → Unfit c row

is_submitted-other :
    (status : DepositStatus) → status ≢ DepositStatus.submitted → is_submitted status ≡ false
is_submitted-other DepositStatus.submitted ne = absurd (ne refl)
is_submitted-other DepositStatus.confirmed ne = refl
is_submitted-other DepositStatus.failed ne = refl

same_hash-other :
    (stored hash : Text)
    → to_lower_case stored ≢ to_lower_case hash
    → same_hash (some stored) hash ≡ false
same_hash-other [] hash ne = refl
same_hash-other (b ∷ stored) hash ne =
    elim (Bool-cases (text_eq (to_lower_case (b ∷ stored)) (to_lower_case hash))) [
      | inl same ↦ absurd (ne ((text_eq_iff _ _).0 same))
      | inr other ↦ other
    ]

-- With nobody else writing, a candidate that has no deposit, or one that is not submitted, or has
-- no hash or an empty one, or has another hash than the candidate's up to case, is not settled and
-- nothing is written.
pub settle_refused :
    (now : ℕ) (c : Candidate) (status : SettledStatus) (s : Ledger)
    → Unfit c (locked_row c s)
    → settle_submitted_treasury_deposit now c status (alone s) ≡ (ok false, alone s)
settle_refused now c status s (missing h) = settle_missing now c status s h
settle_refused now c status s (other_status x h ne) =
    settle_unfit now c status s x h (rw (is_submitted-other x.status ne) refl)
settle_refused now c status s (no_hash x h none_there) =
    settle_unfit now c status s x h (rw none_there (and-false (is_submitted x.status)))
settle_refused now c status s (empty_hash x h empty) =
    settle_unfit now c status s x h (rw empty (and-false (is_submitted x.status)))
settle_refused now c status s (other_hash x hash h at_hash ne) =
    settle_unfit now c status s x h
      (rw (at_hash, same_hash-other hash c.tx_hash ne) (and-false (is_submitted x.status)))
