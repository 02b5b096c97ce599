-- ===== src/Payroll/Routes/Access.antt =====
-- Who changes a payroll run through the routes of routes/payroll.ts, and when.
use benzo_main.Prelude.{
  ℕ, ◌≤◌, ◌≡◌, refl, ap, ◌∙◌, sym, String, Text, Bool, true, false, Option, none, some, List, [],
  ◌∷◌, arith, inl, inr, leb, ltb, leb→le, find, find_holds, eq_iff, str_eq, Bool-cases,
}
use benzo_main.Service.{Result, ok, World, alone, atomic, ◌>>=◌, try_catch, >>=-step, Result-cases}
use benzo_main.Orgs.{OrgRole, operator, OrgMember, role_rank, load_membership}
use benzo_main.Payroll.{RunStatus, ready, paused, Run, Treasury}
use benzo_main.Payroll.Progress.{ProgressCounts, is_run}
use benzo_main.Payroll.Routes.{
  RoutesState, RoutesEnv, Reply, refused, done, Request, start, pause, resume, allowed, denied,
  with_run_role, run_access, load_run_for_role, set_run, as_paused_run, load_run_funding_status,
  if_funded, with_keys, with_treasury, is_startable_status, start_allowed, start_run, is_over,
  pause_run, resume_run, handle, status_in_ready,
}
use benzo_main.Table.Rows.{find-update_where}

-- The user's role in the run's organisation, if there are both.
abbrev pub role_in_run : Option Run → List OrgMember → String → Option OrgRole
role_in_run none members user_id = none
role_in_run (some run) members user_id = load_membership members run.org_id user_id

abbrev pub is_operator : Option OrgRole → Bool
is_operator none = false
is_operator (some role) = leb (role_rank operator) (role_rank role)

abbrev pub may_operate : RoutesState → String → String → Bool
may_operate db run_id user_id =
    is_operator (role_in_run (find (is_run run_id) db.payroll.runs) db.members user_id)

-- What the access check answers, and that it writes nothing.
denied-role :
    (run : Run) (role : Option OrgRole)
    → is_operator role ≡ false
    → (code : ℕ) × (reason : String) × (with_run_role operator run role ≡ denied code reason)
denied-role run none h = (404, "run_not_found", refl)
denied-role run (some role) h =
    let low : ltb (role_rank role) (role_rank operator) ≡ true = ground (arith, h) in
    (403, "forbidden", rw low refl)

denied-run :
    (db : RoutesState) (user_id : String) (run : Option Run)
    → is_operator (role_in_run run db.members user_id) ≡ false
    → (code : ℕ) × (reason : String) × (run_access operator user_id run (alone db)
        ≡ (ok (denied code reason), alone db))
unfolding atomic
denied-run db user_id none h = (404, "run_not_found", refl)
denied-run db user_id (some run) h =
    let (code, reason, e) = denied-role run (load_membership db.members run.org_id user_id) h in
    (code, reason, ap (λ a. (ok a, alone db)) e)

load-denied :
    (db : RoutesState) (run_id user_id : String)
    → may_operate db run_id user_id ≡ false
    → (code : ℕ) × (reason : String) × (load_run_for_role run_id user_id operator (alone db)
        ≡ (ok (denied code reason), alone db))
unfolding load_run_for_role atomic ◌>>=◌
load-denied db run_id user_id h = denied-run db user_id (find (is_run run_id) db.payroll.runs) h

-- Whoever is no operator of the run's organisation, or asks for a run that is not there, is refused
-- by all three routes, which change nothing, if nobody else writes.
pub handle_refuses :
    (env : RoutesEnv) (request : Request) (db : RoutesState) (run_id user_id : String)
    → may_operate db run_id user_id ≡ false
    → (code : ℕ) × (reason : String) × (handle env request run_id user_id (alone db)
        ≡ (ok (refused code reason), alone db))
unfolding handle start_run pause_run resume_run ◌>>=◌
handle_refuses env start db run_id user_id h =
    let (code, reason, e) = load-denied db run_id user_id h in (code, reason, rw e refl)
handle_refuses env pause db run_id user_id h =
    let (code, reason, e) = load-denied db run_id user_id h in (code, reason, rw e refl)
handle_refuses env resume db run_id user_id h =
    let (code, reason, e) = load-denied db run_id user_id h in (code, reason, rw e refl)

allowed-role :
    (run : Run) (role : Option OrgRole)
    → is_operator role ≡ true
    → with_run_role operator run role ≡ allowed run
allowed-role run none h = cc
allowed-role run (some role) h =
    let high : ltb (role_rank role) (role_rank operator) ≡ false = ground (arith, h) in rw high refl

module _ (env : RoutesEnv) where
  -- The treasury's balance was read and is enough.
  pub record Funded (run : Run) (treasury : Treasury) : Type 0 where
    pub sealed : Text
    pub available : ℕ
    pub required : ℕ
    pub has_key : treasury.sealed_eerc_key ≡ some sealed
    pub status : load_run_funding_status env run sealed treasury.address ≡ ok (available, required)
    pub enough : required ≤ available

  if_funded-done :
      (run : Run) (available required : ℕ) (w v : World RoutesState) {s : RunStatus} {m n : ℕ}
      {p : ProgressCounts}
      → if_funded env run (available, required) w ≡ (ok (done s m n p), v)
      → required ≤ available
  if_funded-done run available required w v h = elim (Bool-cases (leb required available)) [
    | inl enough ↦ leb→le required available enough
    | inr short ↦ cc (ap (λ (r : Result Reply × World RoutesState). r.0) (rw short at h))
  ]

  with_keys-Funded :
      (run : Run) (t : Treasury) (at : Option ℕ) (sealed : Option Text) (w v : World RoutesState)
      {s : RunStatus} {m n : ℕ} {p : ProgressCounts}
      → t.sealed_eerc_key ≡ sealed
      → run.status ≡ ready
      → with_keys env run t at sealed w ≡ (ok (done s m n p), v)
      → Funded run t
  unfolding try_catch
  with_keys-Funded run t none sealed w v e is_ready h =
      cc (ap (λ (r : Result Reply × World RoutesState). r.0) h)
  with_keys-Funded run t (some at) none w v e is_ready h =
      cc (ap (λ (r : Result Reply × World RoutesState). r.0) h)
  with_keys-Funded run t (some at) (some sealed) w v e is_ready h =
      let first : status_in_ready run.status ≡ true = ap status_in_ready is_ready in
      elim (Result-cases (load_run_funding_status env run sealed t.address)) [
        | inl ((available, required), is) ↦ record {
          sealed = sealed;
          available = available;
          required = required;
          has_key = e;
          status = is;
          enough = if_funded-done run available required w v (rw (first, is) at h);
        }
        | inr (reason, is) ↦
            cc (ap (λ (r : Result Reply × World RoutesState). r.0) (rw (first, is) at h))
      ]

  treasury-Funded :
      (run : Run) (t : Option Treasury) (w v : World RoutesState) {s : RunStatus} {m n : ℕ}
      {p : ProgressCounts}
      → run.status ≡ ready
      → with_treasury env run t w ≡ (ok (done s m n p), v)
      → (found : Treasury) × (t ≡ some found) × Funded run found
  treasury-Funded run none w v is_ready h =
      cc (ap (λ (r : Result Reply × World RoutesState). r.0) h)
  treasury-Funded run (some t) w v is_ready h =
      (t, refl, with_keys-Funded run t t.eerc_registered_at t.sealed_eerc_key w v refl is_ready h)

  load-allowed :
      (db : RoutesState) (run_id user_id : String) (run : Run)
      → find (is_run run_id) db.payroll.runs ≡ some run
      → may_operate db run_id user_id ≡ true
      → load_run_for_role run_id user_id operator (alone db) ≡ (ok (allowed run), alone db)
  unfolding load_run_for_role atomic ◌>>=◌
  load-allowed db run_id user_id run found h =
      let role = allowed-role run (load_membership db.members run.org_id user_id) (rw found at h) in
      rw found (ap (λ a. (ok a, alone db)) role)

  start_allowed-Funded :
      (db : RoutesState) (run : Run) (v : World RoutesState) {s : RunStatus} {m n : ℕ}
      {p : ProgressCounts}
      → run.status ≡ ready
      → start_allowed env (allowed run) (alone db) ≡ (ok (done s m n p), v)
      → (t : Treasury) × (find (λ (t : Treasury). str_eq t.org_id run.org_id) db.payroll.treasuries
          ≡ some t)
        × Funded run t
  unfolding atomic ◌>>=◌
  start_allowed-Funded db run v is_ready h =
      let first : is_startable_status run.status ≡ true = ap is_startable_status is_ready in
      treasury-Funded run
        (find (λ (t : Treasury). str_eq t.org_id run.org_id) db.payroll.treasuries) (alone db) v
        is_ready (rw first at h)

  -- When nobody else writes, a run that is ready is started only if its organisation has a treasury
  -- whose decrypted balance is at least the run's total, parsed with the payroll's decimals.
  pub start_run-Funded :
      (db : RoutesState) (run_id user_id : String) (run : Run) (v : World RoutesState)
      (s : RunStatus) (m n : ℕ) (p : ProgressCounts)
      → find (is_run run_id) db.payroll.runs ≡ some run
      → run.status ≡ ready
      → start_run env run_id user_id (alone db) ≡ (ok (done s m n p), v)
      → (t : Treasury) × (find (λ (t : Treasury). str_eq t.org_id run.org_id) db.payroll.treasuries
          ≡ some t)
        × Funded run t
  unfolding start_run
  start_run-Funded db run_id user_id run v s m n p found is_ready h =
      elim (Bool-cases (may_operate db run_id user_id)) [
        | inl may ↦ start_allowed-Funded db run v is_ready (
            sym (
              >>=-step (load_run_for_role run_id user_id operator) (start_allowed env) (alone db)
                (load-allowed db run_id user_id run found may))
            ∙ h)
        | inr may_not ↦
            (let (code, reason, e) = load-denied db run_id user_id may_not in
              let refusal =
                >>=-step (load_run_for_role run_id user_id operator) (start_allowed env) (alone db)
                  e in
              cc (ap (λ (r : Result Reply × World RoutesState). r.0) (sym refusal ∙ h)))
      ]

run-at :
    (db : RoutesState) (run_id : String) (run : Run)
    → find (is_run run_id) db.payroll.runs ≡ some run
    → run.id ≡ run_id
run-at db run_id run h = (eq_iff run.id run_id).0 (find_holds (is_run run_id) db.payroll.runs run h)

set_run-paused :
    (db : RoutesState) (run_id : String) (run : Run)
    → find (is_run run_id) db.payroll.runs ≡ some run
    → find (is_run run_id) (set_run run_id as_paused_run db).1.payroll.runs
      ≡ some (record run { status = paused })
set_run-paused db run_id run h =
    rw
      (find-update_where (is_run run_id) (is_run run_id) as_paused_run db.payroll.runs run
        (λ y. refl) h)
      (rw (find_holds (is_run run_id) db.payroll.runs run h) refl)

-- A pause that is allowed to a member of the run's organisation, while the member keeps the role,
-- leaves the run paused and otherwise as the others made it since the pause read it, whatever status
-- they gave it meanwhile: so also when they completed it.
pub pause_overwrites :
    (db : RoutesState) (run_id user_id : String) (run ended : Run)
    (finish : RoutesState → RoutesState)
    → find (is_run run_id) db.payroll.runs ≡ some run
    → is_over run.status ≡ false
    → may_operate db run_id user_id ≡ true
    → find (is_run run_id) (finish db).payroll.runs ≡ some ended
    → find
        (is_run run_id)
        (pause_run run_id user_id
          (record { state = db; others = (λ s. s) ∷ (λ s. s) ∷ finish ∷ [] })).1.state.payroll.runs
      ≡ some (record ended { status = paused })
unfolding pause_run load_run_for_role atomic ◌>>=◌
pause_overwrites db run_id user_id run ended finish found going may after =
    let role = allowed-role run (load_membership db.members run.org_id user_id) (rw found at may) in
    let paused_after = set_run-paused (finish db) run_id ended after in
    rw (found, role, going) (rw (run-at db run_id run found) paused_after)
