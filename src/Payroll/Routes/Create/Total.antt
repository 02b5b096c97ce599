-- ===== src/Payroll/Routes/Create/Total.antt =====
-- The run that an intake of routes/payroll.ts creates, from its rows to its total.
use benzo_main.Prelude.{
  ℕ, ◌≡◌, refl, ap, sym, subst, ◌∙◌, zero, suc, map, lt→ltb, if◌then◌else◌, String, Text, true,
  Option, none, some, List, [], ◌∷◌, ◌&&◌, All, inl, inr, arith, leb, ltb, length, Bool-cases,
}
use benzo_main.Service.{Result, ok, World, alone, pure, >>=-step}
use benzo_main.Database.{DestToken}
use benzo_main.Payroll.{RunStatus, ready, Run}
use benzo_main.Payroll.Amount.{parse_payroll_amount}
use benzo_main.Payroll.Csv.{ParsedRow, parse_csv, is_row_amount}
use benzo_main.Payroll.Intake.{
  PreviewItem, max_rows, query_batch, chunk, handle_inputs, check_rows, valid_items,
}
use benzo_main.Payroll.Intake.Valid.{Payable, Checked, intake-Checked}
use benzo_main.Payroll.Intake.Total.{total_parsed, sum_amounts-exact}
use benzo_main.Payroll.Routes.{RoutesState}
use benzo_main.Payroll.Routes.Create.Handles.{registered}
use benzo_main.Payroll.Routes.Create.Resolves.{load_handles-found, check_rows-registered}
use benzo_main.Payroll.Routes.Create.Stored.{item_of, with_payroll, stored-all}
use benzo_main.Payroll.Routes.Create.{
  IntakeBody, CreateEnv, Summary, CreateReply, created, resolve_payroll_token, amounts_of, new_run,
  new_item, store_run, create_from_rows, create_with_token, create_payroll,
}

abbrev pub created_status : ℕ → RunStatus
created_status zero = RunStatus.failed
created_status (suc n) = ready

abbrev pub created_error : ℕ → Option String
created_error zero = some "no_valid_rows"
created_error (suc n) = none

-- What a created run and its items are, for the rows that were uploaded, and that they are stored.
pub record Exact (env : CreateEnv) (org_id user_id : String) (token : DestToken)
    (rows : List ParsedRow) (db after : RoutesState) (run : Run) (items : List PreviewItem)
    : Type 0 where
  pub checked : Checked (registered db.users db.handles) [] rows items
  pub total : ℕ
  pub parses : total_parsed (amounts_of (valid_items items)) ≡ ok total
  pub total_amount : parse_payroll_amount run.total_amount 6 ≡ ok total
  pub item_count : run.item_count ≡ length (valid_items items)
  pub id : run.id ≡ env.new_run_id
  pub org : run.org_id ≡ org_id
  pub created_by : run.created_by ≡ user_id
  pub run_token : run.token ≡ token
  pub status : run.status ≡ created_status (length (valid_items items))
  pub error : run.error ≡ created_error (length (valid_items items))
  pub stored :
      after ≡ with_payroll db (run ∷ []) (map (item_of env.new_item_id env.new_run_id) items)

row-shaped :
    (lookup : Text → Option Text) (items : List PreviewItem)
    → All (Payable lookup) items
    → All (λ s. is_row_amount s ≡ true) (amounts_of items)
row-shaped lookup [] h = tt
row-shaped lookup (i ∷ items) h =
    let p = h.0 in (ground (arith, p.amount), row-shaped lookup items h.1)

created-run :
    {run run' : Run} {s s' : Summary} {is is' : List PreviewItem}
    → created run s is ≡ created run' s' is'
    → run ≡ run'
created-run h = cc h

created-items :
    {run run' : Run} {s s' : Summary} {is is' : List PreviewItem}
    → created run s is ≡ created run' s' is'
    → is ≡ is'
created-items h = cc h

replied : {a b : CreateReply} {w v : World RoutesState} → pure a w ≡ (ok b, v) → a ≡ b
replied h = cc (ap (λ (r : Result CreateReply × World RoutesState). r.0) h)

created-status : (n : ℕ) → (if ltb 0 n then ready else RunStatus.failed) ≡ created_status n
created-status zero = refl
created-status (suc n) = rw (lt→ltb 0 (suc n) (omega arith)) refl

created-error : (n : ℕ) → (if ltb 0 n then none else some "no_valid_rows") ≡ created_error n
created-error zero = refl
created-error (suc n) = rw (lt→ltb 0 (suc n) (omega arith)) refl

module _ (env : CreateEnv) (org_id user_id : String) (db : RoutesState) where
  checked-Exact :
      (token : DestToken) (token_id : ℕ) (rows : List ParsedRow) (items : List PreviewItem)
      → check_rows (registered db.users db.handles) rows [] ≡ items
      → let run = new_run env org_id user_id token token_id items in
        Exact env org_id user_id token rows db
          (with_payroll db (run ∷ []) (map (item_of env.new_item_id env.new_run_id) items))
          run
          items
  unfolding new_run
  checked-Exact token token_id rows items h =
      let checked =
        subst (λ is. Checked (registered db.users db.handles) [] rows is) h
          (intake-Checked (registered db.users db.handles) rows) in
      let (total, parses, is_total) =
        sum_amounts-exact (amounts_of (valid_items items)) (row-shaped _ _ checked.payable) in
      record {
        checked = checked;
        total = total;
        parses = parses;
        total_amount = is_total;
        item_count = refl;
        id = refl;
        org = refl;
        created_by = refl;
        run_token = refl;
        status = created-status (length (valid_items items));
        error = created-error (length (valid_items items));
        stored = refl;
      }

  stored-Exact :
      (token : DestToken) (token_id : ℕ) (rows : List ParsedRow) (checked_items : List PreviewItem)
      (run : Run) (summary : Summary) (items : List PreviewItem) (v : World RoutesState)
      → check_rows (registered db.users db.handles) rows [] ≡ checked_items
      → store_run env org_id user_id token token_id checked_items (alone db)
        ≡ (ok (created run summary items), v)
      → Exact env org_id user_id token rows db v.state run items
  unfolding store_run
  stored-Exact token token_id rows checked_items run summary items v is h =
      let new = new_run env org_id user_id token token_id checked_items in
      let items' = map (new_item env org_id user_id token token_id) checked_items in
      let ran =
        sym (>>=-step _ _ (alone db) (stored-all env org_id user_id token token_id new items' db))
        ∙ h in
      let same = replied ran in
      let ended : with_payroll db (new ∷ []) items' ≡ v.state =
        ap (λ (r : Result CreateReply × World RoutesState). r.1.state) ran in
      rw (← created-run same, ← created-items same, ← ended)
        (checked-Exact token token_id rows checked_items is)

  rows-Exact :
      (token : DestToken) (token_id : ℕ) (rows : List ParsedRow) (run : Run) (summary : Summary)
      (items : List PreviewItem) (v : World RoutesState)
      → create_from_rows env org_id user_id token token_id rows (alone db)
        ≡ (ok (created run summary items), v)
      → Exact env org_id user_id token rows db v.state run items
  unfolding create_from_rows
  rows-Exact token token_id [] run summary items v h = let e = replied h in cc e
  rows-Exact token token_id (r ∷ rows) run summary items v h =
      elim (Bool-cases (ltb max_rows (length (r ∷ rows)))) [
        | inl many ↦ (let e = replied (rw many at h) in cc e)
        | inr few ↦
            (let loaded = load_handles-found db (chunk (handle_inputs (r ∷ rows)) query_batch) in
              let ran = sym (>>=-step _ _ (alone db) loaded) ∙ (rw few at h) in
              stored-Exact token token_id (r ∷ rows) _ run summary items v
                (sym (
                  ap (λ (check : List Text → List PreviewItem). check [])
                    (check_rows-registered db.users db.handles (r ∷ rows))))
                ran)
      ]

  token-Exact :
      (body : IntakeBody) (token_id : Option ℕ) (run : Run) (summary : Summary)
      (items : List PreviewItem) (v : World RoutesState)
      → create_with_token env org_id user_id body token_id (alone db)
        ≡ (ok (created run summary items), v)
      → Exact env org_id user_id body.token (parse_csv body.csv) db v.state run items
  token-Exact body none run summary items v h = let e = replied h in cc e
  token-Exact body (some token_id) run summary items v h =
      rows-Exact body.token token_id (parse_csv body.csv) run summary items v h

-- When an intake creates a run, and nobody else writes, its items are the rows of the text, in
-- order, with the addresses of the users who have the handles in the database: the valid ones are
-- for different addresses with positive amounts, and no payable address is left out. The run is the
-- organisation's, made by the user, with the body's token; it is ready if an item is valid, and
-- failed otherwise; it counts the valid items, and its total is parsed, with six decimals, to the
-- sum of what their amounts are parsed to. The run and one untried item of it for each row, in order
-- and with the row's outcome, are added to the tables, and nothing else changes.
pub create_payroll-Exact :
    (env : CreateEnv) (org_id user_id : String) (body : IntakeBody) (db : RoutesState) (run : Run)
    (summary : Summary) (items : List PreviewItem) (v : World RoutesState)
    → create_payroll env org_id user_id body (alone db) ≡ (ok (created run summary items), v)
    → Exact env org_id user_id body.token (parse_csv body.csv) db v.state run items
unfolding create_payroll
create_payroll-Exact env org_id user_id body db run summary items v h =
    elim (Bool-cases (leb 1 (length body.csv) && leb (length body.csv) 1000000)) [
      | inl fits ↦
          token-Exact env org_id user_id db body (resolve_payroll_token env body.token) run summary
            items v (rw fits at h)
      | inr other ↦ (let e = replied (rw other at h) in cc e)
    ]
