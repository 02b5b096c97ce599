-- ===== src/Payroll/Routes/Create.antt =====
-- `POST /orgs/:id/payroll` of routes/payroll.ts, behind the guard for operators: a text of rows
-- becomes a run with its items. The ids of the new rows are given by the caller.
pub mod Stored
pub mod Handles
pub mod Resolves
pub mod Total
use benzo_main.Prelude.{
  ℕ, ◌-◌, String, Text, Bool, true, false, Option, none, some, List, [], ◌∷◌, ◌++◌, ◌&&◌, map, leb,
  ltb, ◌==◌, text_eq, str_eq, find, any, length, if◌then◌else◌,
}
use benzo_main.Service.{Action, Result, ok, pure, atomic, transaction, ◌>>=◌, ◌>>◌}
use benzo_main.Database.{User, DestToken, usdc, eurc}
use benzo_main.Payroll.{RunStatus, ready, ItemStatus, Run, Item}
use benzo_main.Payroll.Csv.{ParsedRow, parse_csv}
use benzo_main.Payroll.Intake.{
  PreviewItem, max_rows, query_batch, handle_inputs, chunk, address_of, check_rows, valid_items,
  sum_amounts,
}
use benzo_main.Payroll.Routes.{Handle, RoutesState}

-- `intakeSchema`, whose token is `usdc` if none is given.
pub record IntakeBody : Type 0 where
  pub csv : Text
  pub token : DestToken

-- `treasuryFundingTokens` and `payrollTokenId` of the configuration, and the new ids.
pub record CreateEnv : Type 0 where
  pub treasury_funding_tokens : List (DestToken × ℕ)
  pub payroll_token_id : ℕ
  pub new_run_id : String
  pub new_item_id : ℕ → String

pub record Summary : Type 0 where
  pub total : ℕ
  pub valid : ℕ
  pub invalid : ℕ
  pub total_amount : Text

pub data CreateReply : Type 0 where
  rejected : ℕ → String → CreateReply
  created : Run → Summary → List PreviewItem → CreateReply

abbrev token_tag : DestToken → ℕ
token_tag usdc = 0
token_tag eurc = 1

abbrev default_token_id : ℕ → DestToken → Option ℕ
default_token_id payroll_token_id usdc = some payroll_token_id
default_token_id payroll_token_id eurc = none

abbrev or_default : ℕ → DestToken → Option (DestToken × ℕ) → Option ℕ
or_default payroll_token_id token none = default_token_id payroll_token_id token
or_default payroll_token_id token (some (configured, token_id)) = some token_id

unfoldable pub resolve_payroll_token : CreateEnv → DestToken → Option ℕ
resolve_payroll_token env token = or_default env.payroll_token_id token (
    find (λ (entry : DestToken × ℕ). token_tag entry.0 == token_tag token)
      env.treasury_funding_tokens)

abbrev pub with_owner : Handle → Option User → List (Text × Text) → List (Text × Text)
with_owner h none found = found
with_owner h (some u) found = (h.handle, u.address) ∷ found

-- The handles of a batch, with their users' addresses.
abbrev pub found_handles : List Text → List User → List Handle → List (Text × Text)
found_handles batch users [] = []
found_handles batch users (h ∷ handles) =
    let found = found_handles batch users handles in
    if any (text_eq h.handle) batch
    then with_owner h (find (λ (u : User). str_eq u.id h.user_id) users) found
    else found

unfoldable pub load_handles : List (List Text) → Action RoutesState (List (Text × Text))
load_handles [] = pure []
load_handles (batch ∷ batches) = do
  found ← atomic λ db. (ok (found_handles batch db.users db.handles), db)
  rest ← load_handles batches
  pure (found ++ rest)

abbrev pub amounts_of : List PreviewItem → List Text
amounts_of items = map (λ (i : PreviewItem). i.amount) items

module _ (env : CreateEnv) (org_id user_id : String) (token : DestToken) (token_id : ℕ) where
  unfoldable pub new_run : List PreviewItem → Run
  new_run items =
      let valid = valid_items items in
      record {
        id = env.new_run_id;
        org_id = org_id;
        status = if ltb 0 (length valid) then ready else RunStatus.failed;
        item_count = length valid;
        total_amount = sum_amounts (amounts_of valid);
        token = token;
        token_id = token_id;
        created_by = user_id;
        error = if ltb 0 (length valid) then none else some "no_valid_rows";
      }

  abbrev pub new_item : PreviewItem → Item
  new_item i = record {
    id = env.new_item_id i.row_index;
    run_id = env.new_run_id;
    row_index = i.row_index;
    recipient_input = i.recipient_input;
    resolved_address = i.resolved_address;
    amount = i.amount;
    status = i.status;
    attempt = 0;
    confirmation_attempt = 0;
    tx_hash = none;
    submission_raw_tx = none;
    error = i.error;
  }

  abbrev pub insert_run : Run → RoutesState → Result (Unit {0}) × RoutesState
  insert_run run db =
      (ok tt, record db { payroll = record db.payroll { runs = db.payroll.runs ++ run ∷ [] } })

  abbrev pub insert_items : List Item → RoutesState → Result (Unit {0}) × RoutesState
  insert_items items db =
      (ok tt, record db { payroll = record db.payroll { items = db.payroll.items ++ items } })

  unfoldable pub insert_batches : List (List Item) → Action RoutesState (Unit {0})
  insert_batches [] = pure tt
  insert_batches (batch ∷ batches) = do atomic (insert_items batch); insert_batches batches

  -- The transaction of the run and its items, and the reply.
  unfoldable pub store_run : List PreviewItem → Action RoutesState CreateReply
  store_run items =
      let run = new_run items in
      let valid = length (valid_items items) in
      do
        transaction do atomic (insert_run run); insert_batches (chunk (map new_item items) 5000)
        pure (
            created run
              (record {
                total = length items;
                valid = valid;
                invalid = length items - valid;
                total_amount = run.total_amount;
              })
              items)

  unfoldable pub create_from_rows : List ParsedRow → Action RoutesState CreateReply
  create_from_rows [] = pure (rejected 400 "empty_payroll")
  create_from_rows (r ∷ rows) =
      if ltb max_rows (length (r ∷ rows)) then pure (rejected 400 "too_many_rows") else (do
        found ← load_handles (chunk (handle_inputs (r ∷ rows)) query_batch)
        store_run (check_rows (λ key. address_of key found) (r ∷ rows) []))

abbrev pub create_with_token :
    CreateEnv → String → String → IntakeBody → Option ℕ → Action RoutesState CreateReply
create_with_token env org_id user_id body none = pure (rejected 503 "payroll_token_not_configured")
create_with_token env org_id user_id body (some token_id) =
    create_from_rows env org_id user_id body.token token_id (parse_csv body.csv)

unfoldable pub create_payroll :
    CreateEnv → String → String → IntakeBody → Action RoutesState CreateReply
create_payroll env org_id user_id body =
    if leb 1 (length body.csv) && leb (length body.csv) 1000000
    then create_with_token env org_id user_id body (resolve_payroll_token env body.token)
    else pure (rejected 400 "invalid_payroll")
