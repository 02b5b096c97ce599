-- ===== src/Payroll/Routes/Create/Stored.antt =====
-- What an intake of routes/payroll.ts stores: its run, and an item for each row.
use benzo_main.Prelude.{ℕ, ◌≡◌, refl, ap, ◌∙◌, sym, String, none, List, [], ◌∷◌, ◌++◌, arith}
use benzo_main.Service.{ok, alone, atomic, transaction, ◌>>=◌, ◌>>◌}
use benzo_main.Database.{DestToken}
use benzo_main.Payroll.{Run, Item}
use benzo_main.Payroll.Intake.{PreviewItem, chunk}
use benzo_main.Payroll.Intake.Batches.{concat, concat-chunk}
use benzo_main.Payroll.Routes.{RoutesState}
use benzo_main.Payroll.Routes.Create.{CreateEnv, insert_run, insert_batches}

-- The item of a checked row: it was never tried, and has no transaction.
abbrev pub item_of : (ℕ → String) → String → PreviewItem → Item
item_of new_id run_id i = record {
  id = new_id i.row_index;
  run_id = run_id;
  row_index = i.row_index;
  recipient_input = i.recipient_input;
  resolved_address = i.resolved_address;
  amount = i.amount;
  status = i.status;
  attempt = 0;
  confirmation_attempt = 0;
  tx_hash = none;
  submission_raw_tx = none;
  error = i.error;
}

-- The state with a run and items more.
abbrev pub with_payroll : RoutesState → List Run → List Item → RoutesState
with_payroll db runs items = record db {
  payroll = record db.payroll { runs = db.payroll.runs ++ runs; items = db.payroll.items ++ items };
}

module _ {A : Type 0} where
  append_none : (xs : List A) → (xs ++ []) ≡ xs
  append_none [] = refl
  append_none (x ∷ xs) = ap (λ rest. x ∷ rest) (append_none xs)

  append_twice : (xs ys zs : List A) → ((xs ++ ys) ++ zs) ≡ (xs ++ (ys ++ zs))
  append_twice [] ys zs = refl
  append_twice (x ∷ xs) ys zs = ap (λ rest. x ∷ rest) (append_twice xs ys zs)

module _ (env : CreateEnv) (org_id user_id : String) (token : DestToken) (token_id : ℕ) where
  abbrev with_items : RoutesState → List Item → RoutesState
  with_items db items = record db { payroll = record db.payroll { items = items } }

  insert_batches-all :
      (batches : List (List Item)) (db : RoutesState)
      → insert_batches env org_id user_id token token_id batches (alone db)
        ≡ (ok tt, alone (with_items db (db.payroll.items ++ concat batches)))
  unfolding insert_batches atomic ◌>>=◌
  insert_batches-all [] db =
      ap (λ items. (ok tt, alone (with_items db items))) (sym (append_none db.payroll.items))
  insert_batches-all (batch ∷ batches) db =
      insert_batches-all batches (with_items db (db.payroll.items ++ batch))
      ∙ ap (λ items. (ok tt, alone (with_items db items)))
          (append_twice db.payroll.items batch (concat batches))

  abbrev with_run : RoutesState → Run → RoutesState
  with_run db run = record db { payroll = record db.payroll { runs = db.payroll.runs ++ run ∷ [] } }

  -- The transaction stores the run and all its items, in order.
  pub stored-all :
      (run : Run) (items : List Item) (db : RoutesState)
      → transaction
          (atomic (insert_run env org_id user_id token token_id run)
            >> insert_batches env org_id user_id token token_id (chunk items 5000))
          (alone db)
        ≡ (ok tt, alone (with_payroll db (run ∷ []) items))
  unfolding transaction atomic ◌>>=◌
  stored-all run items db =
      rw
        (
          insert_batches-all (chunk items 5000) (with_run db run),
          concat-chunk 5000 items (omega arith),
        )
        refl
