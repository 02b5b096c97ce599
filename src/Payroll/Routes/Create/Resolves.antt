-- ===== src/Payroll/Routes/Create/Resolves.antt =====
-- The rows of an intake of routes/payroll.ts are checked with the handles that the database has.
use mathlib.Core.Path.{fun_ext}
use benzo_main.Prelude.{
  ◌≡◌, refl, ap, ◌∙◌, sym, subst, Text, true, Option, List, [], ◌∷◌, inl, inr, any, arith, length,
  ltb, text_eq, Bool-cases,
}
use benzo_main.Service.{ok, alone, atomic, ◌>>=◌}
use benzo_main.Database.{User}
use benzo_main.Payroll.Csv.{ParsedRow, is_evm_address}
use benzo_main.Payroll.Intake.{
  address_of, handle_key, handle_inputs, is_handle, resolve_recipient, check_rows, check_row,
  by_handle, chunk, query_batch,
}
use benzo_main.Payroll.Intake.Batches.{
  concat-chunk, AreAsked, AllLower, handle_inputs-AreAsked, handle_inputs-AllLower,
}
use benzo_main.Payroll.Routes.{Handle, RoutesState}
use benzo_main.Payroll.Routes.Create.{load_handles}
use benzo_main.Payroll.Routes.Create.Handles.{registered, all_found, all_asked}

pub load_handles-found :
    (db : RoutesState) (batches : List (List Text))
    → load_handles batches (alone db) ≡ (ok (all_found db.users db.handles batches), alone db)
unfolding load_handles atomic ◌>>=◌
load_handles-found db [] = refl
load_handles-found db (batch ∷ batches) = rw (load_handles-found db batches) refl

module _ (f g : Text → Option Text) where
  by_handle-same :
      (input : Text)
      → (ltb 0 (length input) ≡ true → f (handle_key input) ≡ g (handle_key input))
      → by_handle f input ≡ by_handle g input
  by_handle-same [] h = refl
  by_handle-same (c ∷ s) h =
      let some_text : ltb 0 (length (c ∷ s)) ≡ true = ground arith in rw (h some_text) refl

  resolve-same :
      (r : ParsedRow)
      → (is_handle r ≡ true → f (handle_key r.recipient_input) ≡ g (handle_key r.recipient_input))
      → resolve_recipient f r.recipient_input ≡ resolve_recipient g r.recipient_input
  unfolding resolve_recipient
  resolve-same r h = elim (Bool-cases (is_evm_address r.recipient_input)) [
    | inl evm ↦ rw evm refl
    | inr other ↦
        rw other (by_handle-same r.recipient_input (λ some_text. h (rw (some_text, other) refl)))
  ]

  check_rows-same :
      (asked : List Text) (rows : List ParsedRow)
      → AreAsked asked rows
      → ((key : Text) → any (text_eq key) asked ≡ true → f key ≡ g key)
      → check_rows f rows ≡ check_rows g rows
  unfolding check_rows
  check_rows-same asked [] all same = refl
  check_rows-same asked (r ∷ rows) all same =
      let later = check_rows-same asked rows all.1 same in
      let here =
        resolve-same r λ on. same (handle_key r.recipient_input) (ground (arith, on, all.0)) in
      fun_ext λ seen.
        ap (check_row (resolve_recipient f r.recipient_input) r seen) later
        ∙ ap (λ x. check_row x r seen (check_rows g rows)) here

-- The table that an intake builds for its rows serves them as the database's handles do.
pub check_rows-registered :
    (users : List User) (handles : List Handle) (rows : List ParsedRow)
    → check_rows
        (λ key. address_of key (all_found users handles (chunk (handle_inputs rows) query_batch)))
        rows
      ≡ check_rows (registered users handles) rows
check_rows-registered users handles rows =
    let whole = concat-chunk query_batch (handle_inputs rows) (omega arith) in
    check_rows-same _ (registered users handles) (handle_inputs rows) rows
      (handle_inputs-AreAsked rows)
      (λ key on.
        all_asked users handles key (chunk (handle_inputs rows) query_batch)
          (subst AllLower (sym whole) (handle_inputs-AllLower rows))
          (ap (any (text_eq key)) whole ∙ on))
