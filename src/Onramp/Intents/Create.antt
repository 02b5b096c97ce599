-- ===== src/Onramp/Intents/Create.antt =====
-- `createIntent`: one intent for one burn.
use benzo_main.Prelude.{
  ℕ, ◌≡◌, refl, ◌∙◌, String, Text, true, false, some, List, [], ◌∷◌, ◌++◌, arith, find, any, inl,
  inr, text_eq, text_eq_refl, text_eq_sym, to_lower_case, to_lower_case_idem, Bool-cases,
}
use benzo_main.Service.{ok, alone, atomic, ◌>>=◌}
use benzo_main.Table.Rows.{find-append_new, any-of-find}
use benzo_main.Database.{Intent, Ledger}
use benzo_main.Onramp.Intents.{
  CreateIntentInput, has_source_tx, new_intent, insert_intent, create_intent,
}

-- No two intents have one source transaction.
abbrev pub OneIntentPerBurn : List Intent → Type 0
OneIntentPerBurn [] = Unit
OneIntentPerBurn (x ∷ xs) = (any (has_source_tx x.source_tx_hash) xs ≡ false) × OneIntentPerBurn xs

any-append :
    (hash : Text) (xs : List Intent) (x : Intent)
    → any (has_source_tx hash) xs ≡ false
    → text_eq x.source_tx_hash hash ≡ false
    → any (has_source_tx hash) (xs ++ x ∷ []) ≡ false
any-append hash [] x h k = rw k
any-append hash (y ∷ ys) x h k = ground (arith, any-append hash ys x)

append-OneIntentPerBurn :
    (xs : List Intent) (x : Intent)
    → any (has_source_tx x.source_tx_hash) xs ≡ false
    → OneIntentPerBurn xs
    → OneIntentPerBurn (xs ++ x ∷ [])
append-OneIntentPerBurn [] x free h = (refl, tt)
append-OneIntentPerBurn (y ∷ ys) x free h = (
  any-append y.source_tx_hash ys x h.0
      (text_eq_sym x.source_tx_hash y.source_tx_hash ∙ ground (arith, free)),
  append-OneIntentPerBurn ys x (ground (arith, free)) h.1,
)

module _ (now : ℕ) (id : String) (input : CreateIntentInput) (s : Ledger) where
  abbrev row : Intent
  row = new_intent now id input

  -- The first submission of a burn.
  create_new :
      any (has_source_tx (to_lower_case input.source_tx_hash)) s.intents ≡ false
      → create_intent now id input (alone s) ≡ (
        ok (record { intent = row; created = true }),
        alone (record s { intents = s.intents ++ row ∷ [] }),
      )
  unfolding create_intent ◌>>=◌ atomic insert_intent new_intent
  create_new free = rw free

  -- A burn that an intent has.
  create_existing :
      (x : Intent)
      → find (has_source_tx (to_lower_case input.source_tx_hash)) s.intents ≡ some x
      → create_intent now id input (alone s)
        ≡ (ok (record { intent = x; created = false }), alone s)
  unfolding create_intent ◌>>=◌ atomic insert_intent new_intent
  create_existing x found = rw (any-of-find _ s.intents x found) (rw to_lower_case_idem (rw found))

-- Submitting a burn a second time, in whatever case its hash is written, with nobody else
-- writing, returns the intent of the first submission as not created and writes nothing.
pub create_twice :
    (now later : ℕ) (id id' : String) (input again : CreateIntentInput) (s : Ledger)
    → to_lower_case again.source_tx_hash ≡ to_lower_case input.source_tx_hash
    → any (has_source_tx (to_lower_case input.source_tx_hash)) s.intents ≡ false
    → (after : Ledger) × (create_intent now id input (alone s)
        ≡ (ok (record { intent = new_intent now id input; created = true }), alone after))
      × (create_intent later id' again (alone after)
          ≡ (ok (record { intent = new_intent now id input; created = false }), alone after))
create_twice now later id id' input again s same free =
    let after = record s { intents = s.intents ++ new_intent now id input ∷ [] } in
    (
      after,
      create_new now id input s free,
      create_existing later id' again after (new_intent now id input) (
          rw same (
            find-append_new _ s.intents (new_intent now id input) free
              (unfold new_intent in text_eq_refl (to_lower_case input.source_tx_hash)))),
    )

insert_intent-OneIntentPerBurn :
    (x : Intent) (s : Ledger)
    → OneIntentPerBurn s.intents
    → OneIntentPerBurn (insert_intent x s).1.intents
unfolding insert_intent
insert_intent-OneIntentPerBurn x s h =
    elim (Bool-cases (any (has_source_tx x.source_tx_hash) s.intents)) [
      | inl taken ↦ rw taken h
      | inr free ↦ rw free (append-OneIntentPerBurn s.intents x free h)
    ]
