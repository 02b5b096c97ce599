-- ===== src/Onramp/Intents.antt =====
-- The persistence of onramp intents, onramp/service.ts: `createIntent`, the lookups,
-- `transitionIntent`, and `patchIntent` of onramp/poller.ts. A `Partial` row is a record of
-- options: `none` is an absent key, and a column that may be null is an option again.
pub mod Growth
pub mod Patched
pub mod Transition
pub mod Create
use benzo_main.Prelude.{
  ℕ, String, Text, Bool, true, false, Option, none, some, List, [], ◌∷◌, ◌++◌, ◌&&◌, str_eq,
  text_eq, or_else, find, any, select, take, to_lower_case, if◌then◌else◌,
}
use benzo_main.Service.{Action, Result, ok, err, error, pure, throw, lift, atomic, ◌>>=◌, ◌>>◌}
use benzo_main.Table.{update_where, updated_row, newest_first}
use benzo_main.Database.{OnrampStatus, initiated, DestToken, Intent, Ledger}
use benzo_main.Onramp.Status.{status_eq, assert_transition}

pub record CreateIntentInput : Type 0 where
  pub user_id : String
  pub user_address : Text
  pub source_domain : ℕ
  pub source_chain_id : ℕ
  pub source_tx_hash : Text
  pub dest_token : DestToken
  pub user_pub_key_x : Text
  pub user_pub_key_y : Text
  pub amount : Option Text
  pub org_id : Option String

pub record CreateIntentResult : Type 0 where
  pub intent : Intent
  pub created : Bool

-- The columns that `reassociateIntent` alone sets.
pub record Recipient : Type 0 where
  pub user_address : Text
  pub user_id : String
  pub user_pub_key_x : Text
  pub user_pub_key_y : Text

-- `TransitionPatch`, and `IntentPatch` with its recipient.
pub record IntentPatch : Type 0 where
  pub amount : Option Text
  pub cctp_nonce : Option (Option Text)
  pub message_hash : Option Text
  pub settle_tx_hash : Option (Option Text)
  pub error : Option (Option String)
  pub recipient : Option Recipient

-- `{}`
abbrev pub no_patch : IntentPatch
no_patch = record {
  amount = none;
  cctp_nonce = none;
  message_hash = none;
  settle_tx_hash = none;
  error = none;
  recipient = none;
}

-- A column that is set to a value, or left.
abbrev pub overwrite : {A : Type 0} → Option A → Option A → Option A
overwrite none old = old
overwrite (some a) old = some a

abbrev pub set_recipient : Option Recipient → Intent → Intent
set_recipient none row = row
set_recipient (some r) row = record row {
  user_address = r.user_address;
  user_id = r.user_id;
  user_pub_key_x = r.user_pub_key_x;
  user_pub_key_y = r.user_pub_key_y;
}

-- `.set({ ...patch, updatedAt: new Date() })`
unfoldable pub apply_patch : ℕ → IntentPatch → Intent → Intent
apply_patch now p row = set_recipient p.recipient (record row {
  amount = overwrite p.amount row.amount;
  cctp_nonce = or_else p.cctp_nonce row.cctp_nonce;
  message_hash = overwrite p.message_hash row.message_hash;
  settle_tx_hash = or_else p.settle_tx_hash row.settle_tx_hash;
  error = or_else p.error row.error;
  updated_at = now;
})

unfoldable pub with_status : OnrampStatus → Intent → Intent
with_status to row = record row { status = to }

abbrev pub has_id : String → Intent → Bool
has_id id row = str_eq row.id id

abbrev pub has_source_tx : Text → Intent → Bool
has_source_tx hash row = text_eq row.source_tx_hash hash

-- The compare-and-set of `transitionIntent`.
abbrev pub has_id_and_status : String → OnrampStatus → Intent → Bool
has_id_and_status id from row = str_eq row.id id && status_eq row.status from

unfoldable pub get_intent_by_id : String → Action Ledger (Option Intent)
get_intent_by_id id = atomic λ db. (ok (find (has_id id) db.intents), db)

unfoldable pub get_intent_by_source_tx_hash : Text → Action Ledger (Option Intent)
get_intent_by_source_tx_hash hash =
    atomic λ db. (ok (find (has_source_tx (to_lower_case hash)) db.intents), db)

unfoldable pub list_intents_by_address : Text → ℕ → Action Ledger (List Intent)
list_intents_by_address address limit = atomic λ db. (
  ok (
      take limit (
        newest_first (λ (row : Intent). row.updated_at)
          (select (λ (row : Intent). text_eq row.user_address (to_lower_case address))
            db.intents))),
  db,
)

-- The row that `createIntent` inserts; its id is given by the database.
unfoldable pub new_intent : ℕ → String → CreateIntentInput → Intent
new_intent now id input = record {
  id = id;
  user_id = input.user_id;
  user_address = to_lower_case input.user_address;
  org_id = input.org_id;
  source_domain = input.source_domain;
  source_chain_id = input.source_chain_id;
  source_tx_hash = to_lower_case input.source_tx_hash;
  dest_token = input.dest_token;
  amount = input.amount;
  user_pub_key_x = input.user_pub_key_x;
  user_pub_key_y = input.user_pub_key_y;
  cctp_nonce = none;
  message_hash = none;
  status = initiated;
  settle_tx_hash = none;
  error = none;
  updated_at = now;
}

-- The insert with its conflict target and its `returning`.
unfoldable pub insert_intent : Intent → Ledger → Result (Option Intent) × Ledger
insert_intent row db =
    if any (has_source_tx row.source_tx_hash) db.intents
    then (ok none, db)
    else (ok (some row), record db { intents = db.intents ++ row ∷ [] })

existing_or_throw : Option Intent → Action Ledger CreateIntentResult
existing_or_throw none = throw (error "onramp_intent_lookup_failed")
existing_or_throw (some row) = pure (record { intent = row; created = false })

created_or_existing : Text → Option Intent → Action Ledger CreateIntentResult
unfolding existing_or_throw get_intent_by_source_tx_hash
created_or_existing hash (some row) = pure (record { intent = row; created = true })
created_or_existing hash none = do
  existing ← get_intent_by_source_tx_hash hash
  existing_or_throw existing

unfoldable pub create_intent : ℕ → String → CreateIntentInput → Action Ledger CreateIntentResult
unfolding created_or_existing
create_intent now id input = do
  inserted ← atomic (insert_intent (new_intent now id input))
  created_or_existing (to_lower_case input.source_tx_hash) inserted

or_throw : String → Option Intent → Action Ledger Intent
or_throw message none = throw (error message)
or_throw message (some row) = pure row

-- `update(onrampIntents).set(f).where(p).returning()`
unfoldable pub update_intents :
    (Intent → Bool) → (Intent → Intent) → Ledger → Result (Option Intent) × Ledger
update_intents p f db =
    (ok (updated_row p f db.intents), record db { intents = update_where p f db.intents })

transition_from : ℕ → String → OnrampStatus → IntentPatch → Option Intent → Action Ledger Intent
unfolding or_throw
transition_from now id to patch none = throw (error "onramp_intent_not_found")
transition_from now id to patch (some current) = do
  lift (assert_transition current.status to)
  updated ← atomic (
      update_intents (has_id_and_status id current.status)
        (λ row. with_status to (apply_patch now patch row)))
  or_throw "onramp_intent_transition_conflict" updated

unfoldable pub transition_intent : ℕ → String → OnrampStatus → IntentPatch → Action Ledger Intent
unfolding transition_from get_intent_by_id
transition_intent now id to patch = do
  current ← get_intent_by_id id
  transition_from now id to patch current

-- `patchIntent` writes no status.
unfoldable pub patch_intent : ℕ → String → IntentPatch → Action Ledger Intent
unfolding or_throw
patch_intent now id patch = do
  updated ← atomic (update_intents (has_id id) (apply_patch now patch))
  or_throw "onramp_intent_not_found" updated
