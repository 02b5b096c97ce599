-- ===== src/Onramp/Intents/Patched.antt =====
-- The columns of an intent after a transition of onramp/service.ts, one by one.
use benzo_main.Prelude.{ℕ, ◌≡◌, refl, Option, none, some, or_else}
use benzo_main.Database.{OnrampStatus, Intent}
use benzo_main.Onramp.Intents.{
  IntentPatch, Recipient, overwrite, set_recipient, apply_patch, with_status,
}

-- The row that a transition leaves.
abbrev pub moved : ℕ → OnrampStatus → IntentPatch → Intent → Intent
moved now to p x = with_status to (apply_patch now p x)

-- The value of a column after a patch: the patch's, or the old one if the patch has no such key.
abbrev pub Sets : {A : Type 0} → Option A → A → A → Type 0
Sets none old new = new ≡ old
Sets (some a) old new = new ≡ a

-- The same of a column that may be null, which the patch does not make null.
abbrev pub SetsSome : {A : Type 0} → Option A → Option A → Option A → Type 0
SetsSome none old new = new ≡ old
SetsSome (some a) old new = new ≡ some a

abbrev pub Addressed : Option Recipient → Intent → Intent → Type 0
Addressed none x y =
    (y.user_address ≡ x.user_address)
    × (y.user_id ≡ x.user_id)
    × (y.user_pub_key_x ≡ x.user_pub_key_x)
    × (y.user_pub_key_y ≡ x.user_pub_key_y)
Addressed (some r) x y =
    (y.user_address ≡ r.user_address)
    × (y.user_id ≡ r.user_id)
    × (y.user_pub_key_x ≡ r.user_pub_key_x)
    × (y.user_pub_key_y ≡ r.user_pub_key_y)

-- `y` is the row `x` in the status `to`, patched at the time `now`.
pub record Patched (now : ℕ) (to : OnrampStatus) (p : IntentPatch) (x y : Intent) : Type 0 where
  pub status : y.status ≡ to
  pub updated_at : y.updated_at ≡ now
  pub id : y.id ≡ x.id
  pub org_id : y.org_id ≡ x.org_id
  pub source_domain : y.source_domain ≡ x.source_domain
  pub source_chain_id : y.source_chain_id ≡ x.source_chain_id
  pub source_tx_hash : y.source_tx_hash ≡ x.source_tx_hash
  pub dest_token : y.dest_token ≡ x.dest_token
  pub amount : SetsSome p.amount x.amount y.amount
  pub cctp_nonce : Sets p.cctp_nonce x.cctp_nonce y.cctp_nonce
  pub message_hash : SetsSome p.message_hash x.message_hash y.message_hash
  pub settle_tx_hash : Sets p.settle_tx_hash x.settle_tx_hash y.settle_tx_hash
  pub error : Sets p.error x.error y.error
  pub recipient : Addressed p.recipient x y

-- The columns that a recipient does not set.
record Kept (x y : Intent) : Type 0 where
  updated_at : y.updated_at ≡ x.updated_at
  id : y.id ≡ x.id
  org_id : y.org_id ≡ x.org_id
  source_domain : y.source_domain ≡ x.source_domain
  source_chain_id : y.source_chain_id ≡ x.source_chain_id
  source_tx_hash : y.source_tx_hash ≡ x.source_tx_hash
  dest_token : y.dest_token ≡ x.dest_token
  amount : y.amount ≡ x.amount
  cctp_nonce : y.cctp_nonce ≡ x.cctp_nonce
  message_hash : y.message_hash ≡ x.message_hash
  settle_tx_hash : y.settle_tx_hash ≡ x.settle_tx_hash
  error : y.error ≡ x.error

Kept-refl : (x : Intent) → Kept x x
Kept-refl x = record {
  updated_at = refl;
  id = refl;
  org_id = refl;
  source_domain = refl;
  source_chain_id = refl;
  source_tx_hash = refl;
  dest_token = refl;
  amount = refl;
  cctp_nonce = refl;
  message_hash = refl;
  settle_tx_hash = refl;
  error = refl;
}

set_recipient-Kept : (r : Option Recipient) (x : Intent) → Kept x (set_recipient r x)
set_recipient-Kept none x = Kept-refl x
set_recipient-Kept (some r) x = record {
  updated_at = refl;
  id = refl;
  org_id = refl;
  source_domain = refl;
  source_chain_id = refl;
  source_tx_hash = refl;
  dest_token = refl;
  amount = refl;
  cctp_nonce = refl;
  message_hash = refl;
  settle_tx_hash = refl;
  error = refl;
}

module _ {A : Type 0} where
  or_else-Sets : (p : Option A) (old new : A) → new ≡ or_else p old → Sets p old new
  or_else-Sets none old new h = h
  or_else-Sets (some a) old new h = h

  overwrite-SetsSome :
      (p : Option A) (old new : Option A) → new ≡ overwrite p old → SetsSome p old new
  overwrite-SetsSome none old new h = h
  overwrite-SetsSome (some a) old new h = h

-- The row after the patch's columns other than the recipient's.
abbrev patched : ℕ → IntentPatch → Intent → Intent
patched now p row = record row {
  amount = overwrite p.amount row.amount;
  cctp_nonce = or_else p.cctp_nonce row.cctp_nonce;
  message_hash = overwrite p.message_hash row.message_hash;
  settle_tx_hash = or_else p.settle_tx_hash row.settle_tx_hash;
  error = or_else p.error row.error;
  updated_at = now;
}

patched-Addressed :
    (now : ℕ) (p : IntentPatch) (x : Intent) (r : Option Recipient)
    → Addressed r x (set_recipient r (patched now p x))
patched-Addressed now p x none = (refl, refl, refl, refl)
patched-Addressed now p x (some r) = (refl, refl, refl, refl)

status-Addressed :
    (to : OnrampStatus) (r : Option Recipient) (x y : Intent)
    → Addressed r x y
    → Addressed r x (record y { status = to })
status-Addressed to none x y h = h
status-Addressed to (some r) x y h = h

pub moved-Patched :
    (now : ℕ) (to : OnrampStatus) (p : IntentPatch) (x : Intent)
    → Patched now to p x (moved now to p x)
unfolding apply_patch with_status
moved-Patched now to p x =
    let k = set_recipient-Kept p.recipient (patched now p x) in
    record {
      status = refl;
      updated_at = k.updated_at;
      id = k.id;
      org_id = k.org_id;
      source_domain = k.source_domain;
      source_chain_id = k.source_chain_id;
      source_tx_hash = k.source_tx_hash;
      dest_token = k.dest_token;
      amount = overwrite-SetsSome p.amount x.amount _ k.amount;
      cctp_nonce = or_else-Sets p.cctp_nonce x.cctp_nonce _ k.cctp_nonce;
      message_hash = overwrite-SetsSome p.message_hash x.message_hash _ k.message_hash;
      settle_tx_hash = or_else-Sets p.settle_tx_hash x.settle_tx_hash _ k.settle_tx_hash;
      error = or_else-Sets p.error x.error _ k.error;
      recipient = status-Addressed to p.recipient x _ (patched-Addressed now p x p.recipient);
    }
