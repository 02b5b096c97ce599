-- ===== src/Database/Growth.antt =====
-- How the ledger may change, by our code or by others: an intent keeps its identity and moves
-- along the status graph, a deposit keeps its identity and leaves `submitted` at most once.
use benzo_main.Prelude.{◌≡◌, refl, ◌∙◌, to_lower_case, List, [], ◌∷◌, All}
use benzo_main.Service.Maintains.{Calm}
use benzo_main.Table.Evolution.{Evolves, IsEvolution, Evolves-refl, Evolves-trans}
use benzo_main.Database.{Intent, Deposit, DepositStatus, submitted, Ledger}
use benzo_main.Onramp.Status.Reachable.{Reaches, here, Reaches-trans}

pub record Advances (x y : Intent) : Type 0 where
  pub same_id : x.id ≡ y.id
  pub same_source_tx : x.source_tx_hash ≡ y.source_tx_hash
  pub same_source_domain : x.source_domain ≡ y.source_domain
  pub same_org : x.org_id ≡ y.org_id
  pub same_token : x.dest_token ≡ y.dest_token
  pub advanced : Reaches x.status y.status

-- Hashes are stored in lower case.
abbrev pub IsNewIntent : Intent → Type 0
IsNewIntent x = to_lower_case x.source_tx_hash ≡ x.source_tx_hash

-- A deposit that is confirmed or failed stays so.
pub data Settles (a : DepositStatus) : DepositStatus → Type 0 where
  stays : Settles a a
  settles : {b : DepositStatus} → a ≡ submitted → Settles a b

Settles-trans : {a b c : DepositStatus} → Settles a b → Settles b c → Settles a c
Settles-trans s stays = s
Settles-trans stays (settles e) = settles e
Settles-trans (settles d) (settles e) = settles d

pub record DepositMoves (x y : Deposit) : Type 0 where
  pub same_id : x.id ≡ y.id
  pub same_org : x.org_id ≡ y.org_id
  pub same_amount : x.amount ≡ y.amount
  pub same_key : x.idempotency_key ≡ y.idempotency_key
  pub settled : Settles x.status y.status

abbrev pub AnyDeposit : Deposit → Type 0
AnyDeposit x = Unit

pub intent_laws : IsEvolution Advances IsNewIntent
intent_laws = record {
  moves_refl = λ x. record {
    same_id = refl;
    same_source_tx = refl;
    same_source_domain = refl;
    same_org = refl;
    same_token = refl;
    advanced = here;
  };
  moves_trans = λ x y z d e. record {
    same_id = d.same_id ∙ e.same_id;
    same_source_tx = d.same_source_tx ∙ e.same_source_tx;
    same_source_domain = d.same_source_domain ∙ e.same_source_domain;
    same_org = d.same_org ∙ e.same_org;
    same_token = d.same_token ∙ e.same_token;
    advanced = Reaches-trans d.advanced e.advanced;
  };
  new_moves = λ x y h e. cc (h, e.same_source_tx);
}

pub deposit_laws : IsEvolution DepositMoves AnyDeposit
deposit_laws = record {
  moves_refl = λ x. record {
    same_id = refl;
    same_org = refl;
    same_amount = refl;
    same_key = refl;
    settled = stays;
  };
  moves_trans = λ x y z d e. record {
    same_id = d.same_id ∙ e.same_id;
    same_org = d.same_org ∙ e.same_org;
    same_amount = d.same_amount ∙ e.same_amount;
    same_key = d.same_key ∙ e.same_key;
    settled = Settles-trans d.settled e.settled;
  };
  new_moves = λ x y h e. tt;
}

pub record Grows (before after : Ledger) : Type 0 where
  pub intents : Evolves Advances IsNewIntent before.intents after.intents
  pub deposits : Evolves DepositMoves AnyDeposit before.deposits after.deposits

pub Grows-refl : (s : Ledger) → Grows s s
Grows-refl s = record {
  intents = Evolves-refl intent_laws s.intents;
  deposits = Evolves-refl deposit_laws s.deposits;
}

pub Grows-trans : (r s t : Ledger) → Grows r s → Grows s t → Grows r t
Grows-trans r s t d e = record {
  intents = Evolves-trans intent_laws r.intents s.intents t.intents d.intents e.intents;
  deposits = Evolves-trans deposit_laws r.deposits s.deposits t.deposits d.deposits e.deposits;
}

-- The others write as the ledger may change.
abbrev pub AllGrow : List (Ledger → Ledger) → Type 0
AllGrow fs = All (λ f. (s : Ledger) → Grows s (f s)) fs

pub AllGrow-Calm : (r : Ledger) (fs : List (Ledger → Ledger)) → AllGrow fs → Calm (Grows r) fs
AllGrow-Calm r [] h = tt
AllGrow-Calm r (f ∷ fs) h = (λ s g. Grows-trans r s (f s) g (h.0 s), AllGrow-Calm r fs h.1)
