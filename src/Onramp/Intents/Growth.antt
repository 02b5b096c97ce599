-- ===== src/Onramp/Intents/Growth.antt =====
-- The operations on intents move the ledger only as `Grows` allows, whatever others write between
-- their statements.
use benzo_main.Prelude.{
  ℕ, String, Text, ◌≡◌, refl, sym, subst, Bool, true, Option, none, some, [], ◌∷◌, arith, any, inl,
  inr, to_lower_case_idem, Bool-cases,
}
use benzo_main.Service.{Result, atomic}
use benzo_main.Service.Maintains.{
  Maintains, Maintains-atomic, Maintains-bind, Maintains-bind-lift, maintains_rules,
}
use benzo_main.Table.Evolution.{Evolves-refl, Evolves-append, Evolves-update_where}
use benzo_main.Database.{OnrampStatus, Intent, Ledger}
use benzo_main.Database.Growth.{
  Advances, IsNewIntent, intent_laws, deposit_laws, Grows, Grows-refl, Grows-trans,
}
use benzo_main.Onramp.Status.{status_eq, can_transition}
use benzo_main.Onramp.Status.Reachable.{Reaches, here, step-Reaches, assert_transition-ok}
use benzo_main.Onramp.Intents.{
  CreateIntentInput, IntentPatch, Recipient, set_recipient, has_source_tx, apply_patch, with_status,
  has_id_and_status, new_intent, insert_intent, update_intents, get_intent_by_id,
  get_intent_by_source_tx_hash, existing_or_throw, created_or_existing, create_intent, or_throw,
  transition_from, transition_intent, patch_intent,
}

-- The columns that a patch may set leave the identity and the status alone.
set_recipient-Advances :
    (r : Option Recipient) (x y : Intent) → Advances x y → Advances x (set_recipient r y)
set_recipient-Advances none x y h = h
set_recipient-Advances (some r) x y h = record {
  same_id = h.same_id;
  same_source_tx = h.same_source_tx;
  same_source_domain = h.same_source_domain;
  same_org = h.same_org;
  same_token = h.same_token;
  advanced = h.advanced;
}

pub apply_patch-Advances :
    (now : ℕ) (p : IntentPatch) (x : Intent) → Advances x (apply_patch now p x)
unfolding apply_patch
apply_patch-Advances now p x = set_recipient-Advances p.recipient x _ (record {
  same_id = refl;
  same_source_tx = refl;
  same_source_domain = refl;
  same_org = refl;
  same_token = refl;
  advanced = here;
})

set_recipient-status : (r : Option Recipient) (y : Intent) → (set_recipient r y).status ≡ y.status
set_recipient-status none y = refl
set_recipient-status (some r) y = refl

pub status-apply_patch :
    (now : ℕ) (p : IntentPatch) (x : Intent) → (apply_patch now p x).status ≡ x.status
unfolding apply_patch
status-apply_patch now p x = set_recipient-status p.recipient _

status_eq-eq : (a b : OnrampStatus) → status_eq a b ≡ true → a ≡ b
status_eq-eq a b h = ground arith

transition-Advances :
    (now : ℕ) (p : IntentPatch) (from to : OnrampStatus) (id : String) (x : Intent)
    → can_transition from to ≡ true
    → has_id_and_status id from x ≡ true
    → Advances x (with_status to (apply_patch now p x))
unfolding with_status
transition-Advances now p from to id x allowed h =
    let patched = apply_patch-Advances now p x in
    record {
      same_id = patched.same_id;
      same_source_tx = patched.same_source_tx;
      same_source_domain = patched.same_source_domain;
      same_org = patched.same_org;
      same_token = patched.same_token;
      advanced =
          subst (λ a. Reaches a to) (sym (status_eq-eq x.status from (ground (arith, h))))
            (step-Reaches allowed);
    }

update_intents-Grows :
    (p : Intent → Bool) (f : Intent → Intent) (s : Ledger)
    → ((x : Intent) → p x ≡ true → Advances x (f x))
    → Grows s (update_intents p f s).1
unfolding update_intents
update_intents-Grows p f s h = record {
  intents = Evolves-update_where intent_laws p f s.intents h;
  deposits = Evolves-refl deposit_laws s.deposits;
}

insert_intent-Grows : (x : Intent) (s : Ledger) → IsNewIntent x → Grows s (insert_intent x s).1
unfolding insert_intent
insert_intent-Grows x s h =
    elim (Bool-cases (any (λ y. has_source_tx x.source_tx_hash y) s.intents)) [
      | inl taken ↦ rw taken (Grows-refl s)
      | inr free ↦ rw free (record {
        intents = Evolves-append intent_laws s.intents (x ∷ []) (h, tt);
        deposits = Evolves-refl deposit_laws s.deposits;
      })
    ]

new_intent-IsNewIntent :
    (now : ℕ) (id : String) (input : CreateIntentInput) → IsNewIntent (new_intent now id input)
unfolding new_intent
new_intent-IsNewIntent now id input = to_lower_case_idem input.source_tx_hash

module _ (origin : Ledger) where
  -- A statement that moves the ledger as it may.
  pub atomic-Maintains :
      {A : Type 0} (f : Ledger → Result A × Ledger)
      → ((s : Ledger) → Grows s (f s).1)
      → Maintains (Grows origin) (atomic f)
  atomic-Maintains f step = Maintains-atomic f λ s h. Grows-trans origin s (f s).1 h (step s)

  or_throw-Maintains : (m : String) (r : Option Intent) → Maintains (Grows origin) (or_throw m r)
  unfolding or_throw
  or_throw-Maintains m none = search maintains_rules
  or_throw-Maintains m (some x) = search maintains_rules

  get_intent_by_id-Maintains : (id : String) → Maintains (Grows origin) (get_intent_by_id id)
  unfolding get_intent_by_id
  get_intent_by_id-Maintains id = atomic-Maintains _ Grows-refl

  get_intent_by_source_tx_hash-Maintains :
      (hash : Text) → Maintains (Grows origin) (get_intent_by_source_tx_hash hash)
  unfolding get_intent_by_source_tx_hash
  get_intent_by_source_tx_hash-Maintains hash = atomic-Maintains _ Grows-refl

  pub patch_intent-Maintains :
      (now : ℕ) (id : String) (p : IntentPatch) → Maintains (Grows origin) (patch_intent now id p)
  unfolding patch_intent
  patch_intent-Maintains now id p =
      Maintains-bind _ _
        (atomic-Maintains _ λ s. update_intents-Grows _ _ s λ x _. apply_patch-Advances now p x)
        (or_throw-Maintains _)

  transition_from-Maintains :
      (now : ℕ) (id : String) (to : OnrampStatus) (p : IntentPatch) (r : Option Intent)
      → Maintains (Grows origin) (transition_from now id to p r)
  unfolding transition_from
  transition_from-Maintains now id to p none = search maintains_rules
  transition_from-Maintains now id to p (some current) = Maintains-bind-lift _ _ λ _ allowed.
      Maintains-bind _ _
        (atomic-Maintains _ λ s. update_intents-Grows _ _ s λ x h.
          transition-Advances now p current.status to id x
            (assert_transition-ok current.status to allowed) h)
        (or_throw-Maintains _)

  pub transition_intent-Maintains :
      (now : ℕ) (id : String) (to : OnrampStatus) (p : IntentPatch)
      → Maintains (Grows origin) (transition_intent now id to p)
  unfolding transition_intent
  transition_intent-Maintains now id to p =
      Maintains-bind _ _ (get_intent_by_id-Maintains id) (transition_from-Maintains now id to p)

  existing_or_throw-Maintains : (r : Option Intent) → Maintains (Grows origin) (existing_or_throw r)
  unfolding existing_or_throw
  existing_or_throw-Maintains none = search maintains_rules
  existing_or_throw-Maintains (some x) = search maintains_rules

  created_or_existing-Maintains :
      (hash : Text) (r : Option Intent) → Maintains (Grows origin) (created_or_existing hash r)
  unfolding created_or_existing
  created_or_existing-Maintains hash (some x) = search maintains_rules
  created_or_existing-Maintains hash none =
      search (maintains_rules, get_intent_by_source_tx_hash-Maintains, existing_or_throw-Maintains)

  pub create_intent-Maintains :
      (now : ℕ) (id : String) (input : CreateIntentInput)
      → Maintains (Grows origin) (create_intent now id input)
  unfolding create_intent
  create_intent-Maintains now id input =
      Maintains-bind _ _
        (atomic-Maintains _ λ s.
          insert_intent-Grows (new_intent now id input) s (new_intent-IsNewIntent now id input))
        (created_or_existing-Maintains _)
