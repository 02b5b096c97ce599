-- ===== src/Onramp/Intents/Transition.antt =====
-- What `transitionIntent` returns and writes, in every case.
use benzo_main.Prelude.{
  ℕ, ◌≡◌, ◌∙◌, ap, subst, ◌≢◌, refl, String, true, false, Option, none, some, [], ◌∷◌, arith, find,
  find_holds, any, inl, inr, eq_iff, if◌then◌else◌, Bool-cases,
}
use benzo_main.Service.{Exn, ok, err, error, atomic, ◌>>=◌, alone}
use benzo_main.Table.{update_where}
use benzo_main.Table.Rows.{
  find-update_where, find-update_where-none, updated_row-find, update_where_unselected,
  updated_row_unselected,
}
use benzo_main.Onramp.Intents.Patched.{moved, Patched, moved-Patched}
use benzo_main.Database.{OnrampStatus, Intent, Ledger}
use benzo_main.Onramp.Status.{can_transition, assert_transition, illegal_transition}
use benzo_main.Onramp.Status.Reachable.{assert_transition_refuses}
use benzo_main.Onramp.Intents.{
  IntentPatch, Recipient, set_recipient, apply_patch, with_status, has_id, has_id_and_status,
  update_intents, transition_intent,
}

set_recipient-id : (r : Option Recipient) (x : Intent) → (set_recipient r x).id ≡ x.id
set_recipient-id none x = refl
set_recipient-id (some r) x = refl

pub id-apply_patch : (now : ℕ) (p : IntentPatch) (x : Intent) → (apply_patch now p x).id ≡ x.id
unfolding apply_patch
id-apply_patch now p x = set_recipient-id p.recipient _

pub id-moved :
    (now : ℕ) (to : OnrampStatus) (p : IntentPatch) (x : Intent) → (moved now to p x).id ≡ x.id
unfolding with_status
id-moved now to p x = id-apply_patch now p x

has_id-moved :
    (j : String) (now : ℕ) (to : OnrampStatus) (p : IntentPatch) (x : Intent)
    → has_id j (moved now to p x) ≡ has_id j x
has_id-moved j now to p x = rw (id-moved now to p x)

module _ (now : ℕ) (id : String) (to : OnrampStatus) (p : IntentPatch) (s : Ledger) where
  -- The ledger after a transition of the row `x`.
  abbrev pub after_move : Intent → Ledger
  after_move x = record s {
    intents = update_where (has_id_and_status id x.status) (moved now to p) s.intents;
  }

  transition_missing :
      find (has_id id) s.intents ≡ none
      → transition_intent now id to p (alone s) ≡ (err (error "onramp_intent_not_found"), alone s)
  unfolding transition_intent ◌>>=◌ atomic
  transition_missing h = rw h

  transition_refused :
      (x : Intent) (e : Exn)
      → find (has_id id) s.intents ≡ some x
      → assert_transition x.status to ≡ err e
      → transition_intent now id to p (alone s) ≡ (err e, alone s)
  unfolding transition_intent ◌>>=◌ atomic
  transition_refused x e h refused = rw h (rw refused)

  selected :
      (x : Intent) → find (has_id id) s.intents ≡ some x → has_id_and_status id x.status x ≡ true
  selected x h = ground (arith, find_holds (has_id id) s.intents x h)

  transition_moves :
      (x : Intent)
      → find (has_id id) s.intents ≡ some x
      → can_transition x.status to ≡ true
      → transition_intent now id to p (alone s) ≡ (ok (moved now to p x), alone (after_move x))
  unfolding transition_intent ◌>>=◌ atomic assert_transition update_intents
  transition_moves x h allowed = rw h (
      rw allowed (
        rw (
          updated_row-find (has_id id) (has_id_and_status id x.status) (moved now to p) s.intents x
            (λ y on. ground (arith, on)) h (selected x h))))

  same_row :
      (x : Intent)
      → find (has_id id) s.intents ≡ some x
      → find (has_id id) (after_move x).intents ≡ some (moved now to p x)
  same_row x h =
      rw
        (find-update_where (has_id id) (has_id_and_status id x.status) (moved now to p) s.intents x
          (λ y. has_id-moved id now to p y) h)
        (rw (selected x h))

  other_row :
      (x : Intent) (j : String) (found : Option Intent)
      → j ≢ id
      → find (has_id j) s.intents ≡ found
      → find (has_id j) (after_move x).intents ≡ found
  other_row x j none ne h =
      find-update_where-none (has_id j) (has_id_and_status id x.status) (moved now to p) s.intents
        (λ y. has_id-moved j now to p y) h
  other_row x j (some y) ne h =
      rw
        (find-update_where (has_id j) (has_id_and_status id x.status) (moved now to p) s.intents y
          (λ z. has_id-moved j now to p z) h)
        (ground (arith, find_holds (has_id j) s.intents y h, eq_iff y.id j, eq_iff y.id id))

-- With nobody else writing, a transition that the graph allows returns the row in its new status, at
-- the given time, with the columns of the patch and otherwise its own; it stores that row under its
-- id, and leaves the row of any other id, the users and the deposits as they were.
pub transition_stores :
    (now : ℕ) (id j : String) (to : OnrampStatus) (p : IntentPatch) (s : Ledger) (x : Intent)
    → find (has_id id) s.intents ≡ some x
    → can_transition x.status to ≡ true
    → j ≢ id
    → (after : Ledger) × (y : Intent) × (transition_intent now id to p (alone s)
        ≡ (ok y, alone after))
      × Patched now to p x y
      × (find (has_id id) after.intents ≡ some y)
      × (find (has_id j) after.intents ≡ find (has_id j) s.intents)
      × (after.users ≡ s.users)
      × (after.deposits ≡ s.deposits)
transition_stores now id j to p s x h allowed ne = (
  after_move now id to p s x,
  moved now to p x,
  transition_moves now id to p s x h allowed,
  moved-Patched now to p x,
  same_row now id to p s x h,
  other_row now id to p s x j (find (has_id j) s.intents) ne refl,
  refl,
  refl,
)

-- Why a transition of what is stored under an id must not happen.
unfoldable pub refusal : Option Intent → OnrampStatus → Option Exn
refusal none to = some (error "onramp_intent_not_found")
refusal (some x) to =
    if can_transition x.status to then none else some (illegal_transition x.status to)

refused_as :
    (now : ℕ) (id : String) (to : OnrampStatus) (p : IntentPatch) (s : Ledger) (e : Exn)
    (found : Option Intent)
    → find (has_id id) s.intents ≡ found
    → refusal found to ≡ some e
    → transition_intent now id to p (alone s) ≡ (err e, alone s)
unfolding refusal
refused_as now id to p s e none h why =
    let same : error "onramp_intent_not_found" ≡ e = cc in
    subst (λ e. transition_intent now id to p (alone s) ≡ (err e, alone s)) same
      (transition_missing now id to p s h)
refused_as now id to p s e (some x) h why = elim (Bool-cases (can_transition x.status to)) [
  | inl allowed ↦ absurd (cc (rw allowed at why))
  | inr refused ↦
      (let same : illegal_transition x.status to ≡ e = cc (rw refused at why) in
        transition_refused now id to p s x e h
          (assert_transition_refuses x.status to refused ∙ ap (λ e. err e) same))
]

-- With nobody else writing, a transition of an id that is not there throws
-- `onramp_intent_not_found`, and one that the graph does not allow throws the illegal transition;
-- neither writes anything.
pub transition_rejects :
    (now : ℕ) (id : String) (to : OnrampStatus) (p : IntentPatch) (s : Ledger) (e : Exn)
    → refusal (find (has_id id) s.intents) to ≡ some e
    → transition_intent now id to p (alone s) ≡ (err e, alone s)
transition_rejects now id to p s e why =
    refused_as now id to p s e (find (has_id id) s.intents) refl why

-- A writer that moves the intent to another status between the read and the compare-and-set makes
-- the transition throw `onramp_intent_transition_conflict`, and the writer's ledger is kept.
pub transition_conflict :
    (now : ℕ) (id : String) (to : OnrampStatus) (p : IntentPatch) (s : Ledger)
    (other : Ledger → Ledger) (x : Intent)
    → find (has_id id) s.intents ≡ some x
    → can_transition x.status to ≡ true
    → any (has_id_and_status id x.status) (other s).intents ≡ false
    → transition_intent now id to p (record { state = s; others = (λ r. r) ∷ other ∷ [] })
      ≡ (err (error "onramp_intent_transition_conflict"), alone (other s))
unfolding transition_intent ◌>>=◌ atomic assert_transition update_intents
transition_conflict now id to p s other x h allowed gone = rw h (
    rw allowed (
      rw
        (updated_row_unselected (has_id_and_status id x.status) (moved now to p) (other s).intents
          gone)
        (rw (
          update_where_unselected (has_id_and_status id x.status) (moved now to p) (other s).intents
            gone))))
