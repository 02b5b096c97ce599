-- ===== src/Service.antt =====
-- The asynchronous code of services/api as actions on a shared state. Every database statement is
-- atomic; between two statements other workers and request handlers may run, so a `World` holds
-- the state together with the writes that others will make, one before each statement of ours.
pub mod Maintains
pub mod Leads
use benzo_main.Prelude.{
  ◌≡◌, ◌⊎◌, inl, inr, refl, ap, String, Bool, true, false, Option, none, some, List, [], ◌∷◌,
}

-- What the code throws: `Error(message)`, and the subclasses that a handler tells apart.
pub data Exn : Type 0 where
  error : String → Exn
  recipient_not_registered : Exn
  relayer_unavailable : String → Exn
  settle_retryable : String → Exn

pub data Result {ℓ} (A : Type ℓ) : Type ℓ where
  ok : A → Result A
  err : Exn → Result A

-- A synchronous call that may throw, and what follows it.
unfoldable pub bind_result {ℓ κ} : {A : Type ℓ} {B : Type κ} → Result A → (A → Result B) → Result B
bind_result (ok a) k = k a
bind_result (err e) k = err e

pub bind_result-eq-ok {ℓ κ} :
    {A : Type ℓ} {B : Type κ} (m : Result A) (k : A → Result B) {b : B}
    → bind_result m k ≡ ok b
    → (a : A) × (m ≡ ok a) × (k a ≡ ok b)
unfolding bind_result
bind_result-eq-ok (ok a) k h = (a, refl, h)
bind_result-eq-ok (err e) k h = cc

pub ok-injective {ℓ} : {A : Type ℓ} {a b : A} → ok a ≡ ok b → a ≡ b
ok-injective h = cc

-- `error.message`
abbrev pub message : Exn → String
message (error m) = m
message recipient_not_registered = "recipient_not_eerc_registered"
message (relayer_unavailable m) = m
message (settle_retryable m) = m

pub record World (S : Type 0) : Type 0 where
  pub state : S
  pub others : List (S → S)

-- A world in which nobody else writes.
abbrev pub alone : {S : Type 0} → S → World S
alone s = record { state = s; others = [] }

abbrev pub Action : Type 0 → Type 0 → Type 0
Action S A = World S → Result A × World S

-- The next write of the others takes place.
abbrev pub arrive : {S : Type 0} → S → List (S → S) → World S
arrive s [] = record { state = s; others = [] }
arrive s (f ∷ fs) = record { state = f s; others = fs }

module _ {S A : Type 0} where
  abbrev pub pure : A → Action S A
  pure a w = (ok a, w)

  abbrev pub throw : Exn → Action S A
  throw e w = (err e, w)

  -- A computation, or a call of a service outside, that may throw.
  abbrev pub lift : Result A → Action S A
  lift r w = (r, w)

  abbrev written : World S → Result A × S → Result A × World S
  written w (r, s) = (r, record w { state = s })

  -- One statement, or one transaction: a throw inside undoes what it wrote.
  unfoldable pub atomic : (S → Result A × S) → Action S A
  atomic f w = let w' = arrive w.state w.others in written w' (f w'.state)

  abbrev rolled_back : S → Result A × S → Result A × S
  rolled_back s (ok a, s') = (ok a, s')
  rolled_back s (err e, s') = (err e, s)

  -- `db.transaction(body)`, run in isolation: the body meets no write of others.
  abbrev settled : Result A × World S → Result A × S
  settled (r, w) = (r, w.state)

  abbrev pub run_alone : Action S A → S → Result A × S
  run_alone body s = rolled_back s (settled (body (record { state = s; others = [] })))

  unfoldable pub transaction : Action S A → Action S A
  unfolding atomic
  transaction body = atomic (run_alone body)

module _ {S A B : Type 0} where
  abbrev continue : Result A → (A → Action S B) → Action S B
  continue (ok a) k w = k a w
  continue (err e) k w = (err e, w)

  infixl 5 ◌>>=◌ ◌>>◌
  unfoldable pub ◌>>=◌ : Action S A → (A → Action S B) → Action S B
  ◌>>=◌ m k w = let (r, w') = m w in continue r k w'

  abbrev pub ◌>>◌ : Action S A → Action S B → Action S B
  m >> k = m >>= λ _. k

  -- `try { … } catch (error) { … }`, where what follows the block is `k`.
  abbrev handled : Result A → (A → Action S B) → (Exn → Action S B) → Action S B
  handled (ok a) k h w = k a w
  handled (err e) k h w = h e w

  unfoldable pub try_catch : Action S A → (A → Action S B) → (Exn → Action S B) → Action S B
  try_catch m k h w = let (r, w') = m w in handled r k h w'

-- What led to a result.
module _ {S A B : Type 0} where
  continue-eq-ok :
      (r : Result A) (k : A → Action S B) {b : B} (w v : World S)
      → continue r k w ≡ (ok b, v)
      → (a : A) × (r ≡ ok a) × (k a w ≡ (ok b, v))
  continue-eq-ok (ok a) k w v h = (a, refl, h)
  continue-eq-ok (err e) k w v h = cc (ap (λ (p : Result B × World S). p.0) h)

  pub >>=-eq-ok :
      (m : Action S A) (k : A → Action S B) {b : B} (w v : World S)
      → (m >>= k) w ≡ (ok b, v)
      → (a : A) × (u : World S) × (m w ≡ (ok a, u)) × (k a u ≡ (ok b, v))
  unfolding ◌>>=◌
  >>=-eq-ok m k w v h =
      let (a, done, rest) = continue-eq-ok (m w).0 k (m w).1 v h in (a, (m w).1, cc done, rest)

  -- An action that succeeds hands on its result.
  pub >>=-step :
      (m : Action S A) (k : A → Action S B) (w : World S) {a : A} {w' : World S}
      → m w ≡ (ok a, w')
      → (m >>= k) w ≡ k a w'
  unfolding ◌>>=◌
  >>=-step m k w h = rw h

  -- An action that throws ends there.
  pub >>=-stop :
      (m : Action S A) (k : A → Action S B) (w : World S) {e : Exn} {w' : World S}
      → m w ≡ (err e, w')
      → (m >>= k) w ≡ (err e, w')
  unfolding ◌>>=◌
  >>=-stop m k w h = rw h

pub Result-cases {ℓ} :
    {A : Type ℓ} (r : Result A) → ((a : A) × (r ≡ ok a)) ⊎ ((e : Exn) × (r ≡ err e))
Result-cases (ok a) = inl (a, refl)
Result-cases (err e) = inr (e, refl)
