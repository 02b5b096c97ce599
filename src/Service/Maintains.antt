-- ===== src/Service/Maintains.antt =====
-- Invariants of actions, whatever the others write in between, one rule for each way to build an
-- action.
use benzo_main.Prelude.{◌≡◌, refl, Bool, true, false, List, [], ◌∷◌, All, if◌then◌else◌}
use benzo_main.Service.{
  Exn, Result, ok, err, World, Action, arrive, pure, throw, lift, atomic, transaction, settled,
  run_alone, rolled_back, continue, handled, ◌>>=◌, try_catch,
}

-- The others maintain `I`.
abbrev pub Calm : {S : Type 0} → (S → Type 0) → List (S → S) → Type 0
Calm {S} I fs = All (λ f. (s : S) → I s → I (f s)) fs

-- The state satisfies `I`, and the others will keep it.
abbrev pub Held : {S : Type 0} → (S → Type 0) → World S → Type 0
Held I w = I w.state × Calm I w.others

-- Whether it returns or throws, `m` leaves a state that satisfies `I`.
pub record Maintains {S A : Type 0} (I : S → Type 0) (m : Action S A) : Type 0 where
  pub from : (w : World S) → Held I w → Held I (m w).1

module _ {S : Type 0} (I : S → Type 0) where
  arrive-Held : (s : S) (fs : List (S → S)) → I s → Calm I fs → Held I (arrive s fs)
  arrive-Held s [] h c = (h, tt)
  arrive-Held s (f ∷ fs) h c = (c.0 s h, c.1)

  rolled_back-maintains :
      {A : Type 0} (s : S) (p : Result A × S) → I s → I p.1 → I (rolled_back s p).1
  rolled_back-maintains s (ok a, s') h k = k
  rolled_back-maintains s (err e, s') h k = h

module _ {S A : Type 0} {I : S → Type 0} where
  pub Maintains-pure : (a : A) → Maintains I (pure a)
  Maintains-pure a = record { from = λ w h. h }

  pub Maintains-throw : (e : Exn) → Maintains I (throw {A = A} e)
  Maintains-throw e = record { from = λ w h. h }

  pub Maintains-lift : (r : Result A) → Maintains I (lift r)
  Maintains-lift r = record { from = λ w h. h }

  pub Maintains-atomic :
      (f : S → Result A × S) → ((s : S) → I s → I (f s).1) → Maintains I (atomic f)
  unfolding atomic
  Maintains-atomic f step = record {
    from = λ w h.
        let a = arrive-Held I w.state w.others h.0 h.1 in
        (step (arrive w.state w.others).state a.0, a.1);
  }

  pub Maintains-transaction : (m : Action S A) → Maintains I m → Maintains I (transaction m)
  unfolding transaction
  Maintains-transaction m first = Maintains-atomic (run_alone m) λ s h.
      rolled_back-maintains I s (settled (m (record { state = s; others = [] }))) h
        (first.from (record { state = s; others = [] }) (h, tt)).0

  pub Maintains-if :
      (b : Bool) (m n : Action S A)
      → (b ≡ true → Maintains I m)
      → (b ≡ false → Maintains I n)
      → Maintains I (if b then m else n)
  Maintains-if true m n first second = first refl
  Maintains-if false m n first second = second refl

module _ {S A B : Type 0} {I : S → Type 0} where
  -- The rest may use that `r` did not throw.
  pub Maintains-bind-lift :
      (r : Result A) (k : A → Action S B)
      → ((a : A) → r ≡ ok a → Maintains I (k a))
      → Maintains I (lift r >>= k)
  unfolding ◌>>=◌
  Maintains-bind-lift (ok a) k later = later a refl
  Maintains-bind-lift (err e) k later = Maintains-throw e

  continue-Maintains :
      (r : Result A) (k : A → Action S B)
      → ((a : A) → Maintains I (k a))
      → Maintains I (continue r k)
  continue-Maintains (ok a) k later = later a
  continue-Maintains (err e) k later = Maintains-throw e

  pub Maintains-bind :
      (m : Action S A) (k : A → Action S B)
      → Maintains I m
      → ((a : A) → Maintains I (k a))
      → Maintains I (m >>= k)
  unfolding ◌>>=◌
  Maintains-bind m k first later = record {
    from = λ w h. let (r, w') = m w in (continue-Maintains r k later).from w' (first.from w h);
  }

  handled-Maintains :
      (r : Result A) (k : A → Action S B) (c : Exn → Action S B)
      → ((a : A) → Maintains I (k a))
      → ((e : Exn) → Maintains I (c e))
      → Maintains I (handled r k c)
  handled-Maintains (ok a) k c later caught = later a
  handled-Maintains (err e) k c later caught = caught e

  pub Maintains-try_catch :
      (m : Action S A) (k : A → Action S B) (c : Exn → Action S B)
      → Maintains I m
      → ((a : A) → Maintains I (k a))
      → ((e : Exn) → Maintains I (c e))
      → Maintains I (try_catch m k c)
  unfolding try_catch
  Maintains-try_catch m k c first later caught = record {
    from =
        λ w h. let (r, w') = m w in (handled-Maintains r k c later caught).from w' (first.from w h);
  }

pub ruleset maintains_rules = (
  Maintains-pure, Maintains-throw, Maintains-lift, Maintains-if, Maintains-bind,
  Maintains-try_catch, Maintains-transaction,
)
