-- ===== src/Service/Leads.antt =====
-- Actions that lead from one stage of an invariant to another. The others keep every stage.
use benzo_main.Prelude.{◌≡◌, refl, Bool, true, false, List, [], ◌∷◌, All, if◌then◌else◌}
use benzo_main.Service.{
  Exn, Result, ok, err, World, Action, arrive, lift, atomic, transaction, settled, run_alone,
  rolled_back, continue, handled, ◌>>=◌, try_catch,
}

module _ {S Stage : Type 0} (Inv : Stage → S → Type 0) where
  abbrev pub KeepStages : List (S → S) → Type 0
  KeepStages fs = All (λ f. (stage : Stage) (s : S) → Inv stage s → Inv stage (f s)) fs

  -- From stage `p`, `m` ends in the stage that `q` tells for its result.
  pub record Leads {A : Type 0} (p : Stage) (m : Action S A) (q : Result A → Stage) : Type 0 where
    pub run :
        (w : World S)
        → KeepStages w.others
        → Inv p w.state
        → KeepStages (m w).1.others × Inv (q (m w).0) (m w).1.state

  arrive-keeps :
      (p : Stage) (s : S) (fs : List (S → S))
      → KeepStages fs
      → Inv p s
      → KeepStages (arrive s fs).others × Inv p (arrive s fs).state
  arrive-keeps p s [] h i = (tt, i)
  arrive-keeps p s (f ∷ fs) h i = (h.1, h.0 p s i)

  module _ {A : Type 0} where
    pub Leads-atomic :
        (p : Stage) (f : S → Result A × S) (q : Result A → Stage)
        → ((s : S) → Inv p s → Inv (q (f s).0) (f s).1)
        → Leads p (atomic f) q
    unfolding atomic
    Leads-atomic p f q step = record {
      run = λ w h i.
          let (keep, here) = arrive-keeps p w.state w.others h i in
          (keep, step (arrive w.state w.others).state here);
    }

    pub Leads-lift :
        (p : Stage) (r : Result A) (q : Result A → Stage)
        → ((s : S) → Inv p s → Inv (q r) s)
        → Leads p (lift r) q
    Leads-lift p r q step = record { run = λ w h i. (h, step w.state i) }

    rolled_back-stage :
        (p : Stage) (s : S) (r : Result A × S) (q : Result A → Stage)
        → ((e : Exn) → Inv p s → Inv (q (err e)) s)
        → Inv p s
        → Inv (q r.0) r.1
        → Inv (q (rolled_back s r).0) (rolled_back s r).1
    rolled_back-stage p s (ok a, s') q undo i j = j
    rolled_back-stage p s (err e, s') q undo i j = undo e i

    pub Leads-transaction :
        (p : Stage) (m : Action S A) (q : Result A → Stage)
        → Leads p m q
        → ((e : Exn) (s : S) → Inv p s → Inv (q (err e)) s)
        → Leads p (transaction m) q
    unfolding transaction
    Leads-transaction p m q body undo = Leads-atomic p (run_alone m) q λ s i.
        rolled_back-stage p s (settled (m (record { state = s; others = [] }))) q (λ e. undo e s) i
          (body.run (record { state = s; others = [] }) tt i).1

    pub Leads-if :
        (p : Stage) (b : Bool) (m n : Action S A) (q : Result A → Stage)
        → (b ≡ true → Leads p m q)
        → (b ≡ false → Leads p n q)
        → Leads p (if b then m else n) q
    Leads-if p true m n q on off = on refl
    Leads-if p false m n q on off = off refl

  module _ {A B : Type 0} where
    continue-Leads :
        (x : Result A) (k : A → Action S B) (r : Result A → Stage) (q : Result B → Stage)
        → ((a : A) → Leads (r (ok a)) (k a) q)
        → ((e : Exn) (s : S) → Inv (r (err e)) s → Inv (q (err e)) s)
        → Leads (r x) (continue x k) q
    continue-Leads (ok a) k r q next thrown = next a
    continue-Leads (err e) k r q next thrown = record { run = λ w h i. (h, thrown e w.state i) }

    pub Leads-bind :
        (p : Stage) (m : Action S A) (k : A → Action S B) (r : Result A → Stage)
        (q : Result B → Stage)
        → Leads p m r
        → ((a : A) → Leads (r (ok a)) (k a) q)
        → ((e : Exn) (s : S) → Inv (r (err e)) s → Inv (q (err e)) s)
        → Leads p (m >>= k) q
    unfolding ◌>>=◌
    Leads-bind p m k r q first next thrown = record {
      run = λ w h i.
          let (keep, there) = first.run w h i in
          (continue-Leads (m w).0 k r q next thrown).run (m w).1 keep there;
    }

    handled-Leads :
        (x : Result A) (k : A → Action S B) (c : Exn → Action S B) (r : Result A → Stage)
        (q : Result B → Stage)
        → ((a : A) → Leads (r (ok a)) (k a) q)
        → ((e : Exn) → Leads (r (err e)) (c e) q)
        → Leads (r x) (handled x k c) q
    handled-Leads (ok a) k c r q next caught = next a
    handled-Leads (err e) k c r q next caught = caught e

    pub Leads-try_catch :
        (p : Stage) (m : Action S A) (k : A → Action S B) (c : Exn → Action S B)
        (r : Result A → Stage) (q : Result B → Stage)
        → Leads p m r
        → ((a : A) → Leads (r (ok a)) (k a) q)
        → ((e : Exn) → Leads (r (err e)) (c e) q)
        → Leads p (try_catch m k c) q
    unfolding try_catch
    Leads-try_catch p m k c r q first next caught = record {
      run = λ w h i.
          let (keep, there) = first.run w h i in
          (handled-Leads (m w).0 k c r q next caught).run (m w).1 keep there;
    }
