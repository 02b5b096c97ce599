-- ===== src/Payroll/Worker/Pause.antt =====
-- A paused run is not set running again by the worker, also if it is paused in the middle of a
-- job.
use benzo_main.Prelude.{
  ℕ, ◌≡◌, ◌≢◌, refl, sym, ◌∙◌, Bool, true, some, List, [], ◌∷◌, ◌||◌, arith, All, get_elem?,
}
use benzo_main.Service.{World}
use benzo_main.Service.Maintains.{Calm}
use benzo_main.Table.Evolution.{
  Evolves, IsEvolution, Evolves-refl, Evolves-trans, Evolves-update_where, Evolves-get_elem?,
}
use benzo_main.Payroll.{RunStatus, running, paused, complete, failed, Run, Item, PayrollState}
use benzo_main.Payroll.Progress.{update_runs}
use benzo_main.Payroll.Statements.{
  PayrollEnv, update_items, insert_link, record_broadcast, status_is_ready, status_is_running,
}
use benzo_main.Payroll.Worker.{process_item}
use benzo_main.Payroll.Worker.Writes.{
  RunWrite, to_complete, to_settled_failed, to_running, WritesMaintain, process_item-Maintains,
}

-- What a run's status may become while only the worker and operators who pause write: it stays,
-- it settles, or from `ready` or `running` it becomes `running` or `paused`.
pub data Becomes (a : RunStatus) : RunStatus → Type 0 where
  stays : Becomes a a
  completes : Becomes a complete
  fails : Becomes a failed
  runs : (status_is_ready a || status_is_running a) ≡ true → Becomes a running
  pauses : (status_is_ready a || status_is_running a) ≡ true → Becomes a paused

Becomes-trans : {a b c : RunStatus} → Becomes a b → Becomes b c → Becomes a c
Becomes-trans d stays = d
Becomes-trans d completes = completes
Becomes-trans d fails = fails
Becomes-trans stays (runs h) = runs h
Becomes-trans completes (runs h) = absurd (cc h)
Becomes-trans fails (runs h) = absurd (cc h)
Becomes-trans (runs k) (runs h) = runs k
Becomes-trans (pauses k) (runs h) = absurd (cc h)
Becomes-trans stays (pauses h) = pauses h
Becomes-trans completes (pauses h) = absurd (cc h)
Becomes-trans fails (pauses h) = absurd (cc h)
Becomes-trans (runs k) (pauses h) = pauses k
Becomes-trans (pauses k) (pauses h) = absurd (cc h)

paused_not_running : {a b : RunStatus} → a ≡ paused → Becomes a b → b ≢ running
paused_not_running e stays r = cc
paused_not_running e completes r = cc
paused_not_running e fails r = cc
paused_not_running e (runs h) r = cc (rw e at h)
paused_not_running e (pauses h) r = cc

pub record RunMoves (x y : Run) : Type 0 where
  pub same_id : x.id ≡ y.id
  pub becomes : Becomes x.status y.status

abbrev pub AnyRun : Run → Type 0
AnyRun x = Unit

run_laws : IsEvolution RunMoves AnyRun
run_laws = record {
  moves_refl = λ x. record { same_id = refl; becomes = stays };
  moves_trans = λ x y z d e. record {
    same_id = d.same_id ∙ e.same_id;
    becomes = Becomes-trans d.becomes e.becomes;
  };
  new_moves = λ x y h e. tt;
}

write-RunMoves :
    {p : Run → Bool} {f : Run → Run} → RunWrite p f → (x : Run) → p x ≡ true → RunMoves x (f x)
write-RunMoves (to_complete id) x h = record { same_id = refl; becomes = completes }
write-RunMoves (to_settled_failed id reason) x h = record { same_id = refl; becomes = fails }
write-RunMoves (to_running id) x h = record { same_id = refl; becomes = runs (ground (arith, h)) }

abbrev pub RunsMove : PayrollState → PayrollState → Type 0
RunsMove before after = Evolves RunMoves AnyRun before.runs after.runs

module _ (origin : PayrollState) where
  writes : WritesMaintain (RunsMove origin)
  unfolding update_items update_runs insert_link record_broadcast
  writes = record {
    on_item = λ id f s how h. h;
    on_run = λ p f s how h.
        Evolves-trans run_laws origin.runs s.runs _ h
          (Evolves-update_where run_laws p f s.runs (λ x on. write-RunMoves how x on));
    on_link = λ row s h. h;
    on_broadcast = λ b s h. h;
  }

-- The others may add runs, pause or settle them, and start those that are ready.
abbrev pub AllRunsMove : List (PayrollState → PayrollState) → Type 0
AllRunsMove fs = All (λ f. (s : PayrollState) → RunsMove s (f s)) fs

calm :
    (origin : PayrollState) (fs : List (PayrollState → PayrollState))
    → AllRunsMove fs
    → Calm (RunsMove origin) fs
calm origin [] h = tt
calm origin (f ∷ fs) h =
    (λ s g. Evolves-trans run_laws origin.runs s.runs (f s).runs g (h.0 s), calm origin fs h.1)

-- Whatever row a job has loaded, also one that shows the run as running from before it was
-- paused: a run that is paused when the job goes on is not running when the job ends, however it
-- ends, as long as the others do not resume runs in between.
pub paused_stays :
    (env : PayrollEnv) (item : Item) (loaded : Run) (w : World PayrollState) (i : ℕ) (x : Run)
    → AllRunsMove w.others
    → get_elem? w.state.runs i ≡ some x
    → x.status ≡ paused
    → (y : Run) × (get_elem? (process_item env item loaded w).1.state.runs i ≡ some y)
      × (y.id ≡ x.id)
      × (y.status ≢ running)
paused_stays env item loaded w i x others found halted =
    let kept =
      (process_item-Maintains (writes w.state) env item loaded).from w
        (Evolves-refl run_laws w.state.runs, calm w.state w.others others) in
    let (y, at_place, moved) =
      Evolves-get_elem? RunMoves AnyRun w.state.runs (process_item env item loaded w).1.state.runs i
        x kept.0 found in
    (y, at_place, sym moved.same_id, paused_not_running halted moved.becomes)
