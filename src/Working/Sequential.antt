-- ===== src/Working/Sequential.antt =====
-- working/SequentialWorker.cpp: the thread of a worker, and the thread that starts and interrupts it.
-- A step is one access to what they share. The calls on the solver are left out: a search returns at
-- some step, with some result. Who holds `interruptLock` follows from where they stand.
pub mod Wakeup
pub mod Deletion
pub mod Dormant
use dpainless.Prelude.{
  ℕ, List, [], ◌∷◌, Option, none, some, ℤ, Bool, true, false, not, if◌then◌else◌,
}
use dpainless.Working.Strategy.{SatResult, sat, unsat, unknown, Call, join_parent, Globals}
use dpainless.Working.Portfolio.{set_result}

-- Where the thread of `mainWorker` stands. It holds the lock in `holding`, `decided` and `passing`;
-- in `waiting` it waits for the condition, and in `woken` for the lock behind it.
pub data Point : Type 0 where
  testing entering holding decided waiting woken passing released solving ended : Point
  reporting : SatResult → List ℤ → Point

-- Where the other thread stands in `unsetInterrupt`: `interrupt` is reset, the lock is held, the
-- condition is signalled.
pub data Control : Type 0 where
  idle stored locked signalled : Control

pub record SequentialWorker : Type 0 where
  pub solver : Option ℕ
  pub interrupt : Bool
  pub actual_cube : List ℤ
  pub has_parent : Bool
  pub globals : Globals
  pub point : Point
  pub control : Control

-- The constructor.
unfoldable pub new_worker : Option ℕ → Bool → Globals → SequentialWorker
new_worker solver has_parent globals = record {
  solver = solver;
  interrupt = true;
  actual_cube = [];
  has_parent = has_parent;
  globals = globals;
  point = testing;
  control = idle;
}

abbrev pub control_holds : Control → Bool
control_holds locked = true
control_holds signalled = true
control_holds _ = false

abbrev pub worker_holds : Point → Bool
worker_holds holding = true
worker_holds decided = true
worker_holds passing = true
worker_holds _ = false

abbrev pub at : Point → SequentialWorker → SequentialWorker
at p w = record w { point = p }

-- The model is taken for SAT only.
abbrev pub model_for : SatResult → List ℤ → List ℤ
model_for sat model = model
model_for unsat model = []
model_for unknown model = []

unfoldable pub join : SatResult → List ℤ → SequentialWorker → SequentialWorker × List Call
unfolding set_result
join res model w =
    if w.globals.global_ending
    then (w, [])
    else if w.has_parent
    then (w, join_parent res model ∷ [])
    else (record w { globals = set_result res model w.globals }, [])

abbrev pub silent : SequentialWorker → Option (SequentialWorker × List Call)
silent w = some (w, [])

-- The next step of the worker, with what `solve` and `getModel` return in it. `none`: a solver that
-- is NULL is used. A worker that cannot get the lock stays where it is.
unfoldable pub step_at :
    Point → SatResult → List ℤ → SequentialWorker → Option (SequentialWorker × List Call)
unfolding join
step_at testing res model w = silent (at (if w.globals.global_ending then ended else entering) w)
step_at entering res model w = silent (if control_holds w.control then w else at holding w)
step_at holding res model w = silent (at (if w.interrupt then decided else passing) w)
step_at decided res model w = silent (at waiting w)
step_at waiting res model w = silent w
step_at woken res model w = silent (if control_holds w.control then w else at passing w)
step_at passing res model w = silent (at released w)
step_at released res model w = elim w.solver [ none ↦ none | some s ↦ silent (at solving w) ]
step_at solving res model w = silent (at (reporting res (model_for res model)) w)
step_at (reporting r m) res model w = some (join r m (at testing w))
step_at ended res model w = silent w

-- `pthread_cond_wait` may return without a signal.
unfoldable pub wake : Point → Point
wake waiting = woken
wake p = p

unfoldable pub set_interrupt : SequentialWorker → SequentialWorker
set_interrupt w = record w { interrupt = true }

-- The next step of the other thread in `unsetInterrupt`.
unfoldable pub control_step : Control → SequentialWorker → SequentialWorker
unfolding wake
control_step idle w = w
control_step stored w = if worker_holds w.point then w else record w { control = locked }
control_step locked w = record w { control = signalled; point = wake w.point }
control_step signalled w = record w { control = idle }

-- `unsetInterrupt` up to the lock; nothing without a solver.
unfoldable pub begin_unset : Control → SequentialWorker → SequentialWorker
begin_unset idle w = elim w.solver [
  | none ↦ w
  | some s ↦ record w { interrupt = false; control = stored }
]
begin_unset c w = w

-- `solve`
unfoldable pub begin_solve : List ℤ → SequentialWorker → SequentialWorker
unfolding begin_unset
begin_solve cube w = begin_unset w.control (record w { actual_cube = cube })

-- The start of the destructor; it goes on to wait until the worker has ended.
unfoldable pub destroy : SequentialWorker → SequentialWorker
unfolding set_interrupt
destroy w = set_interrupt (record w { globals = record w.globals { global_ending = false } })

pub data Action : Type 0 where
  working : SatResult → List ℤ → Action
  spurious : Action
  interrupting controlling unsetting : Action
  starting : List ℤ → Action

-- The other thread makes one call at a time.
abbrev pub when_idle : Control → SequentialWorker → SequentialWorker → SequentialWorker
when_idle idle w v = w
when_idle c w v = v

unfoldable pub act : Action → SequentialWorker → Option (SequentialWorker × List Call)
unfolding step_at wake set_interrupt control_step begin_unset begin_solve
act (working res model) w = step_at w.point res model w
act spurious w = silent (at (wake w.point) w)
act interrupting w = silent (when_idle w.control (set_interrupt w) w)
act controlling w = silent (control_step w.control w)
act unsetting w = silent (begin_unset w.control w)
act (starting cube) w = silent (when_idle w.control (begin_solve cube w) w)

unfoldable pub run : List Action → SequentialWorker → Option SequentialWorker
unfolding act
run [] w = some w
run (a ∷ as') w = elim (act a w) [ none ↦ none | some (w', calls) ↦ run as' w' ]
