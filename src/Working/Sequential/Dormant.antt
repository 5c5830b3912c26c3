-- ===== src/Working/Sequential/Dormant.antt =====
-- A worker without a solver, as divide and conquer makes them for the solvers that it clones.
use mathlib.Core.Path.{subst}
use dpainless.Prelude.{
  ◌≡◌, branch, refl, ap, sym, List, [], ◌∷◌, Option, none, some, ℤ, Bool, true, false,
  if◌then◌else◌, arith, All,
}
use dpainless.Working.Strategy.{SatResult, Call, Globals}
use dpainless.Working.Sequential.{
  Point, testing, entering, holding, decided, waiting, woken, passing, released, solving, reporting,
  ended, Control, idle, stored, locked, signalled, SequentialWorker, new_worker, control_holds, at,
  step_at, wake, set_interrupt, control_step, begin_unset, begin_solve, Action, working, spurious,
  interrupting, controlling, unsetting, starting, act, run, when_idle,
}

-- Not a spurious wakeup.
abbrev pub is_signalled : Action → Bool
is_signalled spurious = false
is_signalled _ = true

abbrev pub is_before : Point → Bool
is_before testing = true
is_before entering = true
is_before holding = true
is_before decided = true
is_before waiting = true
is_before ended = true
is_before _ = false

-- The worker has not got beyond its first wait.
abbrev IsDormant : SequentialWorker → Type 0
IsDormant w =
    (w.solver ≡ none) × (w.interrupt ≡ true) × (w.control ≡ idle) × (is_before w.point ≡ true)

abbrev DormantAfter : Option (SequentialWorker × List Call) → Type 0
DormantAfter o = (w : SequentialWorker) × (calls : List Call) × (o ≡ some (w, calls)) × IsDormant w

step-DormantAfter :
    (p : Point) (res : SatResult) (model : List ℤ) (w : SequentialWorker)
    → is_before p ≡ true
    → IsDormant w
    → DormantAfter (step_at p res model w)
unfolding step_at
step-DormantAfter testing res model w e i = (
  at (if w.globals.global_ending then ended else entering) w,
  [],
  refl,
  (i.0, i.1, i.2, branch (λ p. is_before p ≡ true) w.globals.global_ending (λ f. refl) (λ f. refl)),
)
step-DormantAfter entering res model w e i = (
  if control_holds w.control then w else at holding w,
  [],
  refl,
  branch IsDormant (control_holds w.control) (λ f. i) (λ f. (i.0, i.1, i.2, refl)),
)
step-DormantAfter holding res model w e i = (
  at (if w.interrupt then decided else passing) w,
  [],
  refl,
  (i.0, i.1, i.2, ap (λ b. is_before (if b then decided else passing)) i.1),
)
step-DormantAfter decided res model w e i = (at waiting w, [], refl, (i.0, i.1, i.2, refl))
step-DormantAfter waiting res model w e i = (w, [], refl, i)
step-DormantAfter ended res model w e i = (w, [], refl, i)
step-DormantAfter woken res model w e i = absurd (ground (arith, e))
step-DormantAfter passing res model w e i = absurd (ground (arith, e))
step-DormantAfter released res model w e i = absurd (ground (arith, e))
step-DormantAfter solving res model w e i = absurd (ground (arith, e))
step-DormantAfter (reporting r m) res model w e i = absurd (ground (arith, e))

control-IsDormant :
    (c : Control) (w : SequentialWorker) → c ≡ idle → IsDormant w → IsDormant (control_step c w)
unfolding control_step
control-IsDormant idle w e i = i
control-IsDormant stored w e i = absurd (ground (arith, e))
control-IsDormant locked w e i = absurd (ground (arith, e))
control-IsDormant signalled w e i = absurd (ground (arith, e))

unset-IsDormant : (c : Control) (w : SequentialWorker) → IsDormant w → IsDormant (begin_unset c w)
unfolding begin_unset
unset-IsDormant idle w i =
    subst
      (λ o.
        IsDormant (elim o [ none ↦ w | some s ↦ record w { interrupt = false; control = stored } ]))
      (sym i.0) i
unset-IsDormant stored w i = i
unset-IsDormant locked w i = i
unset-IsDormant signalled w i = i

idle-IsDormant :
    (c : Control) (v w : SequentialWorker) → IsDormant v → IsDormant w → IsDormant (when_idle c v w)
idle-IsDormant idle v w i j = i
idle-IsDormant stored v w i j = j
idle-IsDormant locked v w i j = j
idle-IsDormant signalled v w i j = j

act-DormantAfter :
    (a : Action) (w : SequentialWorker)
    → is_signalled a ≡ true
    → IsDormant w
    → DormantAfter (act a w)
unfolding act set_interrupt begin_solve
act-DormantAfter (working res model) w s i = step-DormantAfter w.point res model w i.3 i
act-DormantAfter spurious w s i = absurd (ground (arith, s))
act-DormantAfter interrupting w s i = (
  when_idle w.control (set_interrupt w) w,
  [],
  refl,
  idle-IsDormant w.control (set_interrupt w) w (i.0, refl, i.2, i.3) i,
)
act-DormantAfter controlling w s i =
    (control_step w.control w, [], refl, control-IsDormant w.control w i.2 i)
act-DormantAfter unsetting w s i =
    (begin_unset w.control w, [], refl, unset-IsDormant w.control w i)
act-DormantAfter (starting cube) w s i = (
  when_idle w.control (begin_solve cube w) w,
  [],
  refl,
  idle-IsDormant w.control (begin_solve cube w) w
      (unset-IsDormant w.control (record w { actual_cube = cube }) i) i,
)

actions-IsDormant :
    (actions : List Action) (w : SequentialWorker)
    → All (λ a. is_signalled a ≡ true) actions
    → IsDormant w
    → (v : SequentialWorker) × (run actions w ≡ some v) × IsDormant v
unfolding run
actions-IsDormant [] w s i = (w, refl, i)
actions-IsDormant (a ∷ rest) w s i =
    let (w1, calls, e, j) = act-DormantAfter a w s.0 i in
    let (w2, f, k) = actions-IsDormant rest w1 s.1 j in (w2, rw (e, run) f, k)

-- Up to the wait, out of it without a signal, and on to the solver.
abbrev pub woken_early : SatResult → List ℤ → List Action
woken_early res model =
    working res model
    ∷ working res model
    ∷ working res model
    ∷ working res model
    ∷ spurious
    ∷ working res model
    ∷ working res model
    ∷ working res model
    ∷ []

-- A worker that was made without a solver, in a program that runs. Whatever another thread does to
-- it, it never gets beyond its first wait and uses no solver that is NULL, as long as the wait returns
-- on a signal only. If the wait returns once without one, which the code does not test for, the worker
-- goes on to use the solver.
pub run-dormant :
    (parent : Bool) (globals : Globals) (actions : List Action) (res : SatResult) (model : List ℤ)
    → All (λ a. is_signalled a ≡ true) actions
    → globals.global_ending ≡ false
    → (w : SequentialWorker) × (run actions (new_worker none parent globals) ≡ some w)
      × (is_before w.point ≡ true)
      × (run (woken_early res model) (new_worker none parent globals) ≡ none)
unfolding new_worker run act step_at wake
run-dormant parent globals actions res model s e =
    let (w, f, i) =
      actions-IsDormant actions (new_worker none parent globals) s (refl, refl, refl, refl) in
    (w, f, i.3, rw e refl)
