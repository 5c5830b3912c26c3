-- ===== src/Working/Sequential/Wakeup.antt =====
-- No call of `unsetInterrupt` is lost on a worker that has a solver.
use mathlib.Core.Path.{subst}
use dpainless.Prelude.{
  ℕ, ◌≡◌, branch, refl, ap, sym, List, [], ◌∷◌, Option, none, some, ℤ, Bool, true, false, not, ◌&&◌,
  ◌||◌, if◌then◌else◌, arith,
}
use dpainless.Working.Strategy.{SatResult, Call, Globals}
use dpainless.Working.Sequential.{
  Point, testing, entering, holding, decided, waiting, woken, passing, released, solving, reporting,
  ended, Control, idle, stored, locked, signalled, SequentialWorker, new_worker, control_holds,
  worker_holds, at, join, silent, step_at, wake, set_interrupt, control_step, begin_unset,
  begin_solve, Action, working, spurious, interrupting, controlling, unsetting, starting, act, run,
  model_for, when_idle,
}

-- The worker waits for the condition, or is about to.
abbrev pub waits : Point → Bool
waits decided = true
waits waiting = true
waits _ = false

-- A signal is still to come.
abbrev pub is_pending : Control → Bool
is_pending stored = true
is_pending locked = true
is_pending _ = false

abbrev pub is_idle : Control → Bool
is_idle idle = true
is_idle _ = false

-- At most one thread holds the lock, and a worker that waits was told to, or a signal is to come.
abbrev IsAwake : Bool → Point → Control → Type 0
IsAwake interrupt p c =
    ((worker_holds p && control_holds c) ≡ false)
    × ((waits p && not (interrupt || is_pending c)) ≡ false)

-- The worker has a solver.
abbrev Holds : ℕ → SequentialWorker → Type 0
Holds n w = IsAwake w.interrupt w.point w.control × (w.solver ≡ some n)

-- A step leads to a state of this kind.
abbrev Steps : ℕ → Option (SequentialWorker × List Call) → Type 0
Steps n o = (w : SequentialWorker) × (calls : List Call) × (o ≡ some (w, calls)) × Holds n w

join-Holds :
    (n : ℕ) (res : SatResult) (model : List ℤ) (w : SequentialWorker)
    → Holds n w
    → Holds n (join res model w).0
unfolding join
join-Holds n res model w i =
    branch {A = SequentialWorker × List Call} (λ r. Holds n r.0) w.globals.global_ending (λ e. i)
      (λ e.
        branch {A = SequentialWorker × List Call} (λ r. Holds n r.0) w.has_parent (λ f. i) (λ f. i))

step-Steps :
    (n : ℕ) (p : Point) (res : SatResult) (model : List ℤ) (w : SequentialWorker)
    → IsAwake w.interrupt p w.control
    → Holds n w
    → Steps n (step_at p res model w)
unfolding step_at
step-Steps n testing res model w j i = (
  at (if w.globals.global_ending then ended else entering) w,
  [],
  refl,
  (
    branch (λ p. IsAwake w.interrupt p w.control) w.globals.global_ending (λ e. (refl, refl))
        (λ e. (refl, refl)),
    i.1,
  ),
)
step-Steps n entering res model w j i = (
  if control_holds w.control then w else at holding w,
  [],
  refl,
  branch (Holds n) (control_holds w.control) (λ e. i) (λ e. ((e, refl), i.1)),
)
step-Steps n holding res model w j i = (
  at (if w.interrupt then decided else passing) w,
  [],
  refl,
  (
    branch (λ p. IsAwake w.interrupt p w.control) w.interrupt
        (λ e. (j.0, ap (λ b. not (b || is_pending w.control)) e)) (λ e. (j.0, refl)),
    i.1,
  ),
)
step-Steps n decided res model w j i = (at waiting w, [], refl, ((refl, j.1), i.1))
step-Steps n waiting res model w j i = (w, [], refl, i)
step-Steps n woken res model w j i = (
  if control_holds w.control then w else at passing w,
  [],
  refl,
  branch (Holds n) (control_holds w.control) (λ e. i) (λ e. ((e, refl), i.1)),
)
step-Steps n passing res model w j i = (at released w, [], refl, ((refl, refl), i.1))
step-Steps n released res model w j i = (
  at solving w,
  [],
  ap (λ o. elim o [ none ↦ none | some s ↦ silent (at solving w) ]) i.1,
  ((refl, refl), i.1),
)
step-Steps n solving res model w j i =
    (at (reporting res (model_for res model)) w, [], refl, ((refl, refl), i.1))
step-Steps n (reporting r m) res model w j i = (
  (join r m (at testing w)).0,
  (join r m (at testing w)).1,
  refl,
  join-Holds n r m (at testing w) ((refl, refl), i.1),
)
step-Steps n ended res model w j i = (w, [], refl, i)

to_locked : (b : Bool) (p : Point) → worker_holds p ≡ false → IsAwake b p locked
to_locked b p e = ground (arith, e)

to_signalled : (b : Bool) (p : Point) → IsAwake b p locked → IsAwake b (wake p) signalled
unfolding wake
to_signalled b p i = ground (arith, i)

to_idle : (b : Bool) (p : Point) → IsAwake b p signalled → IsAwake b p idle
to_idle b p i = ground (arith, i)

to_stored : (b : Bool) (p : Point) → IsAwake b p idle → IsAwake false p stored
to_stored b p i = ground (arith, i)

interrupted : (b : Bool) (p : Point) (c : Control) → IsAwake b p c → IsAwake true p c
interrupted b p c i = ground (arith, i)

woken_up : (b : Bool) (p : Point) (c : Control) → IsAwake b p c → IsAwake b (wake p) c
unfolding wake
woken_up b p c i = ground (arith, i)

control-Holds :
    (n : ℕ) (c : Control) (w : SequentialWorker)
    → w.control ≡ c
    → Holds n w
    → Holds n (control_step c w)
unfolding control_step wake
control-Holds n idle w e i = i
control-Holds n stored w e i =
    branch (Holds n) (worker_holds w.point) (λ f. i) (λ f. (to_locked w.interrupt w.point f, i.1))
control-Holds n locked w e i =
    (to_signalled w.interrupt w.point (subst (IsAwake w.interrupt w.point) e i.0), i.1)
control-Holds n signalled w e i =
    (to_idle w.interrupt w.point (subst (IsAwake w.interrupt w.point) e i.0), i.1)

unset-Holds :
    (n : ℕ) (c : Control) (w : SequentialWorker)
    → w.control ≡ c
    → Holds n w
    → Holds n (begin_unset c w)
unfolding begin_unset
unset-Holds n idle w e i =
    subst
      (λ o.
        Holds n (elim o [ none ↦ w | some s ↦ record w { interrupt = false; control = stored } ]))
      (sym i.1) (to_stored w.interrupt w.point (subst (IsAwake w.interrupt w.point) e i.0), i.1)
unset-Holds n stored w e i = i
unset-Holds n locked w e i = i
unset-Holds n signalled w e i = i

idle-Holds :
    (n : ℕ) (c : Control) (v w : SequentialWorker)
    → Holds n v
    → Holds n w
    → Holds n (when_idle c v w)
idle-Holds n idle v w i j = i
idle-Holds n stored v w i j = j
idle-Holds n locked v w i j = j
idle-Holds n signalled v w i j = j

act-Steps : (n : ℕ) (a : Action) (w : SequentialWorker) → Holds n w → Steps n (act a w)
unfolding act set_interrupt begin_solve
act-Steps n (working res model) w i = step-Steps n w.point res model w i.0 i
act-Steps n spurious w i =
    (at (wake w.point) w, [], refl, (woken_up w.interrupt w.point w.control i.0, i.1))
act-Steps n interrupting w i = (
  when_idle w.control (set_interrupt w) w,
  [],
  refl,
  idle-Holds n w.control (set_interrupt w) w (interrupted w.interrupt w.point w.control i.0, i.1) i,
)
act-Steps n controlling w i =
    (control_step w.control w, [], refl, control-Holds n w.control w refl i)
act-Steps n unsetting w i = (begin_unset w.control w, [], refl, unset-Holds n w.control w refl i)
act-Steps n (starting cube) w i = (
  when_idle w.control (begin_solve cube w) w,
  [],
  refl,
  idle-Holds n w.control (begin_solve cube w) w
      (unset-Holds n w.control (record w { actual_cube = cube }) refl i) i,
)

actions-Holds :
    (n : ℕ) (actions : List Action) (w : SequentialWorker)
    → Holds n w
    → (w' : SequentialWorker) × (run actions w ≡ some w') × Holds n w'
unfolding run
actions-Holds n [] w i = (w, refl, i)
actions-Holds n (a ∷ rest) w i =
    let (w1, calls, e, j) = act-Steps n a w i in
    let (w2, f, k) = actions-Holds n rest w1 j in (w2, rw (e, run) f, k)

at_rest :
    (b : Bool) (p : Point) (c : Control) → IsAwake b p c → (waits p && not b && is_idle c) ≡ false
at_rest b p c i = ground (arith, i)

-- A worker with a solver is started and interrupted by another thread, in any interleaving of their
-- accesses, with results of `solve` of any kind, and with spurious wakeups. No access is a fault, the
-- two threads never hold the lock at once, and no start is lost: whenever the other thread is in no
-- call and `interrupt` is false, the worker neither waits for the condition nor is about to.
pub run-waits :
    (n : ℕ) (parent : Bool) (globals : Globals) (actions : List Action)
    → (w : SequentialWorker) × (run actions (new_worker (some n) parent globals) ≡ some w)
      × ((worker_holds w.point && control_holds w.control) ≡ false)
      × ((waits w.point && not w.interrupt && is_idle w.control) ≡ false)
unfolding new_worker
run-waits n parent globals actions =
    let (w, e, i) =
      actions-Holds n actions (new_worker (some n) parent globals) ((refl, refl), refl) in
    (w, e, i.0.0, at_rest w.interrupt w.point w.control i.0)
