-- ===== src/Working/Sequential/Deletion.antt =====
-- The destructor of a worker waits for a thread that does not end.
use dpainless.Prelude.{
  ℕ, ◌≡◌, branch, refl, ap, sym, ◌∙◌, List, [], ◌∷◌, Option, none, some, ℤ, Bool, true, false,
  if◌then◌else◌, arith,
}
use dpainless.Working.Strategy.{SatResult, Call}
use dpainless.Working.Sequential.{
  Point, testing, entering, holding, decided, waiting, woken, passing, released, solving, reporting,
  ended, SequentialWorker, control_holds, at, join, step_at, set_interrupt, destroy, Action,
  working, act, run, model_for, silent,
}

abbrev pub is_ended : Point → Bool
is_ended ended = true
is_ended _ = false

-- What the worker itself does while its destructor waits for it.
abbrev pub alone : List (SatResult × List ℤ) → List Action
alone [] = []
alone ((res, model) ∷ rs) = working res model ∷ alone rs

-- The worker has not ended, and nothing in its process says that it should.
abbrev IsStuck : ℕ → SequentialWorker → Type 0
IsStuck n w =
    (w.globals.global_ending ≡ false)
    × (w.has_parent ≡ true)
    × (w.solver ≡ some n)
    × (is_ended w.point ≡ false)

abbrev StuckAfter : ℕ → Option (SequentialWorker × List Call) → Type 0
StuckAfter n o = (w : SequentialWorker) × (calls : List Call) × (o ≡ some (w, calls)) × IsStuck n w

step-StuckAfter :
    (n : ℕ) (p : Point) (res : SatResult) (model : List ℤ) (w : SequentialWorker)
    → w.point ≡ p
    → IsStuck n w
    → StuckAfter n (step_at p res model w)
unfolding step_at join
step-StuckAfter n testing res model w e i = (
  at (if w.globals.global_ending then ended else entering) w,
  [],
  refl,
  (i.0, i.1, i.2, ap (λ b. is_ended (if b then ended else entering)) i.0),
)
step-StuckAfter n entering res model w e i = (
  if control_holds w.control then w else at holding w,
  [],
  refl,
  branch (IsStuck n) (control_holds w.control) (λ f. i) (λ f. (i.0, i.1, i.2, refl)),
)
step-StuckAfter n holding res model w e i = (
  at (if w.interrupt then decided else passing) w,
  [],
  refl,
  (i.0, i.1, i.2, branch (λ p. is_ended p ≡ false) w.interrupt (λ f. refl) (λ f. refl)),
)
step-StuckAfter n decided res model w e i = (at waiting w, [], refl, (i.0, i.1, i.2, refl))
step-StuckAfter n waiting res model w e i = (w, [], refl, i)
step-StuckAfter n woken res model w e i = (
  if control_holds w.control then w else at passing w,
  [],
  refl,
  branch (IsStuck n) (control_holds w.control) (λ f. i) (λ f. (i.0, i.1, i.2, refl)),
)
step-StuckAfter n passing res model w e i = (at released w, [], refl, (i.0, i.1, i.2, refl))
step-StuckAfter n released res model w e i = (
  at solving w,
  [],
  ap (λ o. elim o [ none ↦ none | some s ↦ silent (at solving w) ]) i.2,
  (i.0, i.1, i.2, refl),
)
step-StuckAfter n solving res model w e i =
    (at (reporting res (model_for res model)) w, [], refl, (i.0, i.1, i.2, refl))
step-StuckAfter n (reporting r m) res model w e i = (
  (join r m (at testing w)).0,
  (join r m (at testing w)).1,
  refl,
  branch {A = SequentialWorker × List Call} (λ x. IsStuck n x.0) w.globals.global_ending
      (λ f. (i.0, i.1, i.2, refl))
      (λ f.
        branch {A = SequentialWorker × List Call} (λ x. IsStuck n x.0) w.has_parent
          (λ g. (i.0, i.1, i.2, refl)) (λ g. absurd (ground (arith, g, i.1)))),
)
step-StuckAfter n ended res model w e i =
    absurd (let f : is_ended ended ≡ false = ap is_ended (sym e) ∙ i.3 in ground (arith, f))

alone-IsStuck :
    (n : ℕ) (rs : List (SatResult × List ℤ)) (w : SequentialWorker)
    → IsStuck n w
    → (v : SequentialWorker) × (run (alone rs) w ≡ some v) × IsStuck n v
unfolding run act
alone-IsStuck n [] w i = (w, refl, i)
alone-IsStuck n ((res, model) ∷ rs) w i =
    let (w1, calls, e, j) = step-StuckAfter n w.point res model w refl i in
    let (w2, f, k) = alone-IsStuck n rs w1 j in (w2, rw (e, run) f, k)

-- The destructor of a worker that has a parent resets `global_ending`, sets the interrupt, and waits
-- for the thread of the worker to end. But that thread never ends, whatever number of steps it takes
-- and whatever its solver answers, as long as its parent does not end the program on its report: it
-- sees `global_ending` false, so the destructor does not return.
pub destroy-IsStuck :
    (n : ℕ) (w : SequentialWorker) (rs : List (SatResult × List ℤ))
    → w.has_parent ≡ true
    → w.solver ≡ some n
    → is_ended w.point ≡ false
    → (v : SequentialWorker) × (run (alone rs) (destroy w) ≡ some v)
      × (is_ended v.point ≡ false)
      × (v.globals.global_ending ≡ false)
unfolding destroy set_interrupt
destroy-IsStuck n w rs parent solver here =
    let (v, e, i) = alone-IsStuck n rs (destroy w) (refl, parent, solver, here) in (v, e, i.3, i.0)
