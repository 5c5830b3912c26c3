-- ===== src/Working/Cube/Rounds/Again.antt =====
-- working/CubeAndConquer.cpp, join, under working/SequentialWorker.cpp, mainWorker: a worker is not
-- interrupted when its sub-problem is over, so its thread searches it again.
use dpainless.Prelude.{
  ℕ, zero, suc, ◌<◌, ◌≡◌, refl, ap, ◌∙◌, List, [], ◌∷◌, Option, none, some, ℤ, true, false, leb,
  length, All, if◌then◌else◌, arith,
}
use dpainless.Working.Strategy.{SatResult, unsat, Call, join_parent, Globals}
use dpainless.Working.Portfolio.{set_result}
use dpainless.Working.Sequential.{SequentialWorker, testing, idle, step_at}
use dpainless.Working.Cube.{CubeAndConquer, is_first, join}
use dpainless.Working.Cube.Jobs.{lose_all, lose_all-ends, IsRunning}

-- The worker's calls of its parent; no other call of the worker matters to the strategy.
unfoldable pub take_joins : ℕ → List Call → CubeAndConquer → CubeAndConquer
unfolding join
take_joins n [] c = c
take_joins n (join_parent res model ∷ calls) c = take_joins n calls (join n res model c).0
take_joins n (_ ∷ calls) c = take_joins n calls c

-- The thread of worker n runs alone below the strategy, and its solver answers UNSAT each time.
unfoldable pub work :
    ℕ → ℕ → SequentialWorker → CubeAndConquer → Option (SequentialWorker × CubeAndConquer)
unfolding step_at take_joins
work zero n w c = some (w, c)
work (suc k) n w c = elim (step_at w.point unsat [] w) [
  | none ↦ none
  | some (w', calls) ↦ work k n w' (take_joins n calls c)
]

-- A worker that was started and may go on.
abbrev pub started : ℕ → List ℤ → SatResult → List ℤ → SequentialWorker
started solver cube result model = record {
  solver = some solver;
  interrupt = false;
  actual_cube = cube;
  has_parent = true;
  globals = record { global_ending = false; final_result = result; final_model = model };
  point = testing;
  control = idle;
}

-- The steps of m turns of the loop.
abbrev pub turn_steps : ℕ → ℕ
turn_steps zero = 0
turn_steps (suc m) = suc (suc (suc (suc (suc (suc (suc (turn_steps m)))))))

abbrev replicate : ℕ → ℕ → List ℕ
replicate zero w = []
replicate (suc m) w = w ∷ replicate m w

work-joins :
    (m n s : ℕ) (cube : List ℤ) (result : SatResult) (model : List ℤ) (c : CubeAndConquer)
    → work (turn_steps m) n (started s cube result model) c
      ≡ some (started s cube result model, lose_all (replicate m n) c)
unfolding work lose_all
work-joins zero n s cube result model c = refl
work-joins (suc m) n s cube result model c =
    work-joins m n s cube result model (join n unsat [] c).0

length-replicate : (m w : ℕ) → length (replicate m w) ≡ m
length-replicate zero w = refl
length-replicate (suc m) w = ap suc (length-replicate m w)

All-replicate : (P : ℕ → Type 0) (m w : ℕ) → P w → All P (replicate m w)
All-replicate P zero w p = tt
All-replicate P (suc m) w p = (p, All-replicate P m w p)

-- While cube and conquer runs at the top with m > 0 sub-problems left, one started worker other than the
-- first slave, whose solver has refuted its own sub-problem and answers UNSAT each time, ends the
-- program with UNSAT after m turns of its loop, whatever the other sub-problems hold.
pub work-ends :
    (m n s : ℕ) (cube : List ℤ) (result : SatResult) (model : List ℤ) (slaves : List ℕ)
    (globals : Globals) (c : CubeAndConquer)
    → 0 < m
    → is_first n slaves ≡ false
    → IsRunning slaves m globals c
    → (d : CubeAndConquer) × (work (turn_steps m) n (started s cube result model) c
        ≡ some (started s cube result model, d))
      × (d.strategy_ending ≡ true)
      × (d.globals ≡ set_result unsat [] globals)
work-ends m n s cube result model slaves globals c h other r =
    let (e, g) =
      lose_all-ends (replicate m n) slaves m globals c r h
        (All-replicate (λ w. is_first w slaves ≡ false) m n other) in
    let all : leb m (length (replicate m n)) ≡ true = ground (arith, length-replicate m n) in
    (
      lose_all (replicate m n) c,
      work-joins m n s cube result model c,
      e ∙ all,
      g ∙ ap (λ b. if b then set_result unsat [] globals else globals) all,
    )
