-- ===== src/Tests/Cubes.antt =====
-- The theorems on cube and conquer, at concrete inputs.
use dpainless.Prelude.{ℕ, ◌≡◌, refl, true, false, List, [], ◌∷◌, some, pos, negsuc, arith}
use dpainless.Working.Strategy.{unsat, unknown, Globals}
use dpainless.Working.Portfolio.{set_result}
use dpainless.Working.Divide.Cover.{Assignment}
use dpainless.Working.Cube.{CubeAndConquer, join}
use dpainless.Working.Cube.Rounds.{Division, round, begin}
use dpainless.Working.Cube.Rounds.Search.{Steps, stay, step, rounds, refutes, IsSound}
use dpainless.Working.Cube.Rounds.Answer.{IsReady, cube-IsSound}
use dpainless.Working.Cube.Rounds.Again.{started, turn_steps, work, work-ends}

abbrev nothing_yet : Globals
nothing_yet = record { global_ending = false; final_result = unknown; final_model = [] }

-- The first slave has number 0.
abbrev one_slave : CubeAndConquer
one_slave = record {
  slaves = 0 ∷ [];
  workers = [];
  over = [];
  next = 0;
  n_jobs = 0;
  max_cpus = 2;
  n_sharers = 1;
  created = 1;
  units = λ _. [];
  actual_cube = [];
  wait_job = true;
  strategy_ending = false;
  has_parent = false;
  globals = nothing_yet;
}

one_slave-IsReady : IsReady 0 one_slave
one_slave-IsReady = record {
  head = ([], refl);
  no_workers = refl;
  no_over = refl;
  old = omega arith;
  no_result = refl;
}

-- Variable 1 is true.
abbrev Holds : Assignment → Type 0
Holds s = s (pos 1) ≡ true

abbrev on_one : ℕ → Division
on_one t = record { var = pos 1; kept = [] }

abbrev same_order : List ℕ → List ℕ
same_order ws = ws

-- The root, worker 1, is divided once; its clone is worker 2.
abbrev divided : CubeAndConquer
divided = (round same_order on_one (begin [] [] one_slave).0).0

divided-clone :
    (divided.units 2 ≡ negsuc 0 ∷ []) × (divided.workers ≡ 1 ∷ 2 ∷ []) × (divided.next ≡ 1)
unfolding round begin
divided-clone = (refl, refl, refl)

-- Then the clone joins with UNSAT.
clone_over : Steps Holds (λ m. m ≡ pos 1 ∷ []) (begin [] [] one_slave).0 (join 2 unsat [] divided).0
unfolding round begin
clone_over =
    step (begin [] [] one_slave).0 divided (join 2 unsat [] divided).0
      (step (begin [] [] one_slave).0 (begin [] [] one_slave).0 divided
        (stay (begin [] [] one_slave).0)
        (rounds (begin [] [] one_slave).0 same_order on_one refl (λ ws v. refl)
          (λ t h. (cc, λ s e. refl))))
      (refutes divided 2 [] (omega arith, refl)
        (λ s n m q r. let e = n (pos 1) (cc) in ground (arith, e, m, r)))

cube-IsSound_example : IsSound Holds (λ m. m ≡ pos 1 ∷ []) 0 (join 2 unsat [] divided).0
cube-IsSound_example =
    cube-IsSound Holds (λ m. m ≡ pos 1 ∷ []) 0 [] [] one_slave (join 2 unsat [] divided).0
      one_slave-IsReady (λ s. refl) clone_over

-- Three sub-problems are left, and worker 2 has refuted its own.
abbrev three_left : CubeAndConquer
three_left = record one_slave {
  slaves = 0 ∷ 1 ∷ 2 ∷ 3 ∷ [];
  workers = 1 ∷ 2 ∷ 3 ∷ [];
  n_jobs = 3;
  created = 4;
}

work-ends_example :
    (d : CubeAndConquer) × (work (turn_steps 3) 2 (started 7 [] unknown []) three_left
      ≡ some (started 7 [] unknown [], d))
    × (d.strategy_ending ≡ true)
    × (d.globals ≡ set_result unsat [] nothing_yet)
work-ends_example =
    work-ends 3 2 7 [] unknown [] (0 ∷ 1 ∷ 2 ∷ 3 ∷ []) nothing_yet three_left (omega arith) refl
      (refl, refl, refl, refl, refl)
