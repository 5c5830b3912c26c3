-- ===== src/Tests/Working.antt =====
-- The theorems on divide and conquer, at concrete inputs.
use dpainless.Prelude.{
  ◌&&◌, not, ◌<◌, ◌≡◌, refl, true, false, List, [], ◌∷◌, none, some, ℤ, pos, arith, if◌then◌else◌,
  length,
}
use dpainless.Working.Portfolio.{Portfolio, solve_cube, join_all}
use dpainless.Working.Portfolio.First.{first_answer, report, final_globals, join_all-first}
use dpainless.Working.Strategy.{SatResult, sat, unsat, unknown, Call, solve, Globals}
use dpainless.Working.Sequential.{
  SequentialWorker, new_worker, control_holds, worker_holds, destroy, working, starting,
  controlling, run,
}
use dpainless.Working.Sequential.Wakeup.{waits, is_idle, run-waits}
use dpainless.Working.Sequential.Deletion.{alone, is_ended, destroy-IsStuck}
use dpainless.Working.Vectors.{get_head, does_vector_contain}
use dpainless.Working.Divide.{DivideAndConquer, launch, interrupt_worker, master_round, join}
use dpainless.Working.Divide.Balance.{IsBalanced}
use dpainless.Working.Divide.Cover.{Assignment}
use dpainless.Working.Divide.Search.{IsSound, stay, step, interrupts}
use dpainless.Working.Divide.Answer.{IsReady, divide-IsSound, last_join-ends}

-- Two workers before the start.
abbrev start : DivideAndConquer
start = record {
  slaves = 10 ∷ 11 ∷ [];
  overs = [];
  workers = [];
  workers_splitting = [];
  overs_splitting = [];
  n_workers = 0;
  n_divisions = 0;
  n_cancelled_divisions = 0;
  cubes = λ _. [];
  solver = λ w. some w;
  clone_strategy = 1;
  n_sharers = 0;
  actual_cube = pos 7 ∷ [];
  strategy_ending = false;
  has_parent = false;
  globals = record { global_ending = false; final_result = unknown; final_model = [] };
}

start-IsReady : IsReady start
start-IsReady = record {
  some_slave = omega arith;
  once = λ v. ground arith;
  no_overs = refl;
  no_workers = refl;
  no_workers_splitting = refl;
  no_overs_splitting = refl;
  none_counted = refl;
  no_result = refl;
}

-- The first worker has the cube.
abbrev launched : DivideAndConquer
launched = record start {
  overs = 11 ∷ [];
  workers = 10 ∷ [];
  n_workers = 1;
  cubes = λ v. if does_vector_contain (10 ∷ 11 ∷ []) v then pos 7 ∷ [] else [];
}

launch-start : launch start ≡ some (launched, solve 10 (pos 7 ∷ []) ∷ [])
unfolding launch get_head does_vector_contain
launch-start = refl

-- It was interrupted to split for the second one.
abbrev splitting : DivideAndConquer × List Call
splitting = interrupt_worker 10 [] 11 [] launched

master_round-launched : master_round launched ≡ some splitting
unfolding master_round get_head
master_round-launched = refl

abbrev Positive : Assignment → Type 0
Positive s = s (pos 1) ≡ true

abbrev IsNonempty : List ℤ → Type 0
IsNonempty m = 0 < length m

divide-IsSound_example : IsSound Positive IsNonempty splitting.0
divide-IsSound_example =
    divide-IsSound Positive IsNonempty start (launched, solve 10 (pos 7 ∷ []) ∷ []) splitting.0
      start-IsReady launch-start
      (step launched launched splitting.0 (stay launched)
        (interrupts launched splitting master_round-launched))

launched-IsBalanced : IsBalanced launched
launched-IsBalanced = record {
  placed = λ v. ground arith;
  once = λ v. ground arith;
  counted = refl;
  paired = refl;
}

last_join-ends_example :
    (r : DivideAndConquer × List Call) × (join 10 unsat [] (pos 1) none launched ≡ some r)
    × (r.0.globals.final_result ≡ unsat)
    × (r.0.globals.global_ending ≡ true)
last_join-ends_example =
    last_join-ends launched 10 [] (pos 1) none launched-IsBalanced (ground arith) refl refl refl

-- The worker 10 is to split for 11.
abbrev interrupted : DivideAndConquer
interrupted = record start { workers_splitting = 10 ∷ []; overs_splitting = 11 ∷ []; n_workers = 1 }

interrupted-IsBalanced : IsBalanced interrupted
interrupted-IsBalanced = record {
  placed = λ v. ground arith;
  once = λ v. ground arith;
  counted = refl;
  paired = refl;
}

-- Two workers without a parent. One is interrupted, and then one finds a model.
abbrev two_slaves : Portfolio
two_slaves = record {
  slaves = 1 ∷ 2 ∷ [];
  strategy_ending = true;
  has_parent = false;
  globals = record { global_ending = false; final_result = unknown; final_model = [] };
}

abbrev two_answers : List (SatResult × List ℤ)
two_answers = (unknown, []) ∷ (sat, pos 4 ∷ []) ∷ (unsat, []) ∷ []

join_all-first_example :
    ((join_all two_answers (solve_cube [] two_slaves).0).1
      ≡ elim (first_answer two_answers) [ none ↦ [] | some a ↦ report two_slaves a ])
    × ((join_all two_answers (solve_cube [] two_slaves).0).0.globals
        ≡ elim (first_answer two_answers) [
          | none ↦ two_slaves.globals
          | some a ↦ final_globals two_slaves a
        ])
join_all-first_example = join_all-first two_answers [] two_slaves refl

abbrev running : Globals
running = record { global_ending = false; final_result = unknown; final_model = [] }

-- The worker enters its wait, and is started while it does.
run-waits_example :
    (w : SequentialWorker) × (run
        (working unknown []
          ∷ working unknown []
          ∷ starting []
          ∷ working unknown []
          ∷ controlling
          ∷ working unknown []
          ∷ controlling
          ∷ controlling
          ∷ controlling
          ∷ [])
        (new_worker (some 3) true running)
      ≡ some w)
    × ((worker_holds w.point && control_holds w.control) ≡ false)
    × ((waits w.point && not w.interrupt && is_idle w.control) ≡ false)
run-waits_example = run-waits 3 true running (
    working unknown []
    ∷ working unknown []
    ∷ starting []
    ∷ working unknown []
    ∷ controlling
    ∷ working unknown []
    ∷ controlling
    ∷ controlling
    ∷ controlling
    ∷ [])

destroy-IsStuck_example :
    (v : SequentialWorker) × (run
        (alone ((unsat, []) ∷ (unsat, []) ∷ []))
        (destroy (new_worker (some 3) true running))
      ≡ some v)
    × (is_ended v.point ≡ false)
    × (v.globals.global_ending ≡ false)
unfolding new_worker
destroy-IsStuck_example =
    destroy-IsStuck 3 (new_worker (some 3) true running) ((unsat, []) ∷ (unsat, []) ∷ []) refl refl
      refl
