-- ===== src/Working/Cube.antt =====
-- working/CubeAndConquer.cpp: solve and join. The thread of the master is in Rounds.
pub mod Jobs
pub mod Rounds
use dpainless.Prelude.{
  ℕ, ◌+◌, ◌-◌, List, [], ◌∷◌, ◌++◌, Option, none, some, ℤ, Bool, true, false, not, ◌&&◌, ◌||◌, ◌==◌,
  ltb, map, get_elem?, if◌then◌else◌,
}
use dpainless.Working.Strategy.{
  SatResult, sat, unsat, unknown, Call, solve, set_interrupt, join_parent, Globals,
}
use dpainless.Working.Portfolio.{is_unknown, set_result}

-- The first slave searches the whole formula, the workers search sub-problems. A worker and its solver
-- have one number, in the order in which they are created; `units` are the unit clauses that were
-- added to a solver to cut out its sub-problem.
pub record CubeAndConquer : Type 0 where
  pub slaves : List ℕ
  pub workers : List ℕ
  pub over : List ℕ
  pub next : ℕ
  pub n_jobs : ℕ
  pub max_cpus : ℕ
  pub n_sharers : ℕ
  pub created : ℕ
  pub units : ℕ → List ℤ
  pub actual_cube : List ℤ
  pub wait_job : Bool
  pub strategy_ending : Bool
  pub has_parent : Bool
  pub globals : Globals

-- The cube is not used.
unfoldable pub solve_cube : List ℤ → CubeAndConquer → CubeAndConquer
solve_cube cube c = record c { strategy_ending = false; n_jobs = 1; wait_job = false }

abbrev pub is_unsat : SatResult → Bool
is_unsat unsat = true
is_unsat sat = false
is_unsat unknown = false

-- `strat == slaves[0]`; there is a first slave before the strategy starts.
abbrev pub is_first : ℕ → List ℕ → Bool
is_first w [] = false
is_first w (s ∷ ss) = w == s

-- The next worker that waits for its turn is started.
unfoldable pub start_next : CubeAndConquer → CubeAndConquer × List Call
start_next c = elim (get_elem? c.workers c.next) [
  | none ↦ (c, [])
  | some w ↦ (record c { next = c.next + 1 }, solve w c.actual_cube ∷ [])
]

unfoldable pub finish : SatResult → List ℤ → CubeAndConquer → CubeAndConquer × List Call
unfolding set_result
finish res model c =
    if c.has_parent
    then (
      record c { strategy_ending = true },
      map set_interrupt c.slaves ++ join_parent res model ∷ [],
    )
    else (
      record c { strategy_ending = true; globals = set_result res model c.globals },
      map set_interrupt c.slaves,
    )

-- A sub-problem has no model.
unfoldable pub lose_job : ℕ → List ℤ → CubeAndConquer → CubeAndConquer × List Call
unfolding start_next finish
lose_job w model c =
    if ltb 0 c.n_jobs
    then start_next (record c { over = c.over ++ w ∷ [] })
    else finish unsat model c

unfoldable pub join : ℕ → SatResult → List ℤ → CubeAndConquer → CubeAndConquer × List Call
unfolding lose_job finish
join w res model c =
    if is_unknown res || c.strategy_ending
    then (c, [])
    else if is_unsat res && not (is_first w c.slaves)
    then lose_job w model (record c { n_jobs = c.n_jobs - 1 })
    else finish res model c
