-- ===== src/Working/Strategy.antt =====
-- working/WorkingStrategy.h and the result codes of solvers/SolverInterface.h.
use dpainless.Prelude.{ℕ, List, ℤ, Bool}

pub data SatResult : Type 0 where
  sat unsat unknown : SatResult

-- What a strategy does to other objects, in the order of the calls. A worker, a sharer or a solver is
-- known by its number.
pub data Call : Type 0 where
  solve : ℕ → List ℤ → Call
  set_interrupt unset_interrupt : ℕ → Call
  add_consumer add_producer remove_consumer remove_producer : ℕ → ℕ → Call
  release_solver : ℕ → Call
  signal_lists : Call
  join_parent : SatResult → List ℤ → Call

-- The global variables of painless.cpp.
pub record Globals : Type 0 where
  pub global_ending : Bool
  pub final_result : SatResult
  pub final_model : List ℤ
