-- ===== src/Working/Portfolio.antt =====
-- working/Portfolio.cpp: all slaves work on the same cube, and the first answer counts.
pub mod First
use dpainless.Prelude.{ℕ, List, [], ◌∷◌, ◌++◌, ℤ, Bool, true, false, ◌||◌, map, if◌then◌else◌}
use dpainless.Working.Strategy.{
  SatResult, sat, unsat, unknown, Call, solve, set_interrupt, unset_interrupt, join_parent, Globals,
}

pub record Portfolio : Type 0 where
  pub slaves : List ℕ
  pub strategy_ending : Bool
  pub has_parent : Bool
  pub globals : Globals

unfoldable pub solve_cube : List ℤ → Portfolio → Portfolio × List Call
solve_cube cube p = (record p { strategy_ending = false }, map (λ w. solve w cube) p.slaves)

abbrev pub is_unknown : SatResult → Bool
is_unknown unknown = true
is_unknown sat = false
is_unknown unsat = false

-- The top strategy writes the globals; the model only for SAT.
unfoldable pub set_result : SatResult → List ℤ → Globals → Globals
set_result res model g = record {
  global_ending = true;
  final_result = res;
  final_model = elim res [ sat ↦ model | unsat ↦ g.final_model | unknown ↦ g.final_model ];
}

-- Who joins does not matter.
unfoldable pub join : SatResult → List ℤ → Portfolio → Portfolio × List Call
unfolding set_result
join res model p =
    if is_unknown res || p.strategy_ending || p.globals.global_ending
    then (p, [])
    else if p.has_parent
    then (
      record p { strategy_ending = true },
      map set_interrupt p.slaves ++ join_parent res model ∷ [],
    )
    else (
      record p { strategy_ending = true; globals = set_result res model p.globals },
      map set_interrupt p.slaves,
    )

-- The methods of the same names, and the destructor.
unfoldable pub set_all_interrupts : Portfolio → List Call
set_all_interrupts p = map set_interrupt p.slaves

unfoldable pub unset_all_interrupts : Portfolio → List Call
unset_all_interrupts p = map unset_interrupt p.slaves

-- Workers that join one after the other.
unfoldable pub join_all : List (SatResult × List ℤ) → Portfolio → Portfolio × List Call
unfolding join
join_all [] p = (p, [])
join_all ((res, model) ∷ answers) p =
    let (p', calls) = join res model p in
    let (p'', later) = join_all answers p' in (p'', calls ++ later)
