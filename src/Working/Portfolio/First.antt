-- ===== src/Working/Portfolio/First.antt =====
-- The answers of a portfolio whose workers join in some order.
use mathlib.Core.List.{append-nil}
use dpainless.Prelude.{
  Bool-cases, inl, inr, List, [], ◌∷◌, ◌++◌, Option, none, some, ℤ, true, false, map, if◌then◌else◌,
  ◌≡◌, refl, arith,
}
use dpainless.Working.Strategy.{SatResult, Call, set_interrupt, join_parent, Globals}
use dpainless.Working.Portfolio.{Portfolio, is_unknown, set_result, solve_cube, join, join_all}

-- The first answer that is not UNKNOWN.
abbrev pub first_answer : List (SatResult × List ℤ) → Option (SatResult × List ℤ)
first_answer [] = none
first_answer ((res, model) ∷ answers) =
    if is_unknown res then first_answer answers else some (res, model)

-- What the portfolio does with its answer.
abbrev pub report : Portfolio → SatResult × List ℤ → List Call
report p (res, model) =
    if p.has_parent
    then map set_interrupt p.slaves ++ join_parent res model ∷ []
    else map set_interrupt p.slaves

abbrev pub final_globals : Portfolio → SatResult × List ℤ → Globals
final_globals p (res, model) = if p.has_parent then p.globals else set_result res model p.globals

join-ended :
    (res : SatResult) (model : List ℤ) (p : Portfolio)
    → p.strategy_ending ≡ true
    → join res model p ≡ (p, [])
unfolding join
join-ended res model p e = ground arith

join_all-ended :
    (answers : List (SatResult × List ℤ)) (p : Portfolio)
    → p.strategy_ending ≡ true
    → join_all answers p ≡ (p, [])
unfolding join_all
join_all-ended [] p e = refl
join_all-ended ((res, model) ∷ answers) p e =
    rw (join-ended res model p e, join_all) (rw (join_all-ended answers p e, join_all) refl)

join-ignored :
    (res : SatResult) (model : List ℤ) (p : Portfolio)
    → is_unknown res ≡ true
    → join res model p ≡ (p, [])
unfolding join
join-ignored res model p e = rw e refl

-- The portfolio after its answer.
abbrev pub answered : Portfolio → SatResult × List ℤ → Portfolio
answered p a = record p { strategy_ending = true; globals = final_globals p a }

pub join-answered :
    (res : SatResult) (model : List ℤ) (p : Portfolio)
    → is_unknown res ≡ false
    → p.strategy_ending ≡ false
    → p.globals.global_ending ≡ false
    → join res model p ≡ (answered p (res, model), report p (res, model))
unfolding join
join-answered res model p u e g = elim (Bool-cases p.has_parent) [
  | inl y ↦ rw (u, e, g, y) refl
  | inr n ↦ rw (u, e, g, n) refl
]

join_all-running :
    (answers : List (SatResult × List ℤ)) (p : Portfolio)
    → p.strategy_ending ≡ false
    → p.globals.global_ending ≡ false
    → ((join_all answers p).1 ≡ elim (first_answer answers) [ none ↦ [] | some a ↦ report p a ])
      × ((join_all answers p).0.globals
          ≡ elim (first_answer answers) [ none ↦ p.globals | some a ↦ final_globals p a ])
unfolding join_all
join_all-running [] p e g = (refl, refl)
join_all-running ((res, model) ∷ answers) p e g = elim (Bool-cases (is_unknown res)) [
  | inl u ↦ rw u (join_all-running answers p e g)
  | inr u ↦
      rw (join-answered res model p u e g, join_all)
        (rw (join_all-ended answers (answered p (res, model)) refl, join_all)
          (rw u (append-nil (report p (res, model)), refl)))
]

pub join_all-first :
    (answers : List (SatResult × List ℤ)) (cube : List ℤ) (p : Portfolio)
    → p.globals.global_ending ≡ false
    → ((join_all answers (solve_cube cube p).0).1
        ≡ elim (first_answer answers) [ none ↦ [] | some a ↦ report p a ])
      × ((join_all answers (solve_cube cube p).0).0.globals
          ≡ elim (first_answer answers) [ none ↦ p.globals | some a ↦ final_globals p a ])
unfolding solve_cube
join_all-first answers cube p e =
    join_all-running answers (record p { strategy_ending = false }) refl e
