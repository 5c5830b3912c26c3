-- ===== src/Main.antt =====
-- painless.cpp, main: the solvers, sharers and working strategies that the settings ask for, up to the
-- start. An index past the end of the vector of solvers is a fault.
pub mod Starts
use dpainless.Prelude.{
  ℕ, zero, suc, ◌+◌, ◌-◌, ◌*◌, ◌/◌, List, [], ◌∷◌, ◌++◌, Option, none, some, Bool, true, false,
  ◌&&◌, ◌||◌, ltb, ◌==◌, if◌then◌else◌, map, get_elem?, length,
}
use dpainless.Solvers.Factory.{lingeling, Solver, Factory, push_new, Choice, create_solvers}

-- The values of the parameters solver, c, wkr-strat, copy-mode and shr-strat.
pub record Settings : Type 0 where
  pub choice : Choice
  pub cpus : ℕ
  pub wkr_strat : ℕ
  pub copy_mode : ℕ
  pub shr_strat : ℕ

-- `nSolvers`
unfoldable pub n_solvers : Settings → ℕ
n_solvers s =
    if s.wkr_strat == 2 || (s.wkr_strat == 5 || (s.wkr_strat == 4 && s.copy_mode == 2))
    then 1
    else if s.wkr_strat == 3
    then s.cpus / 3
    else s.cpus

-- The solver for cube and conquer comes behind those of the portfolio.
unfoldable pub make_solvers : Settings → ℕ → ℕ → Option Factory
unfolding push_new
make_solvers s rank fit = elim (create_solvers s.choice (n_solvers s) rank fit) [
  | none ↦ none
  | some f ↦ some (if s.wkr_strat == 3 then push_new lingeling f else f)
]

-- `solvers[0]`, ..., `solvers[k - 1]`
unfoldable pub first_solvers : ℕ → List (Option Solver) → Option (List (Option Solver))
first_solvers zero ss = some []
first_solvers (suc k) [] = none
first_solvers (suc k) (s ∷ ss) = elim (first_solvers k ss) [
  | none ↦ none
  | some rest ↦ some (s ∷ rest)
]

pub data SharingKind : Type 0 where
  simple hordesat distribution : SharingKind

-- A sharer with its producers; the consumers are all solvers.
pub record SharerPlan : Type 0 where
  pub kind : SharingKind
  pub from : List (Option Solver)

abbrev pub one_sharer : SharingKind → List (Option Solver) → SharerPlan
one_sharer kind from = record { kind = kind; from = from }

-- `switch(shr-strat)`
unfoldable pub start_sharers : Settings → List (Option Solver) → Option (List SharerPlan)
unfolding first_solvers
start_sharers s ss =
    if s.shr_strat == 1
    then some (one_sharer simple ss ∷ [])
    else if s.shr_strat == 2
    then elim (first_solvers s.cpus ss) [
      | none ↦ none
      | some from ↦ some (map (λ p. one_sharer hordesat (p ∷ [])) from)
    ]
    else if s.shr_strat == 3
    then some (one_sharer hordesat ss ∷ [])
    else if s.shr_strat == 4
    then elim (first_solvers (n_solvers s) ss) [
      | none ↦ none
      | some from ↦ elim (get_elem? ss (n_solvers s)) [
        | none ↦ none
        | some last ↦ some (one_sharer simple from ∷ one_sharer hordesat (last ∷ []) ∷ [])
      ]
    ]
    else if s.shr_strat == 5
    then some (one_sharer distribution ss ∷ [])
    else some []

-- A working strategy by what it starts with: its workers' solvers, or the processes of its dispatchers.
pub data WorkingPlan : Type 0 where
  nothing : WorkingPlan
  portfolio : List (Option Solver) → WorkingPlan
  cube_and_conquer : ℕ → Option Solver → WorkingPlan
  portfolio_and_cube : List (Option Solver) → ℕ → Option Solver → WorkingPlan
  divide_and_conquer : List (Option Solver) → WorkingPlan
  distributed : Option ℕ → List (Option Solver) → WorkingPlan

abbrev pub with_plan :
    Option (List (Option Solver)) → (List (Option Solver) → WorkingPlan) → Option WorkingPlan
with_plan none plan = none
with_plan (some ss) plan = some (plan ss)

abbrev pub with_solver : Option (Option Solver) → (Option Solver → WorkingPlan) → Option WorkingPlan
with_solver none plan = none
with_solver (some s) plan = some (plan s)

-- `new SequentialWorker(NULL)`
abbrev pub empty_workers : ℕ → List (Option Solver)
empty_workers zero = []
empty_workers (suc k) = none ∷ empty_workers k

-- The child strategies of wkr-strat 3.
abbrev pub both_children : Settings → List (Option Solver) → Option WorkingPlan
both_children s ss = elim (first_solvers (n_solvers s) ss) [
  | none ↦ none
  | some pf ↦
      with_solver (get_elem? ss (n_solvers s)) (portfolio_and_cube pf (s.cpus - n_solvers s))
]

-- `switch(wkr-strat)`; a dispatcher for each process stands at rank 0.
unfoldable pub start_working : Settings → ℕ → ℕ → List (Option Solver) → Option WorkingPlan
unfolding first_solvers
start_working s mpi_rank mpi_size ss =
    if s.wkr_strat == 1
    then with_plan (first_solvers s.cpus ss) portfolio
    else if s.wkr_strat == 2
    then with_solver (get_elem? ss 0) (cube_and_conquer s.cpus)
    else if s.wkr_strat == 3
    then both_children s ss
    else if s.wkr_strat == 4
    then (if s.copy_mode == 2
        then with_solver (get_elem? ss 0) (λ p. divide_and_conquer (p ∷ empty_workers (s.cpus - 1)))
        else with_plan (first_solvers s.cpus ss) divide_and_conquer)
    else if s.wkr_strat == 6
    then with_plan (first_solvers s.cpus ss)
        (distributed (if mpi_rank == 0 then some mpi_size else none))
    else some nothing

-- What is started, in the order of main.
pub record Setup : Type 0 where
  pub factory : Factory
  pub sharers : List SharerPlan
  pub working : WorkingPlan

unfoldable pub set_up : Settings → ℕ → ℕ → ℕ → Option Setup
unfolding make_solvers start_sharers start_working
set_up s mpi_rank mpi_size fit = elim (make_solvers s mpi_rank fit) [
  | none ↦ none
  | some f ↦ elim (start_sharers s f.solvers) [
    | none ↦ none
    | some sharers ↦ elim (start_working s mpi_rank mpi_size f.solvers) [
      | none ↦ none
      | some working ↦ some (record { factory = f; sharers = sharers; working = working })
    ]
  ]
]
