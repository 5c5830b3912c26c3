-- ===== src/Solvers/Factory.antt =====
-- solvers/SolverFactory.cpp: the solvers that are made, with their numbers, and the phases that they are
-- given. The solvers themselves are not modelled here; the formula is loaded into each that is not a
-- clone.
pub mod Ids
pub mod Phases
use dpainless.Prelude.{
  ℕ, zero, suc, ◌+◌, ◌-◌, ◌*◌, ◌/◌, ◌%◌, List, [], ◌∷◌, ◌++◌, Option, none, some, Bool, true, false,
  ltb, ◌==◌, if◌then◌else◌, get_elem?,
}

pub data SolverType : Type 0 where
  glucose lingeling minisat maple : SolverType

pub record Solver : Type 0 where
  pub id : ℕ
  pub kind : SolverType

-- A vector of solvers, with NULL where there is none, and `currentIdSolver`.
pub record Factory : Type 0 where
  pub solvers : List (Option Solver)
  pub current_id : ℕ

-- `solvers.push_back(create...Solver())`
unfoldable pub push_new : SolverType → Factory → Factory
push_new kind f = record f {
  solvers = f.solvers ++ some (record { id = f.current_id; kind = kind }) ∷ [];
  current_id = f.current_id + 1;
}

abbrev pub can_clone : SolverType → Bool
can_clone minisat = false
can_clone glucose = true
can_clone lingeling = true
can_clone maple = true

-- There is no copy of a MiniSat solver; its number is used up.
unfoldable pub clone_solver : Solver → ℕ → Option Solver
clone_solver other id =
    if can_clone other.kind then some (record { id = id; kind = other.kind }) else none

-- An index out of range, or NULL, is `none`.
abbrev pub at_index : Option (Option Solver) → Option Solver
at_index none = none
at_index (some s) = s

-- `solvers.push_back(cloneSolver(solvers[i]))`; `none`: there is no such solver.
unfoldable pub push_clone : ℕ → Factory → Option Factory
unfolding clone_solver
push_clone i f = elim (at_index (get_elem? f.solvers i)) [
  | none ↦ none
  | some other ↦ some (record {
    solvers = f.solvers ++ clone_solver other f.current_id ∷ [];
    current_id = f.current_id + 1;
  })
]

-- The loops over the clones of the first solver, and over the MiniSat solvers.
unfoldable pub push_clones : ℕ → Factory → Option Factory
unfolding push_clone
push_clones zero f = some f
push_clones (suc k) f = elim (push_clone 0 f) [ none ↦ none | some f' ↦ push_clones k f' ]

unfoldable pub push_minisats : ℕ → Factory → Factory
unfolding push_new
push_minisats zero f = f
push_minisats (suc k) f = push_minisats k (push_new minisat f)

-- `switch(i % 3)`
unfoldable pub push_combo : ℕ → Factory → Option Factory
unfolding push_new push_clone
push_combo i f =
    if i % 3 == 0
    then (if i == 0 then some (push_new glucose f) else push_clone 0 f)
    else if i % 3 == 1
    then (if i == 1 then some (push_new lingeling f) else push_clone 1 f)
    else some (push_new minisat f)

-- k solvers are left to be made from the i-th on.
unfoldable pub push_combos : ℕ → ℕ → Factory → Option Factory
unfolding push_combo
push_combos zero i f = some f
push_combos (suc k) i f = elim (push_combo i f) [ none ↦ none | some f' ↦ push_combos k (i + 1) f' ]

-- The parameter `solver` of painless.cpp.
pub data Choice : Type 0 where
  only_glucose only_lingeling only_maple combo only_minisat : Choice

-- `currentIdSolver.store(mpiRank * nbSolvers)`, before any solver is made.
abbrev pub numbered_from : ℕ → ℕ → Factory
numbered_from mpi_rank nb_solvers = record { solvers = []; current_id = mpi_rank * nb_solvers }

-- At most as many as fit into the memory; the first is made in any case.
abbrev pub fit_memory : ℕ → ℕ → ℕ
fit_memory nb_solvers max_memory_solvers =
    if ltb max_memory_solvers nb_solvers then max_memory_solvers else nb_solvers

-- The five functions create...Solvers, on a number of solvers that is not negative. How many solvers fit
-- into the memory is known once the first is made.
unfoldable pub create_solvers : Choice → ℕ → ℕ → ℕ → Option Factory
unfolding push_new push_clones push_minisats push_combos
create_solvers only_glucose nb rank fit =
    push_clones (fit_memory nb fit - 1) (push_new glucose (numbered_from rank nb))
create_solvers only_lingeling nb rank fit =
    push_clones (nb - 1) (push_new lingeling (numbered_from rank nb))
create_solvers only_maple nb rank fit =
    push_clones (fit_memory nb fit - 1) (push_new maple (numbered_from rank nb))
create_solvers combo nb rank fit = push_combos nb 0 (numbered_from rank nb)
create_solvers only_minisat nb rank fit = some (push_minisats nb (numbered_from rank nb))

-- The variables that `sparseDiversification` sets to true in one solver: from `var` on, with some fuel.
unfoldable pub sparse_from : ℕ → ℕ → ℕ → ℕ → ℕ → List ℕ
sparse_from zero total vars shift var = []
sparse_from (suc fuel) total vars shift var = elim (ltb (var + total) vars) [
  | true ↦ (var + shift) ∷ sparse_from fuel total vars shift (var + total)
  | false ↦ []
]

-- `sparseDiversification`, for solver sid of a process.
unfoldable pub sparse_diversification : ℕ → ℕ → ℕ → ℕ → ℕ → List ℕ
unfolding sparse_from
sparse_diversification vars n_solvers mpi_rank mpi_size sid =
    sparse_from vars (mpi_size * n_solvers) vars (mpi_rank * n_solvers + sid) 1

-- The variables with their phases that `sparseRandomDiversification` sets in one solver. The draws are
-- what `rand` returns one after the other: one for each step, and one more where it is a multiple of
-- the number of solvers, which is positive.
unfoldable pub sparse_random_from : ℕ → ℕ → ℕ → ℕ → ℕ → ℕ → (ℕ → ℕ) → ℕ → List (ℕ × Bool)
sparse_random_from zero n_solvers total vars shift var draws i = []
sparse_random_from (suc fuel) n_solvers total vars shift var draws i =
    elim (ltb (var + total) vars) [
      | false ↦ []
      | true ↦ elim (draws i % n_solvers == 0) [
        | true ↦
            (var + shift, draws (i + 1) % 2 == 1)
            ∷ sparse_random_from fuel n_solvers total vars shift (var + total) draws (i + 2)
        | false ↦ sparse_random_from fuel n_solvers total vars shift (var + total) draws (i + 1)
      ]
    ]

-- `sparseRandomDiversification`, for solver sid of a process, with the draws behind `srand(sid)`.
unfoldable pub sparse_random_diversification : ℕ → ℕ → ℕ → ℕ → ℕ → (ℕ → ℕ) → List (ℕ × Bool)
unfolding sparse_random_from
sparse_random_diversification vars n_solvers mpi_rank mpi_size sid draws =
    sparse_random_from vars n_solvers (mpi_size * n_solvers) vars (mpi_rank * n_solvers + sid) 1
      draws 0

-- `randomDiversification`: the phase of a variable from 1 to vars in solver sid, with the draws behind
-- `srand(seed)`; each solver takes one draw for each variable.
unfoldable pub random_phase : ℕ → (ℕ → ℕ) → ℕ → ℕ → Bool
random_phase vars draws sid var = draws (sid * vars + (var - 1)) % 2 == 1

-- `while (tmp > 0) { tmp >>= 1; log++; }`, with some fuel.
unfoldable pub log_of : ℕ → ℕ → ℕ → ℕ
log_of zero tmp log = log
log_of (suc fuel) tmp log = elim (ltb 0 tmp) [
  | true ↦ log_of fuel (tmp / 2) (log + 1)
  | false ↦ log
]

-- `(sid >> bit) & 1`
unfoldable pub bit_of : ℕ → ℕ → ℕ
bit_of sid zero = sid % 2
bit_of sid (suc bit) = bit_of (sid / 2) bit

-- The phase that `binValueDiversification` gives a variable, of those below `vars`.
unfoldable pub bin_value_phase : ℕ → ℕ → ℕ → Bool
unfolding log_of bit_of
bin_value_phase n_solvers sid var =
    if bit_of sid (var % log_of n_solvers n_solvers 0) == 1 then true else false

-- `nativeDiversification`: solver sid is diversified with this number.
unfoldable pub native_diversification : ℕ → ℕ → ℕ → ℕ
native_diversification n_solvers mpi_rank sid = mpi_rank * n_solvers + sid
