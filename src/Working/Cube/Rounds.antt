-- ===== src/Working/Cube/Rounds.antt =====
-- working/CubeAndConquer.cpp, mainMasterCubeAndConquer: the start of the search, and the rounds in
-- which the master divides sub-problems. The solvers can be cloned; the workers have stopped when a
-- round changes the vectors; the destructor of a worker is in Working.Sequential.
pub mod Erase
pub mod Sizes
pub mod Cover
pub mod Search
pub mod Answer
pub mod Again
use dpainless.Prelude.{
  ℕ, zero, suc, ◌+◌, ◌-◌, ◌*◌, ◌/◌, List, [], ◌∷◌, ◌++◌, ℤ, neg, length, ltb, leb, ◌==◌, map,
  if◌then◌else◌,
}
use dpainless.Working.Strategy.{Call, solve, set_interrupt, add_consumer, remove_consumer}
use dpainless.Working.Cube.{CubeAndConquer, solve_cube}

-- `for (int j = 0; j < nSharers; j++)`: the calls for a solver, from sharer j on.
unfoldable pub sharer_calls : (ℕ → ℕ → Call) → ℕ → ℕ → ℕ → List Call
sharer_calls call zero j s = []
sharer_calls call (suc n) j s = call j s ∷ sharer_calls call n (j + 1) s

-- What the solver of a target brings to its division: the variable that it names, and the unit
-- clauses that its clone takes over, which may be fewer than its own.
pub record Division : Type 0 where
  pub var : ℤ
  pub kept : List ℤ

-- A worker for a new clone joins the workers and the slaves.
unfoldable pub push_worker : List ℤ → CubeAndConquer → CubeAndConquer × List Call
unfolding sharer_calls
push_worker units c = (
  record c {
    workers = c.workers ++ c.created ∷ [];
    slaves = c.slaves ++ c.created ∷ [];
    units = λ w. if w == c.created then units else c.units w;
    created = c.created + 1;
  },
  sharer_calls add_consumer c.n_sharers 0 c.created,
)

-- `cc->slaves[0]->solve(cc->actualCube)`
abbrev first_call : List ℕ → List ℤ → List Call
first_call [] cube = []
first_call (s ∷ ss) cube = solve s cube ∷ []

-- The clone of the first slave is the root of the sub-problems.
unfoldable pub start : List ℤ → CubeAndConquer → CubeAndConquer × List Call
unfolding push_worker
start kept c =
    let (c', calls) = push_worker kept c in
    (c', calls ++ (first_call c'.slaves c'.actual_cube ++ solve c.created c'.actual_cube ∷ []))

-- `erase(remove(begin, end, w), end)`
unfoldable pub erase_worker : ℕ → List ℕ → List ℕ
erase_worker w [] = []
erase_worker w (v ∷ vs) = if v == w then erase_worker w vs else v ∷ erase_worker w vs

-- The workers that are over leave.
unfoldable pub erase_over : List ℕ → CubeAndConquer → CubeAndConquer × List Call
unfolding erase_worker sharer_calls
erase_over [] c = (record c { over = [] }, [])
erase_over (w ∷ ws) c =
    let (c', calls) =
      erase_over ws
        (record c { workers = erase_worker w c.workers; slaves = erase_worker w c.slaves }) in
    (c', sharer_calls remove_consumer c.n_sharers 0 w ++ calls)

-- `int time`, the seconds before the next round; it is cut off after the product with 1.5.
unfoldable pub next_time : ℕ → CubeAndConquer → ℕ
next_time time c =
    if leb (length c.workers) (c.max_cpus / 4)
    then 20
    else if leb c.max_cpus (length c.workers)
    then time * 3 / 2
    else time

unfoldable pub first_workers : ℕ → List ℕ → List ℕ
first_workers zero ws = []
first_workers (suc n) [] = []
first_workers (suc n) (w ∷ ws) = w ∷ first_workers n ws

-- The target goes on with the literal, its clone with the negation.
unfoldable pub divide : ℕ → Division → CubeAndConquer → CubeAndConquer × List Call
unfolding push_worker
divide target d c = push_worker (d.kept ++ neg d.var ∷ []) (record c {
  units = λ w. if w == target then c.units w ++ d.var ∷ [] else c.units w;
  n_jobs = c.n_jobs + 1;
})

unfoldable pub divide_all : List ℕ → (ℕ → Division) → CubeAndConquer → CubeAndConquer × List Call
unfolding divide
divide_all [] choose c = (c, [])
divide_all (t ∷ ts) choose c =
    let (c', calls) = divide t (choose t) c in
    let (c'', more) = divide_all ts choose c' in (c'', calls ++ more)

-- `maxNodes` is 8 * maxCpus. What `sort` does to the workers is its caller's to say.
unfoldable pub sort_if_many : (List ℕ → List ℕ) → CubeAndConquer → CubeAndConquer
sort_if_many sort c =
    if ltb (8 * c.max_cpus) (length c.workers * 2) then record c { workers = sort c.workers } else c

abbrev starts : List ℤ → List ℕ → List Call
starts cube = map (λ w. solve w cube)

-- `min(cc->maxCpus - 1, (int)cc->workers.size())` workers are started; at least one CPU is given.
unfoldable pub launch_round : CubeAndConquer → CubeAndConquer × List Call
unfolding first_workers
launch_round c =
    let launched = first_workers (c.max_cpus - 1) c.workers in
    (record c { next = length launched }, starts c.actual_cube launched)

-- One round, from the interruption of the workers on.
unfoldable pub round :
    (List ℕ → List ℕ) → (ℕ → Division) → CubeAndConquer → CubeAndConquer × List Call
unfolding erase_over first_workers divide_all sort_if_many launch_round
round sort choose c =
    let (erased, removals) = erase_over c.over c in
    let (divided, additions) =
      divide_all (first_workers (erased.max_cpus - 1) erased.workers) choose erased in
    let (launched, solves) = launch_round (sort_if_many sort divided) in
    (launched, map set_interrupt c.workers ++ (removals ++ (additions ++ solves)))

-- The call of solve, and what the master does once it is woken.
unfoldable pub begin : List ℤ → List ℤ → CubeAndConquer → CubeAndConquer × List Call
unfolding solve_cube start
begin cube kept c = start kept (solve_cube cube c)
