-- ===== src/Working/Divide.antt =====
-- working/DivideAndConquer.cpp. Times are left out: they decide when a worker has worked long enough
-- to be interrupted, which is here a matter of when `master_round` is called, and are logged.
pub mod Balance
pub mod Joins
pub mod Cover
pub mod Cases
pub mod Search
pub mod Answer
use dpainless.Prelude.{
  ℕ, zero, suc, ◌+◌, ◌-◌, List, [], ◌∷◌, ◌++◌, Option, none, some, ℤ, neg, Bool, true, false, not,
  map, length, ◌==◌, ltb, if◌then◌else◌,
}
use dpainless.Working.Strategy.{
  SatResult, sat, unsat, unknown, Call, solve, set_interrupt, add_consumer, add_producer,
  remove_consumer, remove_producer, release_solver, signal_lists, join_parent, Globals,
}
use dpainless.Working.Vectors.{
  get_head, remove_from_vector, does_vector_contain, add_once_to_vector_tail,
  add_once_to_vector_head,
}

-- `cubes` and `solver` are maps from a worker; `has_parent` tells if there is a parent strategy.
pub record DivideAndConquer : Type 0 where
  pub slaves : List ℕ
  pub overs : List ℕ
  pub workers : List ℕ
  pub workers_splitting : List ℕ
  pub overs_splitting : List ℕ
  pub n_workers : ℕ
  pub n_divisions : ℕ
  pub n_cancelled_divisions : ℕ
  pub cubes : ℕ → List ℤ
  pub solver : ℕ → Option ℕ
  pub clone_strategy : ℕ
  pub n_sharers : ℕ
  pub actual_cube : List ℤ
  pub strategy_ending : Bool
  pub has_parent : Bool
  pub globals : Globals

-- A new state and the calls that were made. `none`: a pointer is used that was not set.
abbrev pub Result : Type 0
Result = Option (DivideAndConquer × List Call)

abbrev pub update {ℓ} : {A : Type ℓ} → (ℕ → A) → ℕ → A → ℕ → A
update f w a v = if v == w then a else f v

-- The start of the master's thread.
unfoldable pub launch : DivideAndConquer → Result
unfolding get_head
launch dc = elim (get_head (dc.overs ++ dc.slaves)) [
  | none ↦ none
  | some (w, rest) ↦ some (
    record dc {
      overs = rest;
      workers = dc.workers ++ w ∷ [];
      n_workers = dc.n_workers + 1;
      cubes = λ v. if does_vector_contain dc.slaves v then dc.actual_cube else dc.cubes v;
    },
    solve w (if does_vector_contain dc.slaves w then dc.actual_cube else dc.cubes w) ∷ [],
  )
]

-- A round of the master's loop that finds a worker that has worked long enough, and an over.
unfoldable pub interrupt_worker :
    ℕ → List ℕ → ℕ → List ℕ → DivideAndConquer → DivideAndConquer × List Call
interrupt_worker w workers o overs dc = (
  record dc {
    overs = overs;
    workers = workers;
    workers_splitting = add_once_to_vector_tail dc.workers_splitting w;
    overs_splitting = add_once_to_vector_tail dc.overs_splitting o;
  },
  set_interrupt w ∷ [],
)

-- The critical section of a round of the master's loop: what follows the wait for an over and a
-- worker. The flags that end the loop are read before the wait, and may have changed since.
unfoldable pub master_round : DivideAndConquer → Result
unfolding interrupt_worker get_head
master_round dc = if dc.n_workers == 0 then some (dc, []) else elim (get_head dc.workers) [
  | none ↦ none
  | some (w, workers) ↦ elim (get_head dc.overs) [
    | none ↦ none
    | some (o, overs) ↦ some (interrupt_worker w workers o overs dc)
  ]
]

-- The loop over the sharers, from the `j`-th on, that adds or removes a solver.
unfoldable pub sharer_calls : (ℕ → ℕ → Call) → (ℕ → ℕ → Call) → ℕ → ℕ → ℕ → List Call
sharer_calls consumer producer zero j s = []
sharer_calls consumer producer (suc rounds) j s =
    consumer j s ∷ producer j s ∷ sharer_calls consumer producer rounds (j + 1) s

-- The block that copies a solver; `cloned` is what `cloneSolver` returned. A sharer cannot be given
-- a null pointer.
unfoldable pub clone_calls : ℕ → Option ℕ → Option (List Call)
unfolding sharer_calls
clone_calls zero cloned = some []
clone_calls (suc n) none = none
clone_calls (suc n) (some s) = some (sharer_calls add_consumer add_producer (suc n) 0 s)

unfoldable pub division_calls : DivideAndConquer → Option ℕ → Option (List Call)
unfolding clone_calls
division_calls dc cloned =
    if dc.clone_strategy == 2 then clone_calls dc.n_sharers cloned else some []

-- The cubes after `current` has split for `over` on `var`.
unfoldable pub split_cubes : ℕ → ℕ → ℤ → (ℕ → List ℤ) → ℕ → List ℤ
split_cubes current over var cubes =
    let copied = update cubes over (cubes current) in
    let pushed = update copied current (copied current ++ var ∷ []) in
    update pushed over (pushed over ++ neg var ∷ [])

-- The rest of the branch for UNKNOWN, with the over at hand and the calls of the copying.
unfoldable pub split_with :
    ℕ → ℕ → List ℕ → ℤ → Option ℕ → List Call → DivideAndConquer → DivideAndConquer × List Call
unfolding split_cubes
split_with current over rest var cloned calls dc =
    let cubes = split_cubes current over var dc.cubes in
    (
      record dc {
        n_divisions = dc.n_divisions + 1;
        overs_splitting = rest;
        workers_splitting = remove_from_vector dc.workers_splitting current;
        solver = if dc.clone_strategy == 2 then update dc.solver over cloned else dc.solver;
        cubes = cubes;
        workers = dc.workers ++ current ∷ over ∷ [];
        n_workers = dc.n_workers + 1;
      },
      calls
          ++ solve current (cubes current)
            ∷ solve over (cubes over)
            ∷ (if length dc.overs == 0 then [] else signal_lists ∷ []),
    )

-- `join` with UNKNOWN: the worker was interrupted to split. `over` is read though the vector of
-- overs to split may be empty.
unfoldable pub join_unknown : ℕ → ℤ → Option ℕ → DivideAndConquer → Result
unfolding split_with get_head
join_unknown current var cloned dc = elim (get_head dc.overs_splitting) [
  | none ↦ none
  | some (over, rest) ↦ elim (division_calls dc cloned) [
    | none ↦ none
    | some calls ↦ some (split_with current over rest var cloned calls dc)
  ]
]

-- From `mutexFirstSolution` on: only the first result counts.
unfoldable pub finish : SatResult → List ℤ → DivideAndConquer → DivideAndConquer × List Call
finish res model dc =
    if dc.strategy_ending
    then (dc, [])
    else if dc.has_parent
    then (
      record dc { strategy_ending = true },
      map set_interrupt dc.slaves ++ join_parent res model ∷ [],
    )
    else (
      record dc {
        strategy_ending = true;
        globals = record {
          global_ending = true;
          final_result = res;
          final_model = elim res [
            | sat ↦ model
            | unsat ↦ dc.globals.final_model
            | unknown ↦ dc.globals.final_model
          ];
        };
      },
      map set_interrupt dc.slaves,
    )

-- The lists of the branch for UNSAT: a worker that was to split cancels the division.
unfoldable pub retire : ℕ → DivideAndConquer → Option DivideAndConquer
unfolding get_head
retire current dc =
    if does_vector_contain dc.workers_splitting current
    then elim (get_head dc.overs_splitting) [
      | none ↦ none
      | some (old_over, rest) ↦ some (record dc {
        n_cancelled_divisions = dc.n_cancelled_divisions + 1;
        overs_splitting = rest;
        overs = add_once_to_vector_tail (add_once_to_vector_head dc.overs old_over) current;
        workers_splitting = remove_from_vector dc.workers_splitting current;
        n_workers = dc.n_workers - 1;
      })
    ]
    else some (record dc {
      workers = remove_from_vector dc.workers current;
      overs = add_once_to_vector_tail dc.overs current;
      n_workers = dc.n_workers - 1;
    })

-- The solver of a worker that is done, if solvers are copied at a division.
unfoldable pub drop_solver : ℕ → DivideAndConquer → DivideAndConquer × List Call
unfolding sharer_calls
drop_solver current dc =
    if dc.clone_strategy == 2
    then (
      record dc { solver = update dc.solver current none },
      elim (dc.solver current) [
        | none ↦ []
        | some s ↦
            sharer_calls remove_consumer remove_producer dc.n_sharers 0 s ++ release_solver s ∷ []
      ],
    )
    else (dc, [])

-- `join` with UNSAT, once the lists are updated. The last worker ends the search.
unfoldable pub after_retire : ℕ → List ℤ → DivideAndConquer → DivideAndConquer × List Call
unfolding drop_solver finish
after_retire current model dc =
    let signal = if length dc.workers == 0 then [] else signal_lists ∷ [] in
    let (dc', calls) =
      if ltb 0 dc.n_workers then drop_solver current dc else finish unsat model dc in
    (dc', signal ++ set_interrupt current ∷ calls)

unfoldable pub join : ℕ → SatResult → List ℤ → ℤ → Option ℕ → DivideAndConquer → Result
unfolding join_unknown retire after_retire finish
join current unknown model var cloned dc = join_unknown current var cloned dc
join current unsat model var cloned dc = elim (retire current dc) [
  | none ↦ none
  | some dc' ↦ some (after_retire current model dc')
]
join current sat model var cloned dc = some (finish sat model dc)
