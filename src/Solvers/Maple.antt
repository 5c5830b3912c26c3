-- ===== src/Solvers/Maple.antt =====
-- solvers/Maple.cpp: the adapter of MapleCOMSPS, with the callbacks that its search calls.
pub mod Roundtrip
pub mod Ownership
pub mod Solving
pub mod Formula
pub mod Adapter
use dpainless.Prelude.{
  ℕ, zero, suc, ◌+◌, ◌-◌, ◌%◌, List, [], ◌∷◌, ◌++◌, Option, none, some, ℤ, pos, negsuc, neg, abs,
  length, get_elem?, ◌==◌, leb, ltb, Bool, true, false, map, if◌then◌else◌,
}
use dpainless.Clauses.Exchange.{
  ClauseExchange, M, pure, fault, lift, ◌>>=◌, ◌>>◌, live, alloc_clause, release_clause,
}
use dpainless.Clauses.Buffer.{BufferApi}
use dpainless.Solvers.Native.{Search, done, export_clause, import_unit, import_clause, SimpSolver}
use dpainless.Solvers.Literals.{mini_lit, int_lit, pred}
use dpainless.Working.Strategy.{SatResult, sat, unsat, unknown}

abbrev pub result_of : Option Bool → SatResult
result_of none = unknown
result_of (some true) = sat
result_of (some false) = unsat

-- The literal of the variable with index `i`, by its value.
abbrev pub model_lit : ℕ → Bool → ℤ
model_lit i true = pos (i + 1)
model_lit i false = neg (pos (i + 1))

-- The loop of `getModel`, with the rounds that are left. `none` reads behind the end.
unfoldable pub model_from : ℕ → ℕ → List (Option Bool) → Option (List ℤ)
model_from zero i values = some []
model_from (suc rounds) i values = elim (get_elem? values i) [
  | none ↦ none
  | some v ↦ elim (model_from rounds (i + 1) values) [
    | none ↦ none
    | some ls ↦ some (elim v [ none ↦ ls | some b ↦ model_lit i b ∷ ls ])
  ]
]

module _ {T L B : Type 0} (solver : SimpSolver T L) (api : BufferApi B) where
  -- `core` is the state of the solver.
  pub record Maple : Type 0 where
    pub id : ℕ
    pub core : T
    pub lbd_limit : ℕ
    pub stop_solver : Bool
    pub clauses_to_import : B
    pub units_to_import : B
    pub clauses_to_export : B
    pub clauses_to_add : B

  -- Both constructors, with a new core or the copy of another's.
  unfoldable pub new_maple : ℕ → ℕ → T → Maple
  new_maple id lbd_limit core = record {
    id = id;
    core = core;
    lbd_limit = lbd_limit;
    stop_solver = false;
    clauses_to_import = api.empty;
    units_to_import = api.empty;
    clauses_to_export = api.empty;
    clauses_to_add = api.empty;
  }

  unfoldable pub make_mini_vec : ClauseExchange → List L
  make_mini_vec cls = map (mini_lit solver) cls.lits

  unfoldable pub cbk_export_clause : ℕ → List L → Maple → M Maple
  cbk_export_clause lbd cls m = if ltb m.lbd_limit lbd then pure m else do
    ncls ← alloc_clause (some lbd) (pos m.id) (length cls) (map (int_lit solver) cls)
    pure (record m { clauses_to_export = api.add_clause m.clauses_to_export ncls })

  unfoldable pub take_unit : ClauseExchange → Maple → M (L × Maple)
  take_unit cls m = do
    live cls
    l ← lift (get_elem? cls.lits 0)
    release_clause cls
    pure (mini_lit solver l, m)

  unfoldable pub cbk_import_unit : Maple → M (L × Maple)
  unfolding take_unit
  cbk_import_unit m =
      let (cls, rest) = api.get_clause m.units_to_import in
      let m' = record m { units_to_import = rest } in
      elim cls [ none ↦ pure (solver.lit_undef, m') | some c ↦ take_unit c m' ]

  unfoldable pub take_clause : ClauseExchange → Maple → M (Option (Option ℕ × List L) × Maple)
  unfolding make_mini_vec
  take_clause cls m = do live cls; release_clause cls; pure (some (cls.lbd, make_mini_vec cls), m)

  unfoldable pub cbk_import_clause : Maple → M (Option (Option ℕ × List L) × Maple)
  unfolding take_clause
  cbk_import_clause m =
      let (cls, rest) = api.get_clause m.clauses_to_import in
      let m' = record m { clauses_to_import = rest } in
      elim cls [ none ↦ pure (none, m') | some c ↦ take_clause c m' ]

  -- A search with the callbacks that it calls.
  unfoldable pub run_search : Search T L → Maple → M (Option Bool × Maple)
  unfolding cbk_export_clause cbk_import_unit cbk_import_clause
  run_search (done answer core) m = pure (answer, record m { core = core })
  run_search (export_clause lbd cls next) m = cbk_export_clause lbd cls m >>= run_search next
  run_search (import_unit next) m = cbk_import_unit m >>= λ (l, m'). run_search (next l) m'
  run_search (import_clause next) m = cbk_import_clause m >>= λ (c, m'). run_search (next c) m'

  unfoldable pub set_solver_interrupt : Maple → Maple
  set_solver_interrupt m = record m { stop_solver = true; core = solver.interrupt m.core }

  unfoldable pub unset_solver_interrupt : Maple → Maple
  unset_solver_interrupt m = record m { stop_solver = false; core = solver.clear_interrupt m.core }

  -- `id % 4 >= 2` and the like, with ID_XOR = 1.
  unfoldable pub diversify : ℕ → Maple → Maple
  diversify id m =
      let ge = solver.set_ge (id == 1) m.core in
      let vsids = solver.set_vsids (if id % 2 == 0 then true else false) ge in
      record m { core = solver.set_verso (if leb 2 (id % 4) then false else true) vsids }

  -- The loop of `solve` over the clauses that were added. `false`: the solver refused one, and the
  -- clauses behind it, which are given back here, are forgotten.
  unfoldable pub add_waiting : List ClauseExchange → Maple → M (Bool × List ClauseExchange × Maple)
  unfolding make_mini_vec
  add_waiting [] m = pure (true, [], m)
  add_waiting (c ∷ cs) m = do
    live c
    release_clause c
    let (accepted, core) = solver.add_clause (make_mini_vec c) m.core
    elim accepted [
      | false ↦ pure (false, cs, record m { core = core })
      | true ↦ add_waiting cs (record m { core = core })
    ]

  unfoldable pub search_cube : List ℤ → Maple → M (SatResult × Maple)
  unfolding run_search
  search_cube cube m = do
    (answer, m') ← run_search (solver.solve_limited (map (mini_lit solver) cube) m.core) m
    pure (result_of answer, m')

  -- With the clauses that are forgotten.
  unfoldable pub solve : List ℤ → Maple → M (SatResult × List ClauseExchange × Maple)
  unfolding unset_solver_interrupt add_waiting search_cube
  solve cube m =
      let (tmp, rest) = api.get_clauses m.clauses_to_add in
      add_waiting tmp (record (unset_solver_interrupt m) { clauses_to_add = rest })
      >>= λ (accepted, lost, m'). elim accepted [
        | false ↦ pure (unsat, lost, m')
        | true ↦ (search_cube cube m' >>= λ (res, m''). pure (res, lost, m''))
      ]

  unfoldable pub add_clause : ClauseExchange → Maple → Maple
  unfolding set_solver_interrupt
  add_clause c m =
      set_solver_interrupt (record m { clauses_to_add = api.add_clause m.clauses_to_add c })

  -- `ClauseBuffer::addClauses`
  unfoldable pub add_all : List ClauseExchange → B → B
  add_all [] b = b
  add_all (c ∷ cs) b = add_all cs (api.add_clause b c)

  unfoldable pub add_clauses : List ClauseExchange → Maple → Maple
  unfolding set_solver_interrupt add_all
  add_clauses cs m =
      set_solver_interrupt (record m { clauses_to_add = add_all cs m.clauses_to_add })

  unfoldable pub add_learned_clause : ClauseExchange → Maple → Maple
  add_learned_clause c m =
      if c.size == 1
      then record m { units_to_import = api.add_clause m.units_to_import c }
      else record m { clauses_to_import = api.add_clause m.clauses_to_import c }

  unfoldable pub add_learned_clauses : List ClauseExchange → Maple → Maple
  unfolding add_learned_clause
  add_learned_clauses [] m = m
  add_learned_clauses (c ∷ cs) m = add_learned_clauses cs (add_learned_clause c m)

  unfoldable pub get_learned_clauses : Maple → List ClauseExchange × Maple
  get_learned_clauses m =
      let (cs, rest) = api.get_clauses m.clauses_to_export in
      (cs, record m { clauses_to_export = rest })

  unfoldable pub increase_clause_production : Maple → Maple
  increase_clause_production m = record m { lbd_limit = m.lbd_limit + 1 }

  unfoldable pub decrease_clause_production : Maple → Maple
  decrease_clause_production m =
      if ltb 2 m.lbd_limit then record m { lbd_limit = m.lbd_limit - 1 } else m

  -- `rand() % getVariablesCount() + 1`; without variables the code divides by 0.
  unfoldable pub get_division_variable : ℕ → Maple → Option ℕ
  get_division_variable rand m =
      if solver.n_vars m.core == 0 then none else some (rand % solver.n_vars m.core + 1)

  unfoldable pub set_phase : ℤ → Bool → Maple → Maple
  set_phase var phase m = record m { core = solver.set_polarity (pred var) phase m.core }

  unfoldable pub get_model : Maple → Option (List ℤ)
  unfolding model_from
  get_model m = model_from (solver.n_vars m.core) 0 (solver.model m.core)

  unfoldable pub get_final_analysis : Maple → List ℤ
  get_final_analysis m = map (int_lit solver) (solver.conflict m.core)

  unfoldable pub get_sat_assumptions : Maple → List ℤ
  get_sat_assumptions m = map (λ l. neg (int_lit solver l)) (solver.get_assumptions m.core)

  -- `newVar` as often as the rounds that are left.
  unfoldable pub new_vars : ℕ → T → T
  new_vars zero t = t
  new_vars (suc rounds) t = new_vars rounds (solver.new_var t)

  -- The variables of the literals of a clause exist.
  unfoldable pub make_vars : List ℤ → T → T
  unfolding new_vars
  make_vars [] t = t
  make_vars (l ∷ ls) t = make_vars ls (new_vars (abs l - solver.n_vars t) t)

  -- A clause that the solver refuses is only reported.
  unfoldable pub add_initial_clauses : List ClauseExchange → Maple → Maple
  unfolding make_mini_vec make_vars
  add_initial_clauses [] m = m
  add_initial_clauses (c ∷ cs) m =
      let core = (solver.add_clause (make_mini_vec c) (make_vars c.lits m.core)).1 in
      add_initial_clauses cs (record m { core = core })
