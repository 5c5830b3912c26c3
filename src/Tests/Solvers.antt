-- ===== src/Tests/Solvers.antt =====
-- The theorems on the adapters of solvers, at concrete inputs.
use dpainless.Prelude.{
  ℕ, suc, ◌+◌, ◌≡◌, refl, List, [], ◌∷◌, Option, none, some, ℤ, pos, negsuc, Bool, true, false, not,
  abs, arith, length, All, ◌==◌, if◌then◌else◌, get_elem?, map, occurrences,
}
use dpainless.Clauses.Exchange.{Heap}
use dpainless.Clauses.Exchange.Accounts.{Runs, IsAccounted}
use dpainless.Solvers.Lingeling.{Lingeling, new_lingeling, consume_units}
use dpainless.Solvers.Lingeling.Buffers.{consume_units-Runs}
use dpainless.Solvers.Native.{Search, done, export_clause, import_unit, import_clause, SimpSolver}
use dpainless.Solvers.Maple.{Maple, run_search, solve, get_model}
use dpainless.Solvers.Maple.Ownership.{OwnedMaple, run_search-Runs}
use dpainless.Solvers.Maple.Solving.{Solved, behind_refused, waiting, solve-Runs}
use dpainless.Solvers.Maple.Formula.{Holds, assigned, get_model-agrees}
use dpainless.Solvers.Maple.Roundtrip.{hand_over, handed, hand_over-handed}
use dpainless.Tests.Values.{
  pair, unit_clause, one_clause, one_owner, one_clause-IsAccounted, list_buffer,
}

-- A solver that has some variables and values, and refuses clauses or does not.
record Core : Type 0 where
  vars : ℕ
  values : List (Option Bool)
  refuses : Bool

abbrev Lit : Type 0
Lit = ℤ × Bool

-- The literals 1 and -2.
abbrev two_lits : List Lit
two_lits = (pos 0, false) ∷ (pos 1, true) ∷ []

-- Imports a unit and a clause, exports a clause, and finds a model.
abbrev searching : Core → Search Core Lit
searching core =
    import_unit (λ l. import_clause (λ c. export_clause 2 two_lits (done (some true) core)))

abbrev core_solver : SimpSolver Core Lit
core_solver = record {
  mk_lit = λ v s. (v, s);
  var = λ l. l.0;
  sign = λ l. l.1;
  lit_undef = (negsuc 0, false);
  var-mk_lit = λ v s. refl;
  sign-mk_lit = λ v s. refl;
  mk_lit-var = λ l. refl;
  n_vars = λ t. t.vars;
  new_var = λ t. record t { vars = suc t.vars };
  n_vars-new_var = λ t. refl;
  add_clause = λ ls t. (not t.refuses, t);
  n_vars-add_clause = λ ls t. refl;
  solve_limited = λ ls t. searching t;
  interrupt = λ t. t;
  clear_interrupt = λ t. t;
  set_polarity = λ v b t. t;
  set_ge = λ b t. t;
  set_vsids = λ b t. t;
  set_verso = λ b t. t;
  model = λ t. t.values;
  conflict = λ t. [];
  get_assumptions = λ t. [];
}

-- A core with the values of two of its three variables.
abbrev core : Core
core = record { vars = 3; values = some true ∷ none ∷ some false ∷ []; refuses = false }

abbrev maple : Maple core_solver list_buffer
maple = record {
  id = 4;
  core = core;
  lbd_limit = 2;
  stop_solver = false;
  clauses_to_import = [];
  units_to_import = [];
  clauses_to_export = [];
  clauses_to_add = [];
}

-- The unit at address 0 waits to be imported.
abbrev importing : Maple core_solver list_buffer
importing = record maple { units_to_import = unit_clause ∷ [] }

run_search-Runs_example :
    Runs
      (run_search core_solver list_buffer (searching core) importing)
      one_clause
      (λ r h'. OwnedMaple core_solver list_buffer (λ a. 0) r.1 h')
run_search-Runs_example =
    run_search-Runs core_solver list_buffer (searching core) (λ a. 0) importing one_clause
      ((omega arith, tt), one_clause-IsAccounted _ (λ a. ground arith))

-- Two references to the clause at address 0.
abbrev two_refs : Heap
two_refs = record { nb_refs = λ a. if 0 == a then some 2 else none; next = 1 }

two_refs-IsAccounted :
    (g : ℕ → ℕ) → ((a : ℕ) → g a ≡ (if 0 == a then 2 else 0)) → IsAccounted two_refs g
two_refs-IsAccounted g e = record {
  counted = λ a. ground (arith, e a);
  fresh = λ a l. ground (arith, e a);
}

-- The core refuses the clause at address 0, which waits twice: one reference is lost.
abbrev refusing : Maple core_solver list_buffer
refusing = record maple { core = record core { refuses = true }; clauses_to_add = pair ∷ pair ∷ [] }

solve-Runs_example : Runs (solve core_solver list_buffer (pos 1 ∷ []) refusing) two_refs (
    Solved core_solver list_buffer
      (λ a. 0)
      (behind_refused core_solver list_buffer
        (waiting core_solver list_buffer refusing)
        (record core { refuses = true })))
solve-Runs_example =
    solve-Runs core_solver list_buffer (pos 1 ∷ []) (λ a. 0) refusing two_refs
      (tt, two_refs-IsAccounted _ (λ a. ground arith))

hand_over-handed_example :
    Runs
      (hand_over core_solver list_buffer 2 two_lits maple maple)
      one_clause
      (λ r h'. (r ≡ handed core_solver list_buffer 2 two_lits) × IsAccounted h' one_owner)
hand_over-handed_example =
    hand_over-handed core_solver list_buffer 2 two_lits one_owner maple maple one_clause
      (one_clause-IsAccounted one_owner (λ a. refl)) (omega arith) ((0, refl), ((1, refl), tt)) refl
      refl refl

get_model-agrees_example :
    (ls : List ℤ) × (get_model core_solver list_buffer maple ≡ some ls)
    × All (Holds core.values) ls
    × ((k : ℕ) → occurrences (k + 1) (map abs ls) ≡ assigned (get_elem? core.values k))
get_model-agrees_example = get_model-agrees core_solver list_buffer maple refl

-- One unit waits.
abbrev waiting_unit : Lingeling list_buffer
waiting_unit = record (new_lingeling list_buffer 3 2) { units_to_import = unit_clause ∷ [] }

consume_units-Runs_example :
    Runs
      (consume_units list_buffer waiting_unit)
      one_clause
      (λ r h'. IsAccounted h' (λ a. 0) × (length r.0 ≡ 1) × (r.1.units_to_import ≡ []))
unfolding new_lingeling
consume_units-Runs_example =
    consume_units-Runs list_buffer waiting_unit one_clause (λ a. 0) (omega arith, tt)
      (one_clause-IsAccounted _ (λ a. ground arith))
