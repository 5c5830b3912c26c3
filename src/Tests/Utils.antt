-- ===== src/Tests/Utils.antt =====
-- The theorems on the files, the settings, the solvers and the start, at concrete inputs.
use dpainless.Prelude.{
  ℕ, zero, suc, ◌+◌, ◌*◌, ◌/◌, ◌^◌, ◌≤◌, ◌<◌, ◌≡◌, refl, List, [], ◌∷◌, ◌++◌, none, some, ℤ, pos,
  negsuc, true, false, Bool-cases, inl, inr, All, ltb, ltb→lt, le_of_ltb, arith, occurrences, map,
}
use dpainless.Clauses.Exchange.{Heap}
use dpainless.Clauses.Exchange.Accounts.{count, IsAccounted, Runs}
use dpainless.Utils.Dimacs.{read_file}
use dpainless.Utils.Dimacs.Format.{
  Word, words_text, Line, remark, clause, IsLine, file_text, formula,
}
use dpainless.Utils.Dimacs.Formula.{read_file-formula, read_file-unfinished, read_file-ends}
use dpainless.Utils.Dimacs.Load.{load_formula, load_formula-Runs}
use dpainless.Utils.Model.{Decimal, IsDecimal, printed, line_width, print_model}
use dpainless.Utils.Model.Width.{pow_step}
use dpainless.Utils.Model.Lines.{concat, print_model-fits}
use dpainless.Utils.Parameters.{Text, same_text, Parameters, no_parameters, init, is_set, get_param}
use dpainless.Utils.Parameters.Settings.{setting, init-setting}
use dpainless.Solvers.Factory.{
  Factory, combo, only_glucose, only_minisat, create_solvers, sparse_diversification,
}
use dpainless.Solvers.Factory.Ids.{IsMade, create_solvers-IsMade}
use dpainless.Solvers.Factory.Phases.{sparse_apart}
use dpainless.Main.{Settings, n_solvers, Setup, set_up}
use dpainless.Main.Starts.{total_solvers, set_up_runs, set_up_faults}

-- 12 and -3, each with a blank behind it.
abbrev two_words : List Word
two_words =
    (record { minus = false; first = 1; more = 2 ∷ [] }, b' ')
    ∷ (record { minus = true; first = 0; more = 3 ∷ [] }, b' ')
    ∷ []

abbrev small_file : List Line
small_file = remark false (b' ' ∷ b'-' ∷ []) ∷ remark true [] ∷ clause two_words ∷ clause [] ∷ []

small_file-IsLine : All IsLine small_file
small_file-IsLine = (
  (refl, (refl, tt)),
  (
    tt,
    (
      (
        (((omega arith), ((omega arith), tt), (omega arith)), refl),
        ((((omega arith), ((omega arith), tt), (omega arith)), refl), tt),
      ),
      (tt, tt),
    ),
  ),
)

small_formula : formula small_file ≡ (pos 12 ∷ negsuc 2 ∷ []) ∷ [] ∷ []
small_formula = refl

read_file-formula_example : read_file (file_text small_file) ≡ some (formula small_file)
read_file-formula_example = read_file-formula small_file small_file-IsLine

read_file-unfinished_example :
    (read_file (file_text small_file ++ words_text two_words) ≡ some (formula small_file))
    × (read_file (file_text small_file ++ b'c' ∷ b'x' ∷ []) ≡ none)
read_file-unfinished_example =
    read_file-unfinished small_file two_words false (b'x' ∷ []) small_file-IsLine
      small_file-IsLine.1.1.0 (refl, tt)

read_file-ends_example :
    (clauses : List (List ℤ)) × (read_file (b'7' ∷ b'%' ∷ b'\n' ∷ []) ≡ some clauses)
read_file-ends_example = read_file-ends (b'7' ∷ b'%' ∷ [])

abbrev no_clauses : Heap
no_clauses = record { nb_refs = λ _. none; next = 0 }

no_clauses-IsAccounted : IsAccounted no_clauses (λ _. 0)
no_clauses-IsAccounted = record { counted = λ a. refl; fresh = λ a l. refl }

load_formula-Runs_example :
    Runs (load_formula (pos 0) 4 (file_text small_file)) no_clauses (λ loaded h'.
      IsAccounted h' (λ a. (1 + 4) * count a loaded + 0)
      × (map (λ c. c.lits) loaded ≡ formula small_file))
load_formula-Runs_example =
    load_formula-Runs (pos 0) 4 small_file no_clauses (λ _. 0) small_file-IsLine
      no_clauses-IsAccounted

-- A logarithm by division.
log10_from : ℕ → ℕ → ℕ
log10_from zero n = 0
log10_from (suc fuel) n = elim (ltb n 10) [ true ↦ 0 | false ↦ suc (log10_from fuel (n / 10)) ]

log10_from-IsLog :
    (fuel n : ℕ)
    → 0 < n
    → n ≤ fuel
    → (10 ^ log10_from fuel n ≤ n) × (n < 10 ^ suc (log10_from fuel n))
unfolding log10_from
log10_from-IsLog zero n h l = absurd (omega arith)
log10_from-IsLog (suc fuel) n h l = elim (Bool-cases (ltb n 10)) [
  | inl one ↦ rw (one, log10_from) (omega (arith, h), omega (arith, ltb→lt n 10 one))
  | inr more ↦
      let large = le_of_ltb n 10 more in
      let (p, q) =
        log10_from-IsLog fuel (n / 10) (omega (arith, large)) (omega (arith, large, l)) in
      let k = log10_from fuel (n / 10) in
      rw (more, log10_from) (omega (arith, p, pow_step k), omega (arith, q, pow_step (suc k)))
]

abbrev by_division : Decimal
by_division = record { log10 = λ n. log10_from n n; digits = λ n. suc (log10_from n n) }

by_division-IsDecimal : IsDecimal by_division
unfolding log10_from
by_division-IsDecimal = record {
  log10_lem = λ n h. log10_from-IsLog n n h (omega arith);
  digits_lem = λ n k h e.
      let (p, q) = log10_from-IsLog n n h (omega arith) in
      let same : log10_from n n ≡ k = omega (arith, e) in (rw (← same) p, rw (← same) q);
  digits_zero = refl;
  digits_pos = λ n. omega arith;
}

narrow : All (λ i. printed by_division i ≤ 78) (pos 12 ∷ negsuc 2 ∷ [])
unfolding log10_from
narrow = (omega arith, (omega arith, tt))

print_model-fits_example :
    All (λ l. line_width by_division l ≤ 80) (print_model by_division (pos 12 ∷ negsuc 2 ∷ []))
    × (concat (print_model by_division (pos 12 ∷ negsuc 2 ∷ [])) ≡ pos 12 ∷ negsuc 2 ∷ pos 0 ∷ [])
print_model-fits_example =
    print_model-fits by_division by_division-IsDecimal (pos 12 ∷ negsuc 2 ∷ []) narrow

-- `-c=8`
abbrev name_c : Text
name_c = b'c' ∷ []

abbrev file_and_c : List Text
file_and_c = (b'f' ∷ []) ∷ setting name_c (b'4' ∷ []) ∷ []

abbrev after_both : Parameters
after_both = record { params = (name_c, b'4' ∷ []) ∷ []; filename = some (b'f' ∷ []) }

both_taken : init file_and_c no_parameters ≡ some after_both
unfolding init
both_taken = refl

init-setting_example :
    (r : Parameters) × (init (file_and_c ++ setting name_c (b'8' ∷ []) ∷ []) no_parameters ≡ some r)
    × (is_set name_c r ≡ true)
    × (get_param name_c [] r ≡ b'8' ∷ [])
    × (r.filename ≡ some (b'f' ∷ []))
    × ((other : Text)
        → same_text name_c other ≡ false
        → (is_set other r ≡ is_set other after_both)
          × (get_param other [] r ≡ get_param other [] after_both))
init-setting_example =
    init-setting file_and_c name_c (b'8' ∷ []) [] no_parameters after_both (refl, tt) both_taken

create_solvers-IsMade_example :
    (f : Factory) × (create_solvers combo 5 2 0 ≡ some f) × IsMade 10 5 f
create_solvers-IsMade_example = create_solvers-IsMade combo 5 2 0 (omega arith)

-- Solver 1 of process 1 of 2, with two solvers each, sets variable 8 of 20.
sparse_sets_8 : 0 < occurrences 8 (sparse_diversification 20 2 1 2 1)
unfolding sparse_diversification
sparse_sets_8 = omega arith

sparse_apart_example : (0 < 8) × (8 < 20) × (◌≡◌ {A = ℕ} 1 1) × (◌≡◌ {A = ℕ} 1 1)
sparse_apart_example =
    sparse_apart 20 2 2 1 1 1 1 8 (omega arith) (omega arith) (omega arith) (omega arith)
      sparse_sets_8 sparse_sets_8

-- HordeSat sharing with a portfolio, and with cube and conquer.
abbrev portfolio_of_4 : Settings
portfolio_of_4 = record {
  choice = only_minisat;
  cpus = 4;
  wkr_strat = 1;
  copy_mode = 1;
  shr_strat = 2;
}

abbrev cubes_of_4 : Settings
cubes_of_4 = record portfolio_of_4 { wkr_strat = 2; choice = only_glucose }

four_solvers : n_solvers portfolio_of_4 ≡ 4
unfolding n_solvers
four_solvers = refl

one_solver : n_solvers cubes_of_4 ≡ 1
unfolding n_solvers
one_solver = refl

set_up_runs_example : (setup : Setup) × (set_up portfolio_of_4 0 1 9 ≡ some setup)
set_up_runs_example =
    set_up_runs portfolio_of_4 0 1 9 (omega (arith, four_solvers)) (omega (arith, four_solvers))
      (λ _. four_solvers) (λ e. absurd (omega (arith, e)))

few_solvers : total_solvers cubes_of_4 9 < 4
unfolding n_solvers
few_solvers = omega arith

set_up_faults_example : set_up cubes_of_4 0 1 9 ≡ none
set_up_faults_example =
    set_up_faults cubes_of_4 0 1 9 (omega (arith, one_solver)) (inl refl) few_solvers
