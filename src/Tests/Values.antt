-- ===== src/Tests/Values.antt =====
-- Clauses, a heap, a solver that keeps what it is given, and a buffer that is a list.
use dpainless.Prelude.{
  ℤ, length, zero, suc, ℕ, ◌≡◌, refl, List, [], ◌∷◌, ◌++◌, Option, none, some, pos, negsuc, arith,
  All, ◌==◌, if◌then◌else◌,
}
use dpainless.Clauses.Exchange.{ClauseExchange, Heap}
use dpainless.Clauses.Exchange.Accounts.{HasLits, IsAccounted, count-append}
use dpainless.Clauses.Buffer.{BufferApi, taken_then}
use dpainless.Sharing.Interface.{SolverInterface}

-- The clauses `1 -2` and `3`.
abbrev pub pair : ClauseExchange
pair = record { addr = 0; lbd = some 2; from = pos 0; size = 2; lits = pos 1 ∷ negsuc 1 ∷ [] }

abbrev pub unit_clause : ClauseExchange
unit_clause = record { addr = 0; lbd = some 1; from = pos 0; size = 1; lits = pos 3 ∷ [] }

-- The heap with one reference to the clause at address 0.
abbrev pub one_clause : Heap
one_clause = record { nb_refs = λ a. if 0 == a then some 1 else none; next = 1 }

abbrev pub one_owner : ℕ → ℕ
one_owner a = if 0 == a then 1 else 0

pub one_clause-IsAccounted : (g : ℕ → ℕ) → ((a : ℕ) → g a ≡ one_owner a) → IsAccounted one_clause g
one_clause-IsAccounted g e = record {
  counted = λ a. ground (arith, e a);
  fresh = λ a l. ground (arith, e a);
}

pub record TestSolver : Type 0 where
  pub number : ℕ
  pub learned : List ClauseExchange
  pub imported : List ClauseExchange
  pub lits : All HasLits learned

abbrev pub test_solver : SolverInterface TestSolver
test_solver = record {
  id = λ s. s.number;
  get_learned_clauses = λ s.
      (s.learned, record { number = s.number; learned = []; imported = s.imported; lits = tt });
  add_learned_clauses = λ s cs. record {
    number = s.number;
    learned = s.learned;
    imported = cs ++ s.imported;
    lits = s.lits;
  };
  increase_clause_production = λ s. s;
  held = λ s. s.learned ++ s.imported;
  get_held = λ s a. omega (arith, count-append a s.learned s.imported);
  add_held = λ s cs a. omega (
    arith,
    count-append a s.learned s.imported,
    count-append a s.learned (cs ++ s.imported),
    count-append a cs s.imported,
  );
  production_held = λ s a. refl;
  learned_lits = λ s. s.lits;
}

abbrev pub list_first : List ClauseExchange → Option ClauseExchange × List ClauseExchange
list_first [] = (none, [])
list_first (c ∷ cs) = (some c, cs)

pub list_get_first : (b : List ClauseExchange) → taken_then (list_first b).0 (list_first b).1 ≡ b
list_get_first [] = refl
list_get_first (c ∷ cs) = refl

pub list_get_nothing : (b : List ClauseExchange) → (list_first b).0 ≡ none → b ≡ []
list_get_nothing [] e = refl
list_get_nothing (c ∷ cs) e = absurd (ground (arith, e))

abbrev pub list_buffer : BufferApi (List ClauseExchange)
list_buffer = record {
  empty = [];
  add_clause = λ b c. b ++ c ∷ [];
  get_clause = list_first;
  get_clauses = λ b. (b, []);
  contents = λ b. b;
  get_first = list_get_first;
  get_nothing = list_get_nothing;
  contents-empty = refl;
  contents-add = λ b c. refl;
  get-contents = λ b. refl;
  contents-get = λ b. refl;
}

-- A solver that has learned `pair`, and one that has learned nothing.
abbrev pub two_solvers : List TestSolver
two_solvers =
    record {
      number = 0;
      learned = pair ∷ [];
      imported = [];
      lits = ((omega arith, omega arith), tt);
    }
    ∷ record { number = 1; learned = []; imported = []; lits = tt }
    ∷ []

-- A buffer of that many numbers.
abbrev pub zeros : ℕ → List ℤ
zeros zero = []
zeros (suc n) = pos 0 ∷ zeros n

pub length-zeros : (n : ℕ) → length (zeros n) ≡ n
length-zeros zero = refl
length-zeros (suc n) = omega (arith, length-zeros n)
