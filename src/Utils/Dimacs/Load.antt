-- ===== src/Utils/Dimacs/Load.antt =====
-- utils/SatUtils.cpp, loadFormulaToSolvers: the clauses that are allocated for the solvers.
use dpainless.Prelude.{
  ℕ, ◌+◌, ◌*◌, ◌≡◌, refl, ap, ◌∙◌, List, [], ◌∷◌, none, some, ℤ, arith, length, map, All,
}
use dpainless.Clauses.Exchange.{
  ClauseExchange, Heap, M, pure, ◌>>=◌, ◌>>◌, alloc_clause, increase_clause,
}
use dpainless.Clauses.Exchange.Accounts.{
  count, one_at, IsAccounted, IsAccounted-cong, Runs, Runs-bind, alloc_clause-written,
  increase_clause-Runs,
}
use dpainless.Utils.Dimacs.{read_file}
use dpainless.Utils.Dimacs.Format.{Line, IsLine, file_text, formula}
use dpainless.Utils.Dimacs.Formula.{read_file-formula}

-- The clauses for n solvers; each is allocated when its 0 is read. `from` is not set.
unfoldable pub load_clauses : ℤ → ℕ → List (List ℤ) → M (List ClauseExchange)
load_clauses unset n [] = pure []
load_clauses unset n (lits ∷ rest) = do
  c ← alloc_clause none unset (length lits) lits
  increase_clause c n
  cs ← load_clauses unset n rest
  pure (c ∷ cs)

-- What the solvers get for a file that can be opened. `none`: the loop does not end, or a fault.
unfoldable pub load_formula : ℤ → ℕ → List ℕ → M (List ClauseExchange)
unfolding load_clauses
load_formula unset n text h = elim (read_file text) [
  | none ↦ none
  | some cs ↦ load_clauses unset n cs h
]

load_clauses-Runs :
    (unset : ℤ) (n : ℕ) (cs : List (List ℤ)) (h : Heap) (f : ℕ → ℕ)
    → IsAccounted h f
    → Runs (load_clauses unset n cs) h (λ loaded h'.
      IsAccounted h' (λ a. (1 + n) * count a loaded + f a) × (map (λ c. c.lits) loaded ≡ cs))
unfolding load_clauses
load_clauses-Runs unset n [] h f v = ([], h, refl, (IsAccounted-cong (λ a. ground arith) v, refl))
load_clauses-Runs unset n (lits ∷ rest) h f v =
    Runs-bind (alloc_clause none unset (length lits) lits)
      (λ c. increase_clause c n >> (load_clauses unset n rest >>= λ cs. pure (c ∷ cs))) h _ _
      (alloc_clause-written none unset (length lits) lits h f v)
      (λ c h₁ w.
        Runs-bind (increase_clause c n) (λ _. load_clauses unset n rest >>= λ cs. pure (c ∷ cs)) h₁
          _ _ (increase_clause-Runs c n h₁ (λ a. one_at c a + f a) w.0 (ground arith))
          (λ _ h₂ x.
            Runs-bind (load_clauses unset n rest) (λ cs. pure (c ∷ cs)) h₂ _ _
              (load_clauses-Runs unset n rest h₂ _ x)
              (λ cs h₃ y. (
                c ∷ cs,
                h₃,
                refl,
                (
                  IsAccounted-cong (λ a. grind arith) y.0,
                  ap (λ l. l ∷ map (λ k. k.lits) cs) w.2 ∙ ap (λ ls. lits ∷ ls) y.1,
                ),
              ))))

pub load_formula-Runs :
    (unset : ℤ) (n : ℕ) (ls : List Line) (h : Heap) (f : ℕ → ℕ)
    → All IsLine ls
    → IsAccounted h f
    → Runs (load_formula unset n (file_text ls)) h (λ loaded h'.
      IsAccounted h' (λ a. (1 + n) * count a loaded + f a)
      × (map (λ c. c.lits) loaded ≡ formula ls))
unfolding load_formula
load_formula-Runs unset n ls h f w v =
    rw (read_file-formula ls w, load_formula) (load_clauses-Runs unset n (formula ls) h f v)
