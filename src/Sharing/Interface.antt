-- ===== src/Sharing/Interface.antt =====
-- solvers/SolverInterface.h, as far as the sharing strategies use it, and sharing/SharingStrategy.h.
-- The solvers are objects that several vectors point to: `Solvers` is the store of these objects,
-- and a vector of pointers is a list of indices into it.
use dpainless.Prelude.{
  ℕ, zero, suc, ◌+◌, ◌<◌, ◌≡◌, refl, List, [], ◌∷◌, none, some, arith, length, get_elem?, set, All,
}
use dpainless.Clauses.Exchange.{ClauseExchange, M, pure, fault}
use dpainless.Clauses.Exchange.Accounts.{count, HasLits}

-- The abstract class. `held` are the references that a solver owns: those that it has learned and
-- not yet given away, and those that it was given and has not yet released. The laws are what the
-- class promises: a call moves references and never copies or drops one.
pub record SolverInterface (S : Type 0) : Type 0 where
  pub id : S → ℕ
  pub get_learned_clauses : S → List ClauseExchange × S
  pub add_learned_clauses : S → List ClauseExchange → S
  pub increase_clause_production : S → S
  pub held : S → List ClauseExchange
  pub get_held :
      (s : S) (a : ℕ)
      → count a (get_learned_clauses s).0 + count a (held (get_learned_clauses s).1)
        ≡ count a (held s)
  pub add_held :
      (s : S) (cs : List ClauseExchange) (a : ℕ)
      → count a (held (add_learned_clauses s cs)) ≡ count a cs + count a (held s)
  pub production_held :
      (s : S) (a : ℕ) → count a (held (increase_clause_production s)) ≡ count a (held s)
  pub learned_lits : (s : S) → All HasLits (get_learned_clauses s).0

-- `unsigned long` counters.
pub record SharingStatistics : Type 0 where
  pub shared_clauses : ℕ
  pub received_clauses : ℕ

unfoldable pub new_statistics : SharingStatistics
new_statistics = record { shared_clauses = 0; received_clauses = 0 }

abbrev pub Solvers : Type 0 → Type 0
Solvers S = List S

-- A pointer to no solver is a fault.
abbrev pub deref : {S : Type 0} → List S → ℕ → M S
deref ss i = elim (get_elem? ss i) [ none ↦ fault | some s ↦ pure s ]

module _ {S : Type 0} (api : SolverInterface S) where
  -- The references that all solvers own.
  abbrev pub count_solvers : ℕ → List S → ℕ
  count_solvers a [] = 0
  count_solvers a (s ∷ ss) = count a (api.held s) + count_solvers a ss

  pub count_solvers-set :
      (a : ℕ) (ss : List S) (i : ℕ) (s s' : S)
      → get_elem? ss i ≡ some s
      → count_solvers a (set ss i s') + count a (api.held s)
        ≡ count_solvers a ss + count a (api.held s')
  count_solvers-set a [] i s s' e = ground arith
  count_solvers-set a (t ∷ ss) zero s s' e = ground arith
  count_solvers-set a (t ∷ ss) (suc i) s s' e = omega (arith, count_solvers-set a ss i s s' e)

pub deref-some :
    {S : Type 0} (ss : List S) (i : ℕ) → i < length ss → (s : S) × (get_elem? ss i ≡ some s)
deref-some [] i h = absurd (omega arith)
deref-some (s ∷ ss) zero h = (s, refl)
deref-some (s ∷ ss) (suc i) h = deref-some ss i (omega arith)
