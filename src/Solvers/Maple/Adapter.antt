-- ===== src/Solvers/Maple/Adapter.antt =====
-- The adapter of MapleCOMSPS fills the interface that the sharing strategies use.
use mathlib.Core.Path.{subst⁻¹}
use dpainless.Prelude.{
  ℕ, ◌+◌, ◌≡◌, refl, ap, ◌∙◌, List, [], ◌∷◌, ◌++◌, arith, All, Bool-cases, inl, inr, ◌==◌,
}
use dpainless.Clauses.Exchange.{ClauseExchange}
use dpainless.Clauses.Exchange.Accounts.{count, HasLits, one_at, count-append}
use dpainless.Clauses.Buffer.{BufferApi}
use dpainless.Sharing.Interface.{SolverInterface}
use dpainless.Solvers.Native.{SimpSolver}
use dpainless.Solvers.Maple.{
  Maple, add_learned_clause, add_learned_clauses, get_learned_clauses, increase_clause_production,
}
use dpainless.Solvers.Maple.Ownership.{count_maple, count-add}

count-four :
    (a : ℕ) (i u e d : List ClauseExchange)
    → count a (i ++ u ++ e ++ d) ≡ count a i + count a u + count a e + count a d
count-four a i u e d =
    omega (arith, count-append a (i ++ u ++ e) d, count-append a (i ++ u) e, count-append a i u)

module _ {T L B : Type 0} (solver : SimpSolver T L) (api : BufferApi B) where
  -- All references that an adapter holds.
  abbrev pub held_clauses : Maple solver api → List ClauseExchange
  held_clauses m =
      api.contents m.clauses_to_import
      ++ api.contents m.units_to_import
      ++ api.contents m.clauses_to_export
      ++ api.contents m.clauses_to_add

  -- An adapter whose search has exported clauses with literals.
  pub record Ready : Type 0 where
    pub maple : Maple solver api
    pub lits : All HasLits (api.contents maple.clauses_to_export)

  pub count-held :
      (a : ℕ) (m : Maple solver api) → count a (held_clauses m) ≡ count_maple solver api a m
  count-held a m =
      count-four a (api.contents m.clauses_to_import) (api.contents m.units_to_import)
        (api.contents m.clauses_to_export) (api.contents m.clauses_to_add)

  pub count-get_learned_clauses :
      (a : ℕ) (m : Maple solver api)
      → count a (get_learned_clauses solver api m).0
          + count_maple solver api a (get_learned_clauses solver api m).1
        ≡ count_maple solver api a m
  unfolding get_learned_clauses
  count-get_learned_clauses a m = omega (
    arith,
    ap (count a) (api.get-contents m.clauses_to_export),
    ap (count a) (api.contents-get m.clauses_to_export),
  )

  count-add_learned_clause :
      (a : ℕ) (c : ClauseExchange) (m : Maple solver api)
      → count_maple solver api a (add_learned_clause solver api c m)
        ≡ one_at c a + count_maple solver api a m
  unfolding add_learned_clause
  count-add_learned_clause a c m = elim (Bool-cases (c.size == 1)) [
    | inl e ↦ rw e (omega (arith, count-add api a m.units_to_import c))
    | inr e ↦ rw e (omega (arith, count-add api a m.clauses_to_import c))
  ]

  pub count-add_learned_clauses :
      (a : ℕ) (cs : List ClauseExchange) (m : Maple solver api)
      → count_maple solver api a (add_learned_clauses solver api cs m)
        ≡ count a cs + count_maple solver api a m
  unfolding add_learned_clauses
  count-add_learned_clauses a [] m = omega arith
  count-add_learned_clauses a (c ∷ cs) m = omega (
    arith,
    count-add_learned_clauses a cs (add_learned_clause solver api c m),
    count-add_learned_clause a c m,
  )

  -- What the search has exported stays.
  export-add_learned_clause :
      (c : ClauseExchange) (m : Maple solver api)
      → (add_learned_clause solver api c m).clauses_to_export ≡ m.clauses_to_export
  unfolding add_learned_clause
  export-add_learned_clause c m = elim (Bool-cases (c.size == 1)) [
    | inl e ↦ rw e refl
    | inr e ↦ rw e refl
  ]

  pub export-add_learned_clauses :
      (cs : List ClauseExchange) (m : Maple solver api)
      → (add_learned_clauses solver api cs m).clauses_to_export ≡ m.clauses_to_export
  unfolding add_learned_clauses
  export-add_learned_clauses [] m = refl
  export-add_learned_clauses (c ∷ cs) m =
      export-add_learned_clauses cs (add_learned_clause solver api c m)
      ∙ export-add_learned_clause c m

  unfoldable pub maple_solver : SolverInterface Ready
  unfolding get_learned_clauses increase_clause_production
  maple_solver = record {
    id = λ r. r.maple.id;
    get_learned_clauses = λ r. (
      (get_learned_clauses solver api r.maple).0,
      record {
        maple = (get_learned_clauses solver api r.maple).1;
        lits = subst⁻¹ (All HasLits) (api.contents-get r.maple.clauses_to_export) tt;
      },
    );
    add_learned_clauses = λ r cs. record {
      maple = add_learned_clauses solver api cs r.maple;
      lits =
          subst⁻¹ (λ b. All HasLits (api.contents b)) (export-add_learned_clauses cs r.maple)
            r.lits;
    };
    increase_clause_production =
        λ r. record { maple = increase_clause_production solver api r.maple; lits = r.lits };
    held = λ r. held_clauses r.maple;
    get_held = λ r a. omega (
      arith,
      count-get_learned_clauses a r.maple,
      count-held a r.maple,
      count-held a (get_learned_clauses solver api r.maple).1,
    );
    add_held = λ r cs a. omega (
      arith,
      count-add_learned_clauses a cs r.maple,
      count-held a r.maple,
      count-held a (add_learned_clauses solver api cs r.maple),
    );
    production_held = λ r a. refl;
    learned_lits = λ r. subst⁻¹ (All HasLits) (api.get-contents r.maple.clauses_to_export) r.lits;
  }
