-- ===== src/Solvers/Maple/Solving.antt =====
-- A call of `solve`: the clauses that wait, and the search.
use mathlib.Core.Path.{subst}
use dpainless.Prelude.{
  ℕ, ◌+◌, ◌≡◌, refl, ap, ◌⊎◌, inl, inr, List, [], ◌∷◌, ℤ, Bool, true, false, map, arith,
}
use dpainless.Clauses.Exchange.{ClauseExchange, Heap, pure, ◌>>=◌, live, release_clause}
use dpainless.Clauses.Exchange.Accounts.{
  count, IsAccounted-cong, Runs, Runs-bind, release_clause-Runs,
}
use dpainless.Clauses.Buffer.{BufferApi}
use dpainless.Solvers.Native.{SimpSolver}
use dpainless.Solvers.Literals.{mini_lit}
use dpainless.Solvers.Maple.{
  Maple, make_mini_vec, unset_solver_interrupt, add_waiting, search_cube, solve, result_of,
  run_search,
}
use dpainless.Solvers.Maple.Ownership.{
  OwnedMaple, count_maple, live-Accounted, one_at_self, run_search-Runs,
}
use dpainless.Working.Strategy.{SatResult, unsat}

none_lost : {A : Type 0} {x : A} {y : A} → (true ≡ false) ⊎ (x ≡ y) → x ≡ y
none_lost (inl e) = absurd (ground (arith, e))
none_lost (inr e) = e

module _ {T L B : Type 0} (solver : SimpSolver T L) (api : BufferApi B) where
  -- The clauses behind the first that the solver refuses.
  abbrev pub behind_refused : List ClauseExchange → T → List ClauseExchange
  behind_refused [] core = []
  behind_refused (c ∷ cs) core = elim (solver.add_clause (map (mini_lit solver) c.lits) core).0 [
    | false ↦ cs
    | true ↦ behind_refused cs (solver.add_clause (map (mini_lit solver) c.lits) core).1
  ]

  abbrev pub Waited :
      (ℕ → ℕ) → List ClauseExchange → Bool × List ClauseExchange × Maple solver api → Heap → Type 0
  Waited f lost (accepted, given_up, m) h =
      OwnedMaple solver api (λ a. count a lost + f a) m h
      × (given_up ≡ lost)
      × ((accepted ≡ false) ⊎ (lost ≡ []))

  -- By whether the solver accepts the clause.
  accepted-Waited :
      (accepted : Bool) (core : T) (cs : List ClauseExchange) (f : ℕ → ℕ) (m : Maple solver api)
      (h : Heap)
      → OwnedMaple solver api (λ a. count a cs + f a) (record m { core = core }) h
      → Runs
          (add_waiting solver api cs (record m { core = core }))
          h
          (Waited f (behind_refused cs core))
      → Runs
          (elim accepted [
            | false ↦ pure (false, cs, record m { core = core })
            | true ↦ add_waiting solver api cs (record m { core = core })
          ])
          h
          (Waited f (elim accepted [ false ↦ cs | true ↦ behind_refused cs core ]))
  accepted-Waited false core cs f m h o r =
      ((false, cs, record m { core = core }), h, refl, (o, refl, inl refl))
  accepted-Waited true core cs f m h o r = r

  add_waiting-Runs :
      (cs : List ClauseExchange) (f : ℕ → ℕ) (m : Maple solver api) (h : Heap)
      → OwnedMaple solver api (λ a. count a cs + f a) m h
      → Runs (add_waiting solver api cs m) h (Waited f (behind_refused cs m.core))
  unfolding add_waiting make_mini_vec
  add_waiting-Runs [] f m h o = ((true, [], m), h, refl, (o, refl, inr refl))
  add_waiting-Runs (c ∷ cs) f m h o =
      let core = (solver.add_clause (make_mini_vec solver api c) m.core).1 in
      Runs-bind (live c) _ h _ _ (live-Accounted c h _ o.1 (omega (arith, one_at_self c)))
        (λ _ h' v.
          Runs-bind (release_clause c) _ h' _ _
            (release_clause-Runs c h' (λ a. count_maple solver api a m + (count a cs + f a)) _ v
              (λ a. omega arith))
            (λ _ h'' w.
              accepted-Waited (solver.add_clause (make_mini_vec solver api c) m.core).0 core cs f m
                h'' (o.0, w) (add_waiting-Runs cs f (record m { core = core }) h'' (o.0, w))))

  search_cube-Runs :
      (cube : List ℤ) (f : ℕ → ℕ) (m : Maple solver api) (h : Heap)
      → OwnedMaple solver api f m h
      → Runs (search_cube solver api cube m) h (λ r h'. OwnedMaple solver api f r.1 h')
  unfolding search_cube
  search_cube-Runs cube f m h o =
      Runs-bind (run_search solver api (solver.solve_limited (map (mini_lit solver) cube) m.core) m)
        _ h _ _
        (run_search-Runs solver api (solver.solve_limited (map (mini_lit solver) cube) m.core) f m h
          o)
        (λ r h' o'. ((result_of r.0, r.1), h', refl, o'))

  -- What `solve` returns, with the clauses that it took out of the buffer and forgot.
  abbrev pub Solved :
      (ℕ → ℕ)
      → List ClauseExchange
      → SatResult × List ClauseExchange × Maple solver api
      → Heap
      → Type 0
  Solved f lost (res, given_up, m) h =
      OwnedMaple solver api (λ a. count a lost + f a) m h
      × (given_up ≡ lost)
      × ((res ≡ unsat) ⊎ (lost ≡ []))

  -- After the clauses that waited.
  Waited-Solved :
      (cube : List ℤ) (f : ℕ → ℕ) (lost given_up : List ClauseExchange) (accepted : Bool)
      (m : Maple solver api) (h : Heap)
      → Waited f lost (accepted, given_up, m) h
      → Runs
          (elim accepted [
            | false ↦ pure (unsat, given_up, m)
            | true ↦ (search_cube solver api cube m >>= λ (res, m'). pure (res, given_up, m'))
          ])
          h
          (Solved f lost)
  Waited-Solved cube f lost given_up false m h w =
      ((unsat, given_up, m), h, refl, (w.0, w.1, inl refl))
  Waited-Solved cube f lost given_up true m h w =
      Runs-bind (search_cube solver api cube m) _ h _ _ (search_cube-Runs cube _ m h w.0)
        (λ r h' o. ((r.0, given_up, r.1), h', refl, (o, w.1, inr (none_lost w.2))))

  -- The clauses that wait to be added, and the state of the solver that gets them.
  abbrev pub waiting : Maple solver api → List ClauseExchange
  waiting m = api.contents m.clauses_to_add

  -- `solve` runs to its end without a fault, whatever the search does. It gives up the references to
  -- the clauses that waited to be added, except those behind the first one that the solver refuses:
  -- it keeps their references and has no pointer to them any more. Then its result is UNSAT. Needed: the clauses in the buffer of units have a literal.
  pub solve-Runs :
      (cube : List ℤ) (f : ℕ → ℕ) (m : Maple solver api) (h : Heap)
      → OwnedMaple solver api f m h
      → Runs
          (solve solver api cube m)
          h
          (Solved f (behind_refused (waiting m) (solver.clear_interrupt m.core)))
  unfolding solve unset_solver_interrupt
  solve-Runs cube f m h o =
      let b = m.clauses_to_add in
      let m' : Maple solver api = record (unset_solver_interrupt solver api m) {
        clauses_to_add = (api.get_clauses b).1;
      } in
      Runs-bind (add_waiting solver api (api.get_clauses b).0 m') _ h _ _
        (subst
          (λ cs.
            Runs (add_waiting solver api (api.get_clauses b).0 m') h
              (Waited f (behind_refused cs (solver.clear_interrupt m.core))))
          (api.get-contents b)
          (add_waiting-Runs (api.get_clauses b).0 f m' h (
            o.0,
            IsAccounted-cong
                (λ a.
                  omega
                    (arith, ap (count a) (api.get-contents b), ap (count a) (api.contents-get b)))
                o.1,
          )))
        (λ r h' w.
          Waited-Solved cube f (behind_refused (waiting m) (solver.clear_interrupt m.core)) r.1 r.0
            r.2 h' w)
