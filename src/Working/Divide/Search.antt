-- ===== src/Working/Divide/Search.antt =====
-- The runs of the strategy: rounds of the master and joins of workers, in any order. A worker joins
-- with UNKNOWN when it was interrupted to split, and is right about its own cube otherwise.
use dpainless.Prelude.{
  ℕ, ◌<◌, ◌≡◌, ◌≢◌, List, ◌∷◌, Option, some, ℤ, pos, arith, ltb, le_of_ltb, ap, ◌∙◌, sym,
  Bool-cases, inl, inr, ◌==◌, occurrences,
}
use dpainless.Working.Strategy.{sat, unsat, unknown, Call}
use dpainless.Working.Divide.{
  DivideAndConquer, interrupt_worker, master_round, split_with, finish, drop_solver, after_retire,
  join,
}
use dpainless.Working.Divide.Balance.{
  IsBalanced, IsActive, split_with-IsBalanced, interrupt_worker-IsBalanced,
}
use dpainless.Working.Divide.Joins.{
  IsRetired, SameLists-IsBalanced, finish-SameLists, after_retire-SameLists, join_unknown-IsSplit,
  retire-IsRetired,
}
use dpainless.Working.Divide.Cases.{
  on_result, master_round_cases, join-splits, join-retires, join-finds,
}
use dpainless.Working.Divide.Cover.{
  Assignment, IsRefuted, IsCovered, split_with-IsCovered, interrupt_worker-IsCovered,
  IsRetired-IsCovered, SameLists-IsCovered, IsCovered-IsRefuted,
}

module _ (Models : Assignment → Type 0) (IsModel : List ℤ → Type 0) where
  pub data Step : DivideAndConquer → DivideAndConquer → Type 0 where
    interrupts :
        (dc : DivideAndConquer) (r : DivideAndConquer × List Call)
        → master_round dc ≡ some r
        → Step dc r.0
    splits :
        (dc : DivideAndConquer) (current solver : ℕ) (model : List ℤ) (var : ℤ)
        (r : DivideAndConquer × List Call)
        → 0 < occurrences current dc.workers_splitting
        → var ≢ pos 0
        → join current unknown model var (some solver) dc ≡ some r
        → Step dc r.0
    refutes :
        (dc : DivideAndConquer) (current : ℕ) (model : List ℤ) (var : ℤ) (cloned : Option ℕ)
        (r : DivideAndConquer × List Call)
        → IsActive dc current
        → IsRefuted Models (dc.cubes current)
        → join current unsat model var cloned dc ≡ some r
        → Step dc r.0
    finds :
        (dc : DivideAndConquer) (current : ℕ) (model : List ℤ) (var : ℤ) (cloned : Option ℕ)
        (r : DivideAndConquer × List Call)
        → IsActive dc current
        → IsModel model
        → join current sat model var cloned dc ≡ some r
        → Step dc r.0

  -- What follows from a state by steps.
  pub data Steps : DivideAndConquer → DivideAndConquer → Type 0 where
    stay : (dc : DivideAndConquer) → Steps dc dc
    step : (s t u : DivideAndConquer) → Steps s t → Step t u → Steps s u

  -- The answer that the strategy has given, if it has, is right.
  pub record HasAnswer (dc : DivideAndConquer) : Type 0 where
    pub refuted : dc.globals.final_result ≡ unsat → IsRefuted Models dc.actual_cube
    pub found : dc.globals.final_result ≡ sat → IsModel dc.globals.final_model

  pub record IsSound (dc : DivideAndConquer) : Type 0 where
    pub balanced : IsBalanced dc
    pub covered : IsCovered Models dc
    pub answer : HasAnswer dc

  finish_sat-HasAnswer :
      (model : List ℤ) (dc : DivideAndConquer)
      → IsModel model
      → HasAnswer dc
      → HasAnswer (finish sat model dc).0
  unfolding finish
  finish_sat-HasAnswer model dc m a = record {
    refuted = λ e. ground (arith, a.refuted);
    found = λ e. ground (arith, a.found);
  }

  finish_unsat-HasAnswer :
      (model : List ℤ) (dc : DivideAndConquer)
      → IsRefuted Models dc.actual_cube
      → HasAnswer dc
      → HasAnswer (finish unsat model dc).0
  unfolding finish
  finish_unsat-HasAnswer model dc m a = record {
    refuted = λ e s c h k. ground (arith, a.refuted, m s c h);
    found = λ e. ground (arith, a.found);
  }

  drop_solver-HasAnswer :
      (current : ℕ) (dc : DivideAndConquer) → HasAnswer dc → HasAnswer (drop_solver current dc).0
  unfolding drop_solver
  drop_solver-HasAnswer current dc a = elim (Bool-cases (dc.clone_strategy == 2)) [
    | inl copies ↦ rw copies (record { refuted = a.refuted; found = a.found })
    | inr shares ↦ rw shares a
  ]

  after_retire-HasAnswer :
      (current : ℕ) (model : List ℤ) (dc : DivideAndConquer)
      → (dc.n_workers ≡ 0 → IsRefuted Models dc.actual_cube)
      → HasAnswer dc
      → HasAnswer (after_retire current model dc).0
  unfolding after_retire
  after_retire-HasAnswer current model dc u a = elim (Bool-cases (ltb 0 dc.n_workers)) [
    | inl more ↦ rw more (drop_solver-HasAnswer current dc a)
    | inr last ↦
        rw last
          (finish_unsat-HasAnswer model dc (u (omega (arith, le_of_ltb 0 dc.n_workers last))) a)
  ]

  retired-IsSound :
      (dc : DivideAndConquer) (current : ℕ) (model : List ℤ) (dc' : DivideAndConquer)
      → IsRetired dc current dc'
      → IsRefuted Models (dc.cubes current)
      → IsSound dc
      → IsSound (after_retire current model dc').0
  retired-IsSound dc current model dc' r u i =
      let cover = IsRetired-IsCovered Models dc current dc' r u i.covered in
      let same = after_retire-SameLists current model dc' in
      record {
        balanced = SameLists-IsBalanced dc' _ same r.balanced;
        covered = SameLists-IsCovered Models dc' _ same cover;
        answer =
            after_retire-HasAnswer current model dc'
              (λ z. IsCovered-IsRefuted Models dc' r.balanced z cover)
              (record {
                refuted = λ e.
                    rw r.actual_cube
                      (i.answer.refuted (sym (ap (λ g. g.final_result) r.globals) ∙ e));
                found = λ e.
                    rw r.globals (i.answer.found (sym (ap (λ g. g.final_result) r.globals) ∙ e));
              });
      }

  found-IsSound :
      (model : List ℤ) (dc : DivideAndConquer)
      → IsModel model
      → IsSound dc
      → IsSound (finish sat model dc).0
  found-IsSound model dc m i = record {
    balanced = SameLists-IsBalanced dc _ (finish-SameLists sat model dc) i.balanced;
    covered = SameLists-IsCovered Models dc _ (finish-SameLists sat model dc) i.covered;
    answer = finish_sat-HasAnswer model dc m i.answer;
  }

  split-IsSound :
      (dc : DivideAndConquer) (current over : ℕ) (rest : List ℕ) (var : ℤ) (cloned : Option ℕ)
      (calls : List Call)
      → 0 < occurrences current dc.workers_splitting
      → dc.overs_splitting ≡ over ∷ rest
      → var ≢ pos 0
      → IsSound dc
      → IsSound (split_with current over rest var cloned calls dc).0
  unfolding split_with
  split-IsSound dc current over rest var cloned calls a e n i = record {
    balanced = split_with-IsBalanced dc i.balanced current over rest var cloned calls a e;
    covered =
        split_with-IsCovered Models dc current over rest var cloned calls i.balanced a e n
          i.covered;
    answer = record { refuted = i.answer.refuted; found = i.answer.found };
  }

  cut-IsSound :
      (dc : DivideAndConquer) (w o : ℕ) (workers overs : List ℕ)
      → dc.workers ≡ w ∷ workers
      → dc.overs ≡ o ∷ overs
      → IsSound dc
      → IsSound (interrupt_worker w workers o overs dc).0
  unfolding interrupt_worker
  cut-IsSound dc w o workers overs k j i = record {
    balanced = interrupt_worker-IsBalanced dc i.balanced w o workers overs k j;
    covered = interrupt_worker-IsCovered Models dc w o workers overs i.balanced k j i.covered;
    answer = record { refuted = i.answer.refuted; found = i.answer.found };
  }

  pub Step-IsSound : (s t : DivideAndConquer) → Step s t → IsSound s → IsSound t
  Step-IsSound s t (interrupts dc r e) i =
      master_round_cases IsSound dc r i
        (λ w o workers overs k j. cut-IsSound dc w o workers overs k j i) e
  Step-IsSound s t (splits dc current solver model var r a n e) i =
      let (over, rest, calls, p) = join_unknown-IsSplit dc current var solver i.balanced a in
      on_result IsSound (join current unknown model var (some solver) dc)
        (split_with current over rest var (some solver) calls dc) r
        (join-splits dc current over rest var (some solver) model calls p) e
        (split-IsSound dc current over rest var (some solver) calls a p.head n i)
  Step-IsSound s t (refutes dc current model var cloned r a u e) i =
      let (dc', p) = retire-IsRetired dc current i.balanced a in
      on_result IsSound (join current unsat model var cloned dc) (after_retire current model dc') r
        (join-retires dc current model var cloned dc' p) e
        (retired-IsSound dc current model dc' p u i)
  Step-IsSound s t (finds dc current model var cloned r a m e) i =
      on_result IsSound (join current sat model var cloned dc) (finish sat model dc) r
        (join-finds dc current model var cloned) e (found-IsSound model dc m i)

  pub Steps-IsSound : (s t : DivideAndConquer) → Steps s t → IsSound s → IsSound t
  Steps-IsSound s t (stay dc) i = i
  Steps-IsSound s t (step s₀ t' u h k) i = Step-IsSound t' u k (Steps-IsSound s t' h i)
