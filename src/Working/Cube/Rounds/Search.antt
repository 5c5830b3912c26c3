-- ===== src/Working/Cube/Rounds/Search.antt =====
-- The runs of cube and conquer: rounds of the master and joins of workers, in any order. A worker joins
-- with UNSAT when its sub-problem is refuted, and does so once before the next round.
use dpainless.Prelude.{
  ℕ, ◌-◌, ◌≤◌, ◌<◌, ◌≡◌, sym, ap, ◌∙◌, List, [], ◌∷◌, ◌++◌, ℤ, true, false, ltb, le_of_ltb, ltb→lt,
  Bool-cases, inl, inr, branch, arith, length-append, get_elem?, ◌==◌, ==_iff, occurrences,
  occurrences-append,
}
use dpainless.Working.Strategy.{sat, unsat, unknown, Call}
use dpainless.Working.Divide.Cover.{Assignment, satisfies}
use dpainless.Working.Cube.{CubeAndConquer, is_first, start_next, finish, lose_job, join}
use dpainless.Working.Cube.Jobs.{some_or_none}
use dpainless.Working.Cube.Rounds.{Division, round}
use dpainless.Working.Cube.Rounds.Sizes.{IsArranged, IsActive, IsActive-unique}
use dpainless.Working.Cube.Rounds.Cover.{IsFair, IsCovered, IsRefuted}

module _ (Models : Assignment → Type 0) (IsModel : List ℤ → Type 0) where
  pub data Step : CubeAndConquer → CubeAndConquer → Type 0 where
    rounds :
        (c : CubeAndConquer) (sort : List ℕ → List ℕ) (choose : ℕ → Division)
        → c.strategy_ending ≡ false
        → ((ws : List ℕ) (v : ℕ) → occurrences v (sort ws) ≡ occurrences v ws)
        → ((t : ℕ) → 0 < occurrences t c.workers → IsFair c.units t (choose t))
        → Step c (round sort choose c).0
    refutes :
        (c : CubeAndConquer) (w : ℕ) (model : List ℤ)
        → IsActive c w
        → IsRefuted Models c.actual_cube (c.units w)
        → Step c (join w unsat model c).0
    refutes_all :
        (c : CubeAndConquer) (w : ℕ) (model : List ℤ)
        → is_first w c.slaves ≡ true
        → IsRefuted Models c.actual_cube []
        → Step c (join w unsat model c).0
    finds :
        (c : CubeAndConquer) (w : ℕ) (model : List ℤ)
        → IsModel model
        → Step c (join w sat model c).0
    stops : (c : CubeAndConquer) (w : ℕ) (model : List ℤ) → Step c (join w unknown model c).0

  -- What follows from a state by steps.
  pub data Steps : CubeAndConquer → CubeAndConquer → Type 0 where
    stay : (c : CubeAndConquer) → Steps c c
    step : (s t u : CubeAndConquer) → Steps s t → Step t u → Steps s u

  -- The answer that the strategy has given, if it has, is right.
  pub record HasAnswer (c : CubeAndConquer) : Type 0 where
    pub refuted : c.globals.final_result ≡ unsat → IsRefuted Models c.actual_cube []
    pub found : c.globals.final_result ≡ sat → IsModel c.globals.final_model

  -- While it runs, the vectors are in order and the sub-problems cover the search space.
  pub record IsSound (first : ℕ) (c : CubeAndConquer) : Type 0 where
    pub searching : c.strategy_ending ≡ false → IsArranged first c × IsCovered Models c
    pub answer : HasAnswer c

  pub finish_sat-IsSound :
      (first : ℕ) (model : List ℤ) (c : CubeAndConquer)
      → IsModel model
      → HasAnswer c
      → IsSound first (finish sat model c).0
  unfolding finish
  finish_sat-IsSound first model c m a = elim (Bool-cases c.has_parent) [
    | inl below ↦
        rw below
          (record { searching = λ e. cc; answer = record { refuted = a.refuted; found = a.found } })
    | inr top ↦
        rw top
          (record { searching = λ e. cc; answer = record { refuted = λ e. cc; found = λ e. m } })
  ]

  pub finish_unsat-IsSound :
      (first : ℕ) (model : List ℤ) (c : CubeAndConquer)
      → IsRefuted Models c.actual_cube []
      → HasAnswer c
      → IsSound first (finish unsat model c).0
  unfolding finish
  finish_unsat-IsSound first model c m a = elim (Bool-cases c.has_parent) [
    | inl below ↦
        rw below
          (record { searching = λ e. cc; answer = record { refuted = a.refuted; found = a.found } })
    | inr top ↦
        rw top
          (record { searching = λ e. cc; answer = record { refuted = λ e. m; found = λ e. cc } })
  ]

  start_next-IsSound :
      (first : ℕ) (c : CubeAndConquer) → IsSound first c → IsSound first (start_next c).0
  unfolding start_next
  start_next-IsSound first c i =
      some_or_none {B = CubeAndConquer × List Call} (λ r. IsSound first r.0)
        (get_elem? c.workers c.next) i
        (λ w. record {
          searching = λ e.
              let (a, k) = i.searching e in
              (
                record {
                  once = a.once;
                  within = a.within;
                  counted = a.counted;
                  head = a.head;
                  apart = a.apart;
                  old = a.old;
                  fresh = a.fresh;
                },
                λ s n m q. k s n m q,
              );
          answer = record { refuted = i.answer.refuted; found = i.answer.found };
        })

  -- The sub-problem of `w` is over, and others are left.
  over-IsSound :
      (first : ℕ) (c : CubeAndConquer) (w : ℕ)
      → IsActive c w
      → IsRefuted Models c.actual_cube (c.units w)
      → 0 < c.n_jobs - 1
      → IsArranged first c
      → IsCovered Models c
      → HasAnswer c
      → IsSound first (record c { n_jobs = c.n_jobs - 1; over = c.over ++ w ∷ [] })
  over-IsSound first c w (h, o) u n a k i = record {
    searching = λ e. (
      record {
        once = a.once;
        within = λ v. ground (arith, occurrences-append v c.over (w ∷ []), a.within v, h, o);
        counted = omega (arith, length-append c.over (w ∷ []), a.counted, n);
        head = a.head;
        apart = a.apart;
        old = a.old;
        fresh = a.fresh;
      },
      λ s x m q.
          let (v, (j, p), r) = k s x m q in
          elim (Bool-cases (v == w)) [
            | inl same ↦
                absurd
                  (u s x m q (sym (ap (λ t. satisfies s (c.units t)) ((==_iff v w).0 same)) ∙ r))
            | inr other ↦ (v, (j, ground (arith, occurrences-append v c.over (w ∷ []), p)), r)
          ],
    );
    answer = record { refuted = i.refuted; found = i.found };
  }

  -- With no other sub-problem, the formula is refuted.
  last-IsRefuted :
      (first : ℕ) (c : CubeAndConquer) (w : ℕ)
      → IsActive c w
      → IsRefuted Models c.actual_cube (c.units w)
      → c.n_jobs ≤ 1
      → IsArranged first c
      → IsCovered Models c
      → IsRefuted Models c.actual_cube []
  last-IsRefuted first c w h u n a k s x m q _ =
      let (v, j, r) = k s x m q in
      let same = IsActive-unique first c w v a n h j in
      u s x m q (sym (ap (λ t. satisfies s (c.units t)) ((==_iff v w).0 same)) ∙ r)

  pub lose_job-IsSound :
      (first : ℕ) (c : CubeAndConquer) (w : ℕ) (model : List ℤ)
      → IsActive c w
      → IsRefuted Models c.actual_cube (c.units w)
      → IsArranged first c
      → IsCovered Models c
      → HasAnswer c
      → IsSound first (lose_job w model (record c { n_jobs = c.n_jobs - 1 })).0
  unfolding lose_job
  lose_job-IsSound first c w model h u a k i =
      branch {A = CubeAndConquer × List Call} (λ r. IsSound first r.0) (ltb 0 (c.n_jobs - 1))
        (λ more.
          start_next-IsSound first (record c { n_jobs = c.n_jobs - 1; over = c.over ++ w ∷ [] })
            (over-IsSound first c w h u (ltb→lt 0 (c.n_jobs - 1) more) a k i))
        (λ last.
          finish_unsat-IsSound first model (record c { n_jobs = c.n_jobs - 1 })
            (last-IsRefuted first c w h u (omega (arith, le_of_ltb 0 (c.n_jobs - 1) last)) a k)
            (record { refuted = i.refuted; found = i.found }))
