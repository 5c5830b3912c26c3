-- ===== src/Working/Cube/Rounds/Answer.antt =====
-- Cube and conquer as a whole: the start, the runs and the answer.
use dpainless.Prelude.{
  ℕ, ◌-◌, ◌<◌, ◌≡◌, refl, sym, ap, ◌∙◌, List, [], ◌∷◌, ℤ, true, false, not, branch, arith, ◌==◌,
}
use dpainless.Working.Strategy.{sat, unsat, unknown, Call}
use dpainless.Working.Divide.Cover.{Assignment, satisfies}
use dpainless.Working.Cube.{CubeAndConquer, is_first, solve_cube, join}
use mathlib.Core.Path.{subst}
use dpainless.Working.Cube.Rounds.{
  Division, push_worker, start, begin, erase_over, first_workers, divide, divide_all, launch_round,
  round,
}
use dpainless.Working.Cube.Rounds.Sizes.{
  erase_over_lem, sort_if_many_ind, IsArranged, IsActive, push_worker-IsArranged,
}
use dpainless.Working.Cube.Rounds.Cover.{IsRefuted, round_ind}
use dpainless.Working.Cube.Rounds.Search.{
  Step, rounds, refutes, refutes_all, finds, stops, Steps, stay, step, HasAnswer, IsSound,
  finish_sat-IsSound, finish_unsat-IsSound, lose_job-IsSound,
}

-- Before the start there is the first slave, and no worker.
pub record IsReady (first : ℕ) (c : CubeAndConquer) : Type 0 where
  pub head : (rest : List ℕ) × (c.slaves ≡ first ∷ rest)
  pub no_workers : c.workers ≡ []
  pub no_over : c.over ≡ []
  pub old : first < c.created
  pub no_result : c.globals.final_result ≡ unknown

not_first :
    (first : ℕ) (c : CubeAndConquer) (w : ℕ)
    → IsArranged first c
    → IsActive c w
    → is_first w c.slaves ≡ false
not_first first c w a (h, o) =
    let (rest, e) = a.head in
    let other : (w == first) ≡ false = ground (arith, h, a.apart) in ap (is_first w) e ∙ other

divide_all-globals :
    (ts : List ℕ) (choose : ℕ → Division) (c : CubeAndConquer)
    → ((divide_all ts choose c).0.actual_cube ≡ c.actual_cube)
      × ((divide_all ts choose c).0.globals ≡ c.globals)
unfolding divide_all divide push_worker
divide_all-globals [] choose c = (refl, refl)
divide_all-globals (t ∷ ts) choose c = divide_all-globals ts choose (divide t (choose t) c).0

-- A round leaves the cube and the answer alone.
round-globals :
    (sort : List ℕ → List ℕ) (choose : ℕ → Division) (c : CubeAndConquer)
    → ((round sort choose c).0.actual_cube ≡ c.actual_cube)
      × ((round sort choose c).0.globals ≡ c.globals)
unfolding round launch_round
round-globals sort choose c =
    let erased = (erase_over c.over c).0 in
    let targets = first_workers (erased.max_cpus - 1) erased.workers in
    let divided = (divide_all targets choose erased).0 in
    let (cube, globals) = divide_all-globals targets choose erased in
    let removed = erase_over_lem c.over c in
    sort_if_many_ind (λ x. (x.actual_cube ≡ c.actual_cube) × (x.globals ≡ c.globals)) sort divided
      (cube ∙ ap (λ x. x.actual_cube) removed, globals ∙ ap (λ x. x.globals) removed)
      (cube ∙ ap (λ x. x.actual_cube) removed, globals ∙ ap (λ x. x.globals) removed)

module _ (Models : Assignment → Type 0) (IsModel : List ℤ → Type 0) where
  HasAnswer-same :
      (c d : CubeAndConquer)
      → (d.actual_cube ≡ c.actual_cube) × (d.globals ≡ c.globals)
      → HasAnswer Models IsModel c
      → HasAnswer Models IsModel d
  HasAnswer-same c d (cube, globals) a = record {
    refuted = λ e s n m q r.
        a.refuted (sym (ap (λ g. g.final_result) globals) ∙ e) s n m
          (sym (ap (satisfies s) cube) ∙ q) r;
    found = λ e.
        subst (λ g. IsModel g.final_model) (sym globals)
          (a.found (sym (ap (λ g. g.final_result) globals) ∙ e));
  }

  join_sat-IsSound :
      (first : ℕ) (c : CubeAndConquer) (w : ℕ) (model : List ℤ)
      → IsModel model
      → IsSound Models IsModel first c
      → IsSound Models IsModel first (join w sat model c).0
  unfolding join
  join_sat-IsSound first c w model m i =
      branch {A = CubeAndConquer × List Call} (λ r. IsSound Models IsModel first r.0)
        c.strategy_ending (λ e. i) (λ e. finish_sat-IsSound Models IsModel first model c m i.answer)

  join_unsat-IsSound :
      (first : ℕ) (c : CubeAndConquer) (w : ℕ) (model : List ℤ)
      → IsActive c w
      → IsRefuted Models c.actual_cube (c.units w)
      → IsSound Models IsModel first c
      → IsSound Models IsModel first (join w unsat model c).0
  unfolding join
  join_unsat-IsSound first c w model h u i =
      branch {A = CubeAndConquer × List Call} (λ r. IsSound Models IsModel first r.0)
        c.strategy_ending (λ e. i)
        (λ e.
          let (a, k) = i.searching e in
          branch {A = CubeAndConquer × List Call} (λ r. IsSound Models IsModel first r.0)
            (not (is_first w c.slaves))
            (λ f. lose_job-IsSound Models IsModel first c w model h u a k i.answer)
            (λ f. absurd (
              let g : not (is_first w c.slaves) ≡ true = ap not (not_first first c w a h) in
              ground (arith, f, g))))

  join_first-IsSound :
      (first : ℕ) (c : CubeAndConquer) (w : ℕ) (model : List ℤ)
      → is_first w c.slaves ≡ true
      → IsRefuted Models c.actual_cube []
      → IsSound Models IsModel first c
      → IsSound Models IsModel first (join w unsat model c).0
  unfolding join
  join_first-IsSound first c w model h u i =
      branch {A = CubeAndConquer × List Call} (λ r. IsSound Models IsModel first r.0)
        c.strategy_ending (λ e. i)
        (λ e.
          branch {A = CubeAndConquer × List Call} (λ r. IsSound Models IsModel first r.0)
            (not (is_first w c.slaves))
            (λ f.
              absurd (let g : not (is_first w c.slaves) ≡ false = ap not h in ground (arith, f, g)))
            (λ f. finish_unsat-IsSound Models IsModel first model c u i.answer))

  join-unknown : (c : CubeAndConquer) (w : ℕ) (model : List ℤ) → (join w unknown model c).0 ≡ c
  unfolding join
  join-unknown c w model = refl

  Step-IsSound :
      (first : ℕ) (s t : CubeAndConquer)
      → Step Models IsModel s t
      → IsSound Models IsModel first s
      → IsSound Models IsModel first t
  Step-IsSound first s t (rounds c sort choose e same fair) i =
      let (a, k) = i.searching e in
      record {
        searching = λ _. round_ind Models first sort choose c same fair a k;
        answer = HasAnswer-same c (round sort choose c).0 (round-globals sort choose c) i.answer;
      }
  Step-IsSound first s t (refutes c w model h u) i = join_unsat-IsSound first c w model h u i
  Step-IsSound first s t (refutes_all c w model h u) i = join_first-IsSound first c w model h u i
  Step-IsSound first s t (finds c w model m) i = join_sat-IsSound first c w model m i
  Step-IsSound first s t (stops c w model) i = rw (join-unknown c w model) i

  Steps-IsSound :
      (first : ℕ) (s t : CubeAndConquer)
      → Steps Models IsModel s t
      → IsSound Models IsModel first s
      → IsSound Models IsModel first t
  Steps-IsSound first s t (stay c) i = i
  Steps-IsSound first s t (step s₀ t' u h k) i =
      Step-IsSound first t' u k (Steps-IsSound first s t' h i)

  begin-IsSound :
      (first : ℕ) (cube kept : List ℤ) (c : CubeAndConquer)
      → IsReady first c
      → ((s : Assignment) → satisfies s kept ≡ true)
      → IsSound Models IsModel first (begin cube kept c).0
  unfolding begin start solve_cube push_worker
  begin-IsSound first cube kept c r free = record {
    searching = λ _. (
      push_worker-IsArranged first kept (solve_cube cube c) (λ v. rw r.no_workers (omega arith))
          (λ v. rw (r.no_workers, r.no_over) (omega arith)) (rw (r.no_workers, r.no_over) refl)
          r.head (rw r.no_workers refl) r.old (λ v h. rw r.no_workers refl),
      λ s n m q.
          (c.created, (rw r.no_workers (ground arith), rw r.no_over refl), ground (arith, free s)),
    );
    answer = record {
      refuted = λ e. absurd (ground (arith, e, r.no_result));
      found = λ e. absurd (ground (arith, e, r.no_result));
    };
  }

  pub cube-IsSound :
      (first : ℕ) (cube kept : List ℤ) (c d : CubeAndConquer)
      → IsReady first c
      → ((s : Assignment) → satisfies s kept ≡ true)
      → Steps Models IsModel (begin cube kept c).0 d
      → IsSound Models IsModel first d
  cube-IsSound first cube kept c d r free steps =
      Steps-IsSound first (begin cube kept c).0 d steps (begin-IsSound first cube kept c r free)
