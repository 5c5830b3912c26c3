-- ===== src/Working/Divide/Answer.antt =====
-- From the start of the master's thread to the answer.
use dpainless.Prelude.{
  map, ◌∙◌, ℕ, ◌+◌, ◌<◌, ◌≤◌, ◌≡◌, refl, List, [], ◌∷◌, ◌++◌, Option, some, ℤ, true, false, arith,
  length, sym, if◌then◌else◌, occurrences,
}
use dpainless.Working.Strategy.{set_interrupt, unsat, unknown, Call, solve}
use dpainless.Working.Vectors.{does_vector_contain, contains_iff}
use dpainless.Working.Divide.{DivideAndConquer, launch, after_retire, finish, join}
use dpainless.Working.Divide.Balance.{IsBalanced, IsActive, get_head-some, occurrences-head}
use dpainless.Working.Divide.Joins.{retire-IsRetired}
use dpainless.Working.Divide.Cases.{join-retires, on_result}
use dpainless.Working.Divide.Cover.{Assignment}
use dpainless.Working.Divide.Search.{IsSound, Steps, Steps-IsSound}

-- The strategy before its master starts: it has a worker, none twice, and no answer.
pub record IsReady (dc : DivideAndConquer) : Type 0 where
  pub some_slave : 0 < length dc.slaves
  pub once : (v : ℕ) → occurrences v dc.slaves ≤ 1
  pub no_overs : dc.overs ≡ []
  pub no_workers : dc.workers ≡ []
  pub no_workers_splitting : dc.workers_splitting ≡ []
  pub no_overs_splitting : dc.overs_splitting ≡ []
  pub none_counted : dc.n_workers ≡ 0
  pub no_result : dc.globals.final_result ≡ unknown

-- The state of the launched strategy.
pub record IsLaunched (dc : DivideAndConquer) (w : ℕ) (rest : List ℕ)
    (r : DivideAndConquer × List Call) : Type 0 where
  pub eq : launch dc ≡ some r
  pub slaves : dc.slaves ≡ w ∷ rest
  pub kept : r.0.slaves ≡ dc.slaves
  pub overs : r.0.overs ≡ rest
  pub workers : r.0.workers ≡ w ∷ []
  pub workers_splitting : r.0.workers_splitting ≡ []
  pub overs_splitting : r.0.overs_splitting ≡ []
  pub n_workers : r.0.n_workers ≡ 1
  pub cube : r.0.cubes w ≡ dc.actual_cube
  pub actual_cube : r.0.actual_cube ≡ dc.actual_cube
  pub no_result : r.0.globals.final_result ≡ unknown

pub launch-IsLaunched :
    (dc : DivideAndConquer)
    → IsReady dc
    → (w : ℕ) × (rest : List ℕ) × (r : DivideAndConquer × List Call) × IsLaunched dc w rest r
unfolding launch
launch-IsLaunched dc i =
    let (w, rest, e, k) = get_head-some dc.slaves i.some_slave in
    let found : does_vector_contain dc.slaves w ≡ true =
      ground (arith, contains_iff w dc.slaves, occurrences-head w w dc.slaves rest k) in
    (
      w,
      rest,
      (
        record dc {
          overs = rest;
          workers = dc.workers ++ w ∷ [];
          n_workers = dc.n_workers + 1;
          cubes = λ v. if does_vector_contain dc.slaves v then dc.actual_cube else dc.cubes v;
        },
        solve w (if does_vector_contain dc.slaves w then dc.actual_cube else dc.cubes w) ∷ [],
      ),
      record {
        eq = rw (i.no_overs, launch) (rw (e, launch) refl);
        slaves = k;
        kept = refl;
        overs = refl;
        workers = rw i.no_workers refl;
        workers_splitting = i.no_workers_splitting;
        overs_splitting = i.no_overs_splitting;
        n_workers = omega (arith, i.none_counted);
        cube = rw found refl;
        actual_cube = refl;
        no_result = i.no_result;
      },
    )

launched-IsBalanced :
    (dc : DivideAndConquer) (w : ℕ) (rest : List ℕ) (r : DivideAndConquer × List Call)
    → IsReady dc
    → IsLaunched dc w rest r
    → IsBalanced r.0
launched-IsBalanced dc w rest r i l = record {
  placed = λ v.
      rw (l.kept, l.overs, l.workers, l.workers_splitting, l.overs_splitting)
        (omega (arith, occurrences-head v w dc.slaves rest l.slaves));
  once = λ v. rw l.kept (i.once v);
  counted = rw (l.n_workers, l.workers, l.workers_splitting) refl;
  paired = rw (l.workers_splitting, l.overs_splitting) refl;
}

module _ (Models : Assignment → Type 0) (IsModel : List ℤ → Type 0) where
  launched-IsSound :
      (dc : DivideAndConquer) (w : ℕ) (rest : List ℕ) (r : DivideAndConquer × List Call)
      → IsReady dc
      → IsLaunched dc w rest r
      → IsSound Models IsModel r.0
  launched-IsSound dc w rest r i l = record {
    balanced = launched-IsBalanced dc w rest r i l;
    covered = λ s c m k. (w, rw l.workers (ground arith), rw l.cube (rw (sym l.actual_cube) k));
    answer = record {
      refuted = λ e. ground (arith, l.no_result);
      found = λ e. ground (arith, l.no_result);
    };
  }

  -- From the start of a strategy that is ready: the vectors of the strategy hold each worker once and
  -- agree with `n_workers`, whatever satisfies the cube of the search satisfies that of an active
  -- worker, and a final result is right: SAT comes with a model, and UNSAT only when the formula has
  -- no model that satisfies the cube. The workers' answers about their own cubes are taken to be right.
  pub divide-IsSound :
      (dc : DivideAndConquer) (r : DivideAndConquer × List Call) (t : DivideAndConquer)
      → IsReady dc
      → launch dc ≡ some r
      → Steps Models IsModel r.0 t
      → IsSound Models IsModel t
  divide-IsSound dc r t i e h =
      let (w, rest, r', l) = launch-IsLaunched dc i in
      Steps-IsSound Models IsModel r.0 t h (
        on_result (IsSound Models IsModel) (launch dc) r' r l.eq e
          (launched-IsSound dc w rest r' i l))

pub last_join-ends :
    (dc : DivideAndConquer) (current : ℕ) (model : List ℤ) (var : ℤ) (cloned : Option ℕ)
    → IsBalanced dc
    → IsActive dc current
    → dc.n_workers ≡ 1
    → dc.strategy_ending ≡ false
    → dc.has_parent ≡ false
    → (r : DivideAndConquer × List Call) × (join current unsat model var cloned dc ≡ some r)
      × (r.0.globals.final_result ≡ unsat)
      × (r.0.globals.global_ending ≡ true)
unfolding after_retire finish
last_join-ends dc current model var cloned b a n e p =
    let (dc', i) = retire-IsRetired dc current b a in
    (
      after_retire current model dc',
      join-retires dc current model var cloned dc' i,
      ground (arith, i.n_workers, i.strategy_ending, i.has_parent),
      ground (arith, i.n_workers, i.strategy_ending, i.has_parent),
    )

no_elements : (xs : List ℕ) → length xs ≡ 0 → xs ≡ []
no_elements [] e = refl
no_elements (x ∷ xs) e = absurd (omega arith)

-- When the last worker with a cube joins with UNSAT, and there is no parent and no answer yet, the
-- vector of workers is empty afterwards, and the join only interrupts: it does not signal the master,
-- which waits as long as that vector is empty.
pub last_join-silent :
    (dc : DivideAndConquer) (current : ℕ) (model : List ℤ) (var : ℤ) (cloned : Option ℕ)
    → IsBalanced dc
    → IsActive dc current
    → dc.n_workers ≡ 1
    → dc.strategy_ending ≡ false
    → dc.has_parent ≡ false
    → (r : DivideAndConquer × List Call) × (join current unsat model var cloned dc ≡ some r)
      × (r.0.workers ≡ [])
      × (r.1 ≡ set_interrupt current ∷ map set_interrupt dc.slaves)
unfolding after_retire finish
last_join-silent dc current model var cloned b a n e p =
    let (dc', i) = retire-IsRetired dc current b a in
    let z : dc'.n_workers ≡ 0 = omega (arith, i.n_workers) in
    let w : dc'.workers ≡ [] = no_elements dc'.workers (omega (arith, i.balanced.counted)) in
    (
      after_retire current model dc',
      join-retires dc current model var cloned dc' i,
      ground (arith, w, z, i.strategy_ending, i.has_parent),
      rw (w, z, i.strategy_ending ∙ e, i.has_parent ∙ p, i.slaves) refl,
    )
