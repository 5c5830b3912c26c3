-- ===== src/Working/Divide/Joins.antt =====
-- The joins of a worker that has a cube, with UNKNOWN and with UNSAT.
use native.Mathlib.Decide.{dec_lt}
use dpainless.Prelude.{
  ℕ, zero, suc, ◌+◌, ◌-◌, ◌<◌, ◌≡◌, refl, List, [], ◌∷◌, ◌++◌, Option, some, ℤ, true, false, arith,
  length, ◌==◌, occurrences, occurrences-append, ap, Bool-cases, inl, inr,
}
use dpainless.Working.Strategy.{SatResult, unsat, Call}
use dpainless.Working.Vectors.{
  remove_from_vector, does_vector_contain, is_one, occurrences-remove, length-remove, contains_iff,
  add_tail-new, add_head-new,
}
use dpainless.Working.Divide.{
  DivideAndConquer, clone_calls, division_calls, split_with, join_unknown, finish, retire,
  drop_solver, after_retire,
}
use dpainless.Working.Divide.Balance.{
  IsBalanced, IsActive, get_head-some, positive_length, occurrences-head,
}

-- Two states that differ at most in their solvers, counters of divisions, and results.
pub record SameLists (s t : DivideAndConquer) : Type 0 where
  pub slaves : t.slaves ≡ s.slaves
  pub overs : t.overs ≡ s.overs
  pub workers : t.workers ≡ s.workers
  pub workers_splitting : t.workers_splitting ≡ s.workers_splitting
  pub overs_splitting : t.overs_splitting ≡ s.overs_splitting
  pub n_workers : t.n_workers ≡ s.n_workers
  pub cubes : t.cubes ≡ s.cubes
  pub actual_cube : t.actual_cube ≡ s.actual_cube

pub finish-SameLists :
    (res : SatResult) (model : List ℤ) (dc : DivideAndConquer)
    → SameLists dc (finish res model dc).0
unfolding finish
finish-SameLists res model dc = ground arith

drop_solver-SameLists :
    (current : ℕ) (dc : DivideAndConquer) → SameLists dc (drop_solver current dc).0
unfolding drop_solver
drop_solver-SameLists current dc = ground arith

pub after_retire-SameLists :
    (current : ℕ) (model : List ℤ) (dc : DivideAndConquer)
    → SameLists dc (after_retire current model dc).0
unfolding after_retire
after_retire-SameLists current model dc =
    ground (arith, finish-SameLists unsat model dc, drop_solver-SameLists current dc)

pub SameLists-IsBalanced : (s t : DivideAndConquer) → SameLists s t → IsBalanced s → IsBalanced t
SameLists-IsBalanced s t e b = record {
  placed =
      λ v. rw (e.slaves, e.overs, e.workers, e.workers_splitting, e.overs_splitting) (b.placed v);
  once = λ v. rw e.slaves (b.once v);
  counted = rw (e.n_workers, e.workers, e.workers_splitting) b.counted;
  paired = rw (e.workers_splitting, e.overs_splitting) b.paired;
}

-- A join with UNKNOWN that splits for the first of the overs to split.
pub record IsSplit (dc : DivideAndConquer) (current : ℕ) (var : ℤ) (cloned : Option ℕ) (over : ℕ)
    (rest : List ℕ) (calls : List Call) : Type 0 where
  pub head : dc.overs_splitting ≡ over ∷ rest
  pub eq :
      join_unknown current var cloned dc ≡ some (split_with current over rest var cloned calls dc)

cloned_calls : (n s : ℕ) → (calls : List Call) × (clone_calls n (some s) ≡ some calls)
unfolding clone_calls
cloned_calls zero s = ([], refl)
cloned_calls (suc n) s = (_, refl)

division_calls-some :
    (dc : DivideAndConquer) (s : ℕ)
    → (calls : List Call) × (division_calls dc (some s) ≡ some calls)
unfolding division_calls
division_calls-some dc s = elim (Bool-cases (dc.clone_strategy == 2)) [
  | inl y ↦ let (calls, q) = cloned_calls dc.n_sharers s in (calls, rw y q)
  | inr n ↦ ([], rw n refl)
]

-- A join with UNKNOWN of a worker that was interrupted to split, in a balanced state, finds an over
-- at the head of `overs_splitting` and splits for it. A solver that is copied is taken to exist.
pub join_unknown-IsSplit :
    (dc : DivideAndConquer) (current : ℕ) (var : ℤ) (s : ℕ)
    → IsBalanced dc
    → 0 < occurrences current dc.workers_splitting
    → (over : ℕ) × (rest : List ℕ) × (calls : List Call) × IsSplit dc current var
        (some s)
        over
        rest
        calls
unfolding join_unknown
join_unknown-IsSplit dc current var s b a =
    let (over, rest, e, k) =
      get_head-some dc.overs_splitting
        (omega (arith, b.paired, positive_length current dc.workers_splitting a)) in
    let (calls, q) = division_calls-some dc s in
    (over, rest, calls, record { head = k; eq = rw (e, join_unknown) (rw (q, join_unknown) refl) })

-- What a join with UNSAT makes of the vectors: they are balanced, and `current` has left the active
-- workers.
pub record IsRetired (dc : DivideAndConquer) (current : ℕ) (dc' : DivideAndConquer) : Type 0 where
  pub eq : retire current dc ≡ some dc'
  pub balanced : IsBalanced dc'
  pub cubes : dc'.cubes ≡ dc.cubes
  pub actual_cube : dc'.actual_cube ≡ dc.actual_cube
  pub slaves : dc'.slaves ≡ dc.slaves
  pub globals : dc'.globals ≡ dc.globals
  pub strategy_ending : dc'.strategy_ending ≡ dc.strategy_ending
  pub has_parent : dc'.has_parent ≡ dc.has_parent
  pub n_workers : dc'.n_workers + 1 ≡ dc.n_workers
  pub active :
      (v : ℕ)
      → occurrences v dc.workers + occurrences v dc.workers_splitting
        ≡ is_one v current + (occurrences v dc'.workers + occurrences v dc'.workers_splitting)

retire_splitting :
    (dc : DivideAndConquer) (current : ℕ)
    → IsBalanced dc
    → 0 < occurrences current dc.workers_splitting
    → (dc' : DivideAndConquer) × IsRetired dc current dc'
unfolding retire
retire_splitting dc current b a =
    let (o, rest, e, k) =
      get_head-some dc.overs_splitting
        (omega (arith, b.paired, positive_length current dc.workers_splitting a)) in
    let found : does_vector_contain dc.workers_splitting current ≡ true =
      ground (arith, contains_iff current dc.workers_splitting) in
    let new_o : occurrences o dc.overs ≡ 0 =
      ground (arith, b.placed o, b.once o, occurrences-head o o dc.overs_splitting rest k) in
    let new_c : occurrences current (o ∷ dc.overs) ≡ 0 = ground (
      arith,
      b.placed current,
      b.once current,
      occurrences-head current o dc.overs_splitting rest k,
    ) in
    (
      record dc {
        n_cancelled_divisions = dc.n_cancelled_divisions + 1;
        overs_splitting = rest;
        overs = (o ∷ dc.overs) ++ current ∷ [];
        workers_splitting = remove_from_vector dc.workers_splitting current;
        n_workers = dc.n_workers - 1;
      },
      record {
        eq =
            rw (found, retire)
              (rw (e, retire)
                (rw (add_head-new o dc.overs new_o, add_tail-new current (o ∷ dc.overs) new_c)
                  refl));
        balanced = record {
          placed = λ v. ground (
            arith,
            b.placed v,
            occurrences-head v o dc.overs_splitting rest k,
            occurrences-append v (o ∷ dc.overs) (current ∷ []),
            occurrences-remove v current dc.workers_splitting,
          );
          once = b.once;
          counted = omega (arith, b.counted, length-remove current dc.workers_splitting a);
          paired =
              omega (arith, b.paired, ap length k, length-remove current dc.workers_splitting a);
        };
        cubes = refl;
        actual_cube = refl;
        slaves = refl;
        globals = refl;
        strategy_ending = refl;
        has_parent = refl;
        n_workers = omega (arith, b.counted, positive_length current dc.workers_splitting a);
        active = λ v. ground (arith, occurrences-remove v current dc.workers_splitting);
      },
    )

retire_working :
    (dc : DivideAndConquer) (current : ℕ)
    → IsBalanced dc
    → occurrences current dc.workers_splitting ≡ 0
    → 0 < occurrences current dc.workers
    → (dc' : DivideAndConquer) × IsRetired dc current dc'
unfolding retire
retire_working dc current b z a =
    let missing : does_vector_contain dc.workers_splitting current ≡ false =
      ground (arith, contains_iff current dc.workers_splitting) in
    let new_c : occurrences current dc.overs ≡ 0 =
      omega (arith, b.placed current, b.once current) in
    (
      record dc {
        workers = remove_from_vector dc.workers current;
        overs = dc.overs ++ current ∷ [];
        n_workers = dc.n_workers - 1;
      },
      record {
        eq = rw (missing, retire) (rw (add_tail-new current dc.overs new_c) refl);
        balanced = record {
          placed = λ v. ground (
            arith,
            b.placed v,
            occurrences-append v dc.overs (current ∷ []),
            occurrences-remove v current dc.workers,
          );
          once = b.once;
          counted = omega (arith, b.counted, length-remove current dc.workers a);
          paired = b.paired;
        };
        cubes = refl;
        actual_cube = refl;
        slaves = refl;
        globals = refl;
        strategy_ending = refl;
        has_parent = refl;
        n_workers = omega (arith, b.counted, positive_length current dc.workers a);
        active = λ v. ground (arith, occurrences-remove v current dc.workers);
      },
    )

-- The lists of a join with UNSAT of a worker with a cube are updated without a use of a pointer that
-- is not set. They stay balanced, `n_workers` drops by one, the worker gives up its cube and all
-- others keep theirs.
pub retire-IsRetired :
    (dc : DivideAndConquer) (current : ℕ)
    → IsBalanced dc
    → IsActive dc current
    → (dc' : DivideAndConquer) × IsRetired dc current dc'
retire-IsRetired dc current b a = elim (dec_lt 0 (occurrences current dc.workers_splitting)) [
  | yes h ↦ retire_splitting dc current b h
  | no h ↦ retire_working dc current b (omega arith) (omega arith)
]
