-- ===== src/Working/Divide/Cases.antt =====
-- The results of a round of the master and of `join`, by cases.
use mathlib.Core.Option.{some-injective}
use dpainless.Prelude.{
  ℕ, ◌≡◌, refl, List, [], ◌∷◌, Option, some, ℤ, true, false, arith, ◌∙◌, sym, Bool-cases, ◌⊎◌, inl,
  inr, ◌==◌,
}
use dpainless.Working.Strategy.{sat, unsat, unknown, Call}
use dpainless.Working.Vectors.{get_head}
use dpainless.Working.Divide.{
  DivideAndConquer, Result, interrupt_worker, master_round, split_with, finish, after_retire, join,
}
use dpainless.Working.Divide.Joins.{IsSplit, IsRetired}

-- The list that a pattern of a computed head came from.
list_cases : (xs : List ℕ) → (xs ≡ []) ⊎ ((x : ℕ) × (rest : List ℕ) × (xs ≡ x ∷ rest))
list_cases [] = inl refl
list_cases (x ∷ rest) = inr (x, rest, refl)

-- A claim on the result of a call, from the result.
pub on_result :
    (P : DivideAndConquer → Type 0) (o : Result) (x r : DivideAndConquer × List Call)
    → o ≡ some x
    → o ≡ some r
    → P x.0
    → P r.0
on_result P o x r e k h = rw (sym (some-injective _ _ (sym e ∙ k))) h

master_round-idle :
    (dc : DivideAndConquer) → (dc.n_workers == 0) ≡ true → master_round dc ≡ some (dc, [])
unfolding master_round
master_round-idle dc z = rw z refl

master_round-cut :
    (dc : DivideAndConquer) (w o : ℕ) (workers overs : List ℕ)
    → (dc.n_workers == 0) ≡ false
    → dc.workers ≡ w ∷ workers
    → dc.overs ≡ o ∷ overs
    → master_round dc ≡ some (interrupt_worker w workers o overs dc)
unfolding master_round get_head
master_round-cut dc w o workers overs n k j = rw (n, k, j) refl

-- A round of the master that runs does nothing or interrupts a worker.
pub master_round_cases :
    (P : DivideAndConquer → Type 0) (dc : DivideAndConquer) (r : DivideAndConquer × List Call)
    → P dc
    → ((w o : ℕ) (workers overs : List ℕ)
        → dc.workers ≡ w ∷ workers
        → dc.overs ≡ o ∷ overs
        → P (interrupt_worker w workers o overs dc).0)
    → master_round dc ≡ some r
    → P r.0
unfolding master_round get_head
master_round_cases P dc r same cut e = elim (Bool-cases (dc.n_workers == 0)) [
  | inl z ↦ on_result P (master_round dc) (dc, []) r (master_round-idle dc z) e same
  | inr n ↦ elim (list_cases dc.workers) [
    | inl k ↦ ground arith
    | inr (w, workers, k) ↦ elim (list_cases dc.overs) [
      | inl j ↦ ground arith
      | inr (o, overs, j) ↦
          on_result P (master_round dc) (interrupt_worker w workers o overs dc) r
            (master_round-cut dc w o workers overs n k j) e (cut w o workers overs k j)
    ]
  ]
]

pub join-splits :
    (dc : DivideAndConquer) (current over : ℕ) (rest : List ℕ) (var : ℤ) (cloned : Option ℕ)
    (model : List ℤ) (calls : List Call)
    → IsSplit dc current var cloned over rest calls
    → join current unknown model var cloned dc
      ≡ some (split_with current over rest var cloned calls dc)
unfolding join
join-splits dc current over rest var cloned model calls i = i.eq

pub join-retires :
    (dc : DivideAndConquer) (current : ℕ) (model : List ℤ) (var : ℤ) (cloned : Option ℕ)
    (dc' : DivideAndConquer)
    → IsRetired dc current dc'
    → join current unsat model var cloned dc ≡ some (after_retire current model dc')
unfolding join
join-retires dc current model var cloned dc' i = rw (i.eq, join) refl

pub join-finds :
    (dc : DivideAndConquer) (current : ℕ) (model : List ℤ) (var : ℤ) (cloned : Option ℕ)
    → join current sat model var cloned dc ≡ some (finish sat model dc)
unfolding join
join-finds dc current model var cloned = refl
