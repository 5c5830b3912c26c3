-- ===== src/Working/Divide/Cover.antt =====
-- The search space of the strategy, and what the cubes of the active workers cover of it.
use dpainless.Prelude.{
  ℕ, ◌+◌, ◌<◌, ◌≡◌, ◌≢◌, List, [], ◌∷◌, ◌++◌, Option, ℤ, pos, neg, Bool, true, false, not, ◌&&◌,
  arith, ◌==◌, ==_iff, occurrences, occurrences-append, ap, ◌∙◌, sym, Bool-cases, inl, inr,
}
use dpainless.Working.Strategy.{Call}
use dpainless.Working.Vectors.{is_one, occurrences-remove, add_tail-new}
use dpainless.Working.Divide.{DivideAndConquer, split_cubes, split_with, interrupt_worker}
use dpainless.Working.Divide.Joins.{IsRetired, SameLists}
use dpainless.Working.Divide.Balance.{IsBalanced, IsActive, occurrences-head, positive_length}

-- An assignment of truth values to literals.
abbrev pub Assignment : Type 0
Assignment = ℤ → Bool

-- A literal and its negation have opposite values; 0 is no literal.
abbrev pub IsConsistent : Assignment → Type 0
IsConsistent s = (l : ℤ) → l ≢ pos 0 → s (neg l) ≡ not (s l)

-- Every literal of the cube is true.
abbrev pub satisfies : Assignment → List ℤ → Bool
satisfies s [] = true
satisfies s (l ∷ ls) = s l && satisfies s ls

pub satisfies-snoc :
    (s : Assignment) (ls : List ℤ) (l : ℤ)
    → satisfies s ls ≡ true
    → s l ≡ true
    → satisfies s (ls ++ l ∷ []) ≡ true
satisfies-snoc s [] l h k = ground arith
satisfies-snoc s (m ∷ ls) l h k = ground (arith, satisfies-snoc s ls l)

module _ (Models : Assignment → Type 0) where
  -- The formula has no model that satisfies the cube.
  abbrev pub IsRefuted : List ℤ → Type 0
  IsRefuted cube = (s : Assignment) → IsConsistent s → Models s → satisfies s cube ≡ true → ⊥

  -- Every model of the formula that satisfies the cube of the whole search satisfies the cube of a
  -- worker that has not finished.
  abbrev pub IsCovered : DivideAndConquer → Type 0
  IsCovered dc =
      (s : Assignment)
      → IsConsistent s
      → Models s
      → satisfies s dc.actual_cube ≡ true
      → (w : ℕ) × IsActive dc w × (satisfies s (dc.cubes w) ≡ true)

  module _ (dc : DivideAndConquer) (b : IsBalanced dc) (current over : ℕ) (rest : List ℕ) (var : ℤ)
      (a : 0 < occurrences current dc.workers_splitting)
      (e : dc.overs_splitting ≡ over ∷ rest) where
    over-ne : (v : ℕ) → IsActive dc v → (v == over) ≡ false
    over-ne v h =
        ground (arith, b.placed v, b.once v, occurrences-head v over dc.overs_splitting rest e)

    cube_of_over : split_cubes current over var dc.cubes over ≡ dc.cubes current ++ neg var ∷ []
    unfolding split_cubes
    cube_of_over = ground (arith, over-ne current)

    cube_of_current : split_cubes current over var dc.cubes current ≡ dc.cubes current ++ var ∷ []
    unfolding split_cubes
    cube_of_current = ground (arith, over-ne current)

    cube_of_other :
        (v : ℕ)
        → IsActive dc v
        → (v == current) ≡ false
        → split_cubes current over var dc.cubes v ≡ dc.cubes v
    unfolding split_cubes
    cube_of_other v h n = ground (arith, over-ne v h)

    -- The worker that goes on with an assignment that `v` had.
    heir :
        (s : Assignment)
        → IsConsistent s
        → var ≢ pos 0
        → (v : ℕ) → IsActive dc v
        → satisfies s (dc.cubes v) ≡ true
        → (w : ℕ) × (0 < occurrences w (current ∷ over ∷ []) + is_one w v)
          × (satisfies s (split_cubes current over var dc.cubes w) ≡ true)
    heir s c n v h k = elim (Bool-cases (v == current)) [
      | inr other ↦ (v, ground arith, rw (cube_of_other v h other) k)
      | inl same ↦
          let kc : satisfies s (dc.cubes current) ≡ true = rw (sym ((==_iff v current).0 same)) k in
          elim (Bool-cases (s var)) [
            | inl on ↦ (
              current,
              ground arith,
              rw cube_of_current (satisfies-snoc s (dc.cubes current) var kc on),
            )
            | inr off ↦ (
              over,
              ground arith,
              rw cube_of_over
                  (satisfies-snoc s (dc.cubes current) (neg var) kc (c var n ∙ ap not off)),
            )
          ]
    ]

  pub split_with-IsCovered :
      (dc : DivideAndConquer) (current over : ℕ) (rest : List ℕ) (var : ℤ) (cloned : Option ℕ)
      (calls : List Call)
      → IsBalanced dc
      → 0 < occurrences current dc.workers_splitting
      → dc.overs_splitting ≡ over ∷ rest
      → var ≢ pos 0
      → IsCovered dc
      → IsCovered (split_with current over rest var cloned calls dc).0
  unfolding split_with
  split_with-IsCovered dc current over rest var cloned calls b a e n cover s c m k =
      let (v, h, q) = cover s c m k in
      let (w, i, r) = heir dc b current over rest var a e s c n v h q in
      (
        w,
        ground (
          arith,
          occurrences-append w dc.workers (current ∷ over ∷ []),
          occurrences-remove w current dc.workers_splitting,
        ),
        r,
      )

  pub interrupt_worker-IsCovered :
      (dc : DivideAndConquer) (w o : ℕ) (workers overs : List ℕ)
      → IsBalanced dc
      → dc.workers ≡ w ∷ workers
      → dc.overs ≡ o ∷ overs
      → IsCovered dc
      → IsCovered (interrupt_worker w workers o overs dc).0
  unfolding interrupt_worker
  interrupt_worker-IsCovered dc w o workers overs b e k cover s c m q =
      let new_w : occurrences w dc.workers_splitting ≡ 0 =
        ground (arith, b.placed w, b.once w, occurrences-head w w dc.workers workers e) in
      let (v, h, r) = cover s c m q in
      (
        v,
        rw (add_tail-new w dc.workers_splitting new_w) (
            omega (
              arith,
              occurrences-head v w dc.workers workers e,
              occurrences-append v dc.workers_splitting (w ∷ []),
            )),
        r,
      )

  pub IsRetired-IsCovered :
      (dc : DivideAndConquer) (current : ℕ) (dc' : DivideAndConquer)
      → IsRetired dc current dc'
      → IsRefuted (dc.cubes current)
      → IsCovered dc
      → IsCovered dc'
  IsRetired-IsCovered dc current dc' r u cover s c m k =
      let (v, h, q) = cover s c m (rw (sym r.actual_cube) k) in
      elim (Bool-cases (v == current)) [
        | inr other ↦ (v, ground (arith, r.active v), rw r.cubes q)
        | inl same ↦ absurd (u s c m (rw (sym ((==_iff v current).0 same)) q))
      ]

  pub SameLists-IsCovered : (dc t : DivideAndConquer) → SameLists dc t → IsCovered dc → IsCovered t
  SameLists-IsCovered dc t e cover s c m k =
      let (v, h, q) = cover s c m (rw (sym e.actual_cube) k) in
      (v, rw (e.workers, e.workers_splitting) h, rw e.cubes q)

  -- With no worker left, nothing is left to search.
  pub IsCovered-IsRefuted :
      (dc : DivideAndConquer)
      → IsBalanced dc
      → dc.n_workers ≡ 0
      → IsCovered dc
      → IsRefuted dc.actual_cube
  IsCovered-IsRefuted dc b z cover s c m k =
      let (v, h, q) = cover s c m k in
      absurd (
        ground
          (arith, b.counted, positive_length v dc.workers, positive_length v dc.workers_splitting))
