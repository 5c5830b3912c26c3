-- ===== src/Working/Cube/Rounds/Cover.antt =====
-- What the unit clauses of the workers cover of the search space, and what a round does to it.
use dpainless.Prelude.{
  ℕ, ◌<◌, ◌≡◌, ◌≢◌, refl, sym, ap, ◌∙◌, List, [], ◌∷◌, ◌++◌, ℤ, pos, neg, true, false, not,
  Bool-cases, inl, inr, arith, ◌==◌, ==_iff, occurrences, occurrences-append, ◌-◌,
}
use dpainless.Working.Divide.Cover.{Assignment, IsConsistent, satisfies, satisfies-snoc}
use dpainless.Working.Cube.{CubeAndConquer}
use dpainless.Working.Cube.Rounds.{
  Division, push_worker, erase_over, first_workers, divide, divide_all, sort_if_many, launch_round,
  round,
}
use dpainless.Working.Cube.Rounds.Erase.{erase_all, occurrences-erase_all_le}
use dpainless.Working.Cube.Rounds.Sizes.{
  IsArranged, IsActive, erase_over_lem, erase_over-IsArranged, erase_over-IsActive,
  divide-IsArranged, divide-IsActive, first_workers-IsWithin, sort_if_many_ind,
  sort_if_many-IsArranged, launch_round-IsArranged,
}

-- The solver of a target names a variable, and its clone takes over no more than the target has.
abbrev pub IsFair : (ℕ → List ℤ) → ℕ → Division → Type 0
IsFair units t d =
    (d.var ≢ pos 0) × ((s : Assignment) → satisfies s (units t) ≡ true → satisfies s d.kept ≡ true)

satisfies-init :
    (s : Assignment) (ls : List ℤ) (l : ℤ)
    → satisfies s (ls ++ l ∷ []) ≡ true
    → satisfies s ls ≡ true
satisfies-init s [] l h = refl
satisfies-init s (m ∷ ls) l h = ground (arith, satisfies-init s ls l)

module _ (Models : Assignment → Type 0) where
  -- Every model of the formula that satisfies the cube satisfies the units of a worker that is left.
  abbrev pub IsCovered : CubeAndConquer → Type 0
  IsCovered c =
      (s : Assignment)
      → IsConsistent s
      → Models s
      → satisfies s c.actual_cube ≡ true
      → (w : ℕ) × IsActive c w × (satisfies s (c.units w) ≡ true)

  -- No model of the formula satisfies the cube and the units.
  abbrev pub IsRefuted : List ℤ → List ℤ → Type 0
  IsRefuted cube units =
      (s : Assignment)
      → IsConsistent s
      → Models s
      → satisfies s cube ≡ true
      → satisfies s units ≡ true
      → ⊥

  module _ (first target : ℕ) (d : Division) (c : CubeAndConquer) (a : IsArranged first c)
      (active : IsActive c target) (fair : IsFair c.units target d) where
    used : (v : ℕ) → IsActive c v → (v == c.created) ≡ false
    used v h = ground (arith, h, a.fresh c.created)

    units_of_clone : (divide target d c).0.units c.created ≡ d.kept ++ neg d.var ∷ []
    unfolding divide push_worker
    units_of_clone = ground arith

    units_of_target : (divide target d c).0.units target ≡ c.units target ++ d.var ∷ []
    unfolding divide push_worker
    units_of_target = ground (arith, used target active)

    units_of_other :
        (v : ℕ) → IsActive c v → (v == target) ≡ false → (divide target d c).0.units v ≡ c.units v
    unfolding divide push_worker
    units_of_other v h n = ground (arith, used v h)

    clone-IsActive : IsActive (divide target d c).0 c.created
    unfolding divide push_worker
    clone-IsActive = (
      ground (arith, occurrences-append c.created c.workers (c.created ∷ [])),
      omega (arith, a.within c.created, a.fresh c.created (omega arith)),
    )

    -- The worker that goes on with an assignment that `v` had.
    heir :
        (s : Assignment)
        → IsConsistent s
        → (v : ℕ) → IsActive c v
        → satisfies s (c.units v) ≡ true
        → (w : ℕ) × IsActive (divide target d c).0 w
          × (satisfies s ((divide target d c).0.units w) ≡ true)
    heir s k v h q = elim (Bool-cases (v == target)) [
      | inr other ↦ (v, divide-IsActive target d c v h, rw (units_of_other v h other) q)
      | inl same ↦
          let qt : satisfies s (c.units target) ≡ true = rw (sym ((==_iff v target).0 same)) q in
          elim (Bool-cases (s d.var)) [
            | inl on ↦ (
              target,
              divide-IsActive target d c target active,
              rw units_of_target (satisfies-snoc s (c.units target) d.var qt on),
            )
            | inr off ↦ (
              c.created,
              clone-IsActive,
              rw units_of_clone
                  (satisfies-snoc s d.kept (neg d.var) (fair.1 s qt) (k d.var fair.0 ∙ ap not off)),
            )
          ]
    ]

    -- A worker's units only grow.
    units_grow :
        (v : ℕ)
        → IsActive c v
        → (s : Assignment) → satisfies s ((divide target d c).0.units v) ≡ true
        → satisfies s (c.units v) ≡ true
    units_grow v h s q = elim (Bool-cases (v == target)) [
      | inr other ↦ rw (sym (units_of_other v h other)) q
      | inl same ↦
          let e = (==_iff v target).0 same in
          let qt : satisfies s (c.units target ++ d.var ∷ []) ≡ true =
            sym (ap (satisfies s) units_of_target)
            ∙ sym (ap (λ x. satisfies s ((divide target d c).0.units x)) e)
            ∙ q in
          ap (λ x. satisfies s (c.units x)) e ∙ satisfies-init s (c.units target) d.var qt
    ]

  divide-cube :
      (target : ℕ) (d : Division) (c : CubeAndConquer)
      → (divide target d c).0.actual_cube ≡ c.actual_cube
  unfolding divide push_worker
  divide-cube target d c = refl

  -- What a round needs of its targets.
  AreTargets : List ℕ → (ℕ → Division) → CubeAndConquer → Type 0
  AreTargets ts choose c =
      (t : ℕ) → 0 < occurrences t ts → IsActive c t × IsFair c.units t (choose t)

  divide_all_ind :
      (first : ℕ) (ts : List ℕ) (choose : ℕ → Division) (c : CubeAndConquer)
      → AreTargets ts choose c
      → IsArranged first c
      → IsCovered c
      → IsArranged first (divide_all ts choose c).0 × IsCovered (divide_all ts choose c).0
  unfolding divide_all AreTargets
  divide_all_ind first [] choose c h a k = (a, k)
  divide_all_ind first (t ∷ ts) choose c h a k =
      let (active, fair) = h t (ground arith) in
      divide_all_ind first ts choose (divide t (choose t) c).0
        (λ v i.
          let (active', fair') = h v (ground (arith, i)) in
          (
            divide-IsActive t (choose t) c v active',
            (
              fair'.0,
              λ s q. fair'.1 s (units_grow first t (choose t) c a active fair v active' s q),
            ),
          ))
        (divide-IsArranged first t (choose t) c a)
        (λ s n m q.
          let (v, i, r) = k s n m (rw (sym (divide-cube t (choose t) c)) q) in
          heir first t (choose t) c a active fair s n v i r)

  sorted-IsCovered :
      (sort : List ℕ → List ℕ) (c : CubeAndConquer)
      → ((ws : List ℕ) (v : ℕ) → occurrences v (sort ws) ≡ occurrences v ws)
      → IsCovered c
      → IsCovered (sort_if_many sort c)
  sorted-IsCovered sort c same k =
      sort_if_many_ind IsCovered sort c k (λ s n m q.
        let (w, i, r) = k s n m q in (w, (omega (arith, i.0, same c.workers w), i.1), r))

  launched-IsCovered : (c : CubeAndConquer) → IsCovered c → IsCovered (launch_round c).0
  unfolding launch_round
  launched-IsCovered c k s n m q = k s n m q

  erased-IsCovered : (c : CubeAndConquer) → IsCovered c → IsCovered (erase_over c.over c).0
  erased-IsCovered c k s n m q =
      let cube : (erase_over c.over c).0.actual_cube ≡ c.actual_cube =
        ap (λ x. x.actual_cube) (erase_over_lem c.over c) in
      let units : (erase_over c.over c).0.units ≡ c.units =
        ap (λ x. x.units) (erase_over_lem c.over c) in
      let (w, i, r) = k s n m (sym (ap (satisfies s) cube) ∙ q) in
      (w, erase_over-IsActive c w i, ap (λ u. satisfies s (u w)) units ∙ r)

  erased-AreTargets :
      (choose : ℕ → Division) (c : CubeAndConquer)
      → ((t : ℕ) → 0 < occurrences t c.workers → IsFair c.units t (choose t))
      → (n : ℕ)
      → AreTargets (first_workers n (erase_over c.over c).0.workers) choose (erase_over c.over c).0
  unfolding AreTargets
  erased-AreTargets choose c fair n = rw (erase_over_lem c.over c) (λ t h.
      let i : 0 < occurrences t (erase_all c.over c.workers) =
        omega (arith, h, first_workers-IsWithin n (erase_all c.over c.workers) t) in
      ((i, refl), fair t (omega (arith, i, occurrences-erase_all_le t c.over c.workers))))

  -- A round keeps the vectors in order, and whatever was covered.
  pub round_ind :
      (first : ℕ) (sort : List ℕ → List ℕ) (choose : ℕ → Division) (c : CubeAndConquer)
      → ((ws : List ℕ) (v : ℕ) → occurrences v (sort ws) ≡ occurrences v ws)
      → ((t : ℕ) → 0 < occurrences t c.workers → IsFair c.units t (choose t))
      → IsArranged first c
      → IsCovered c
      → IsArranged first (round sort choose c).0 × IsCovered (round sort choose c).0
  unfolding round
  round_ind first sort choose c same fair a k =
      let erased = (erase_over c.over c).0 in
      let targets = first_workers (erased.max_cpus - 1) erased.workers in
      let divided = (divide_all targets choose erased).0 in
      let (a', k') =
        divide_all_ind first targets choose erased
          (erased-AreTargets choose c fair (erased.max_cpus - 1)) (erase_over-IsArranged first c a)
          (erased-IsCovered c k) in
      (
        launch_round-IsArranged first (sort_if_many sort divided)
            (sort_if_many-IsArranged sort same first divided a'),
        launched-IsCovered (sort_if_many sort divided) (sorted-IsCovered sort divided same k'),
      )
