-- ===== src/Working/Cube/Rounds/Sizes.antt =====
-- The vectors of cube and conquer: every worker stands in them once, and the jobs left are the workers
-- that are not over.
use dpainless.Prelude.{
  ℕ, zero, suc, ◌+◌, ◌*◌, ◌≤◌, ◌<◌, ◌≡◌, refl, ap, ◌∙◌, List, [], ◌∷◌, ◌++◌, ℤ, true, false,
  Bool-cases, inl, inr, branch, arith, length, length-append, ltb, ◌==◌, if◌then◌else◌, occurrences,
  occurrences-append,
}
use dpainless.Working.Cube.{CubeAndConquer}
use dpainless.Working.Cube.Rounds.{
  Division, push_worker, erase_worker, erase_over, first_workers, divide, sort_if_many,
  launch_round,
}
use dpainless.Working.Cube.Rounds.Erase.{
  erase_all, occurrences-erase_all_le, occurrences-erase_all_other, IsWithin, IsOnce,
  length-erase_all, length-le_of_IsWithin,
}

-- `first` is the first slave, which is no worker; the numbers from `created` on are not used.
pub record IsArranged (first : ℕ) (c : CubeAndConquer) : Type 0 where
  pub once : IsOnce c.workers
  pub within : IsWithin c.over c.workers
  pub counted : c.n_jobs + length c.over ≡ length c.workers
  pub head : (rest : List ℕ) × (c.slaves ≡ first ∷ rest)
  pub apart : occurrences first c.workers ≡ 0
  pub old : first < c.created
  pub fresh : (v : ℕ) → c.created ≤ v → occurrences v c.workers ≡ 0

-- A worker whose sub-problem is left.
abbrev pub IsActive : CubeAndConquer → ℕ → Type 0
IsActive c w = (0 < occurrences w c.workers) × (occurrences w c.over ≡ 0)

-- With one sub-problem left, there is one such worker.
pub IsActive-unique :
    (first : ℕ) (c : CubeAndConquer) (w v : ℕ)
    → IsArranged first c
    → c.n_jobs ≤ 1
    → IsActive c w
    → IsActive c v
    → (v == w) ≡ true
IsActive-unique first c w v a n hw hv = elim (Bool-cases (v == w)) [
  | inl same ↦ same
  | inr other ↦ absurd (
      omega (
        arith,
        a.counted,
        length-le_of_IsWithin (v ∷ w ∷ c.over) c.workers a.once
            (λ x. ground (arith, a.within x, hw, hv, other)),
      ))
]

erase_all-head :
    (first : ℕ) (ws rest : List ℕ)
    → occurrences first ws ≡ 0
    → (rest' : List ℕ) × (erase_all ws (first ∷ rest) ≡ first ∷ rest')
unfolding erase_worker
erase_all-head first [] rest h = (rest, refl)
erase_all-head first (w ∷ ws) rest h =
    let (rest', e) = erase_all-head first ws (erase_worker w rest) (ground (arith, h)) in
    let apart : (first == w) ≡ false = ground (arith, h) in
    (
      rest',
      ap (λ b. erase_all ws (if b then erase_worker w rest else first ∷ erase_worker w rest)) apart
          ∙ e,
    )

pub erase_over_lem :
    (ws : List ℕ) (c : CubeAndConquer)
    → (erase_over ws c).0
      ≡ record c { over = []; workers = erase_all ws c.workers; slaves = erase_all ws c.slaves }
unfolding erase_over
erase_over_lem [] c = refl
erase_over_lem (w ∷ ws) c =
    erase_over_lem ws
      (record c { workers = erase_worker w c.workers; slaves = erase_worker w c.slaves })

pub erase_over-IsArranged :
    (first : ℕ) (c : CubeAndConquer) → IsArranged first c → IsArranged first (erase_over c.over c).0
erase_over-IsArranged first c a =
    let (rest, e) = a.head in
    let gone : occurrences first c.over ≡ 0 = omega (arith, a.within first, a.apart) in
    let (rest', e') = erase_all-head first c.over rest gone in
    rw (erase_over_lem c.over c) (record {
      once = λ v. omega (arith, occurrences-erase_all_le v c.over c.workers, a.once v);
      within = λ v. omega arith;
      counted = omega (arith, length-erase_all c.over c.workers a.once a.within, a.counted);
      head = (rest', ap (erase_all c.over) e ∙ e');
      apart = omega (arith, occurrences-erase_all_le first c.over c.workers, a.apart);
      old = a.old;
      fresh = λ v h. omega (arith, occurrences-erase_all_le v c.over c.workers, a.fresh v h);
    })

-- Who was active stays so.
pub erase_over-IsActive :
    (c : CubeAndConquer) (w : ℕ) → IsActive c w → IsActive (erase_over c.over c).0 w
erase_over-IsActive c w (h, k) =
    rw (erase_over_lem c.over c)
      (omega (arith, h, occurrences-erase_all_other w c.over c.workers k), refl)

-- A new worker, with its job or before the jobs are counted.
pub push_worker-IsArranged :
    (first : ℕ) (units : List ℤ) (c : CubeAndConquer)
    → IsOnce c.workers
    → IsWithin c.over c.workers
    → c.n_jobs + length c.over ≡ length c.workers + 1
    → (rest : List ℕ) × (c.slaves ≡ first ∷ rest)
    → occurrences first c.workers ≡ 0
    → first < c.created
    → ((v : ℕ) → c.created ≤ v → occurrences v c.workers ≡ 0)
    → IsArranged first (push_worker units c).0
unfolding push_worker
push_worker-IsArranged first units c once within counted (rest, e) apart old fresh = record {
  once =
      λ v. ground (arith, occurrences-append v c.workers (c.created ∷ []), once v, fresh c.created);
  within = λ v. omega (arith, occurrences-append v c.workers (c.created ∷ []), within v);
  counted = omega (arith, length-append c.workers (c.created ∷ []), counted);
  head = (rest ++ c.created ∷ [], ap (λ ss. ss ++ c.created ∷ []) e);
  apart = ground (arith, occurrences-append first c.workers (c.created ∷ []), apart, old);
  old = omega (arith, old);
  fresh = λ v h. ground (arith, occurrences-append v c.workers (c.created ∷ []), fresh v);
}

pub divide-IsArranged :
    (first target : ℕ) (d : Division) (c : CubeAndConquer)
    → IsArranged first c
    → IsArranged first (divide target d c).0
unfolding divide
divide-IsArranged first target d c a =
    push_worker-IsArranged first _ _ a.once a.within (omega (arith, a.counted)) a.head a.apart a.old
      a.fresh

pub divide-IsActive :
    (target : ℕ) (d : Division) (c : CubeAndConquer) (w : ℕ)
    → IsActive c w
    → IsActive (divide target d c).0 w
unfolding divide push_worker
divide-IsActive target d c w (h, k) =
    (omega (arith, h, occurrences-append w c.workers (c.created ∷ [])), k)

pub first_workers-IsWithin : (n : ℕ) (ws : List ℕ) → IsWithin (first_workers n ws) ws
unfolding first_workers
first_workers-IsWithin zero ws v = omega arith
first_workers-IsWithin (suc n) [] v = omega arith
first_workers-IsWithin (suc n) (w ∷ ws) v = omega (arith, first_workers-IsWithin n ws v)

-- Another order of the workers.
reorder-IsArranged :
    (first : ℕ) (c : CubeAndConquer) (ws : List ℕ)
    → ((v : ℕ) → occurrences v ws ≡ occurrences v c.workers)
    → IsArranged first c
    → IsArranged first (record c { workers = ws })
reorder-IsArranged first c ws same a =
    let once : IsOnce ws = λ v. omega (arith, same v, a.once v) in
    record {
      once = once;
      within = λ v. omega (arith, same v, a.within v);
      counted = omega (
        arith,
        a.counted,
        length-le_of_IsWithin ws c.workers a.once (λ v. omega (arith, same v)),
        length-le_of_IsWithin c.workers ws once (λ v. omega (arith, same v)),
      );
      head = a.head;
      apart = same first ∙ a.apart;
      old = a.old;
      fresh = λ v h. same v ∙ a.fresh v h;
    }

-- What is true of the workers in every order is true after `sort`.
pub sort_if_many_ind :
    (P : CubeAndConquer → Type 0) (sort : List ℕ → List ℕ) (c : CubeAndConquer)
    → P c
    → P (record c { workers = sort c.workers })
    → P (sort_if_many sort c)
unfolding sort_if_many
sort_if_many_ind P sort c p q =
    branch P (ltb (8 * c.max_cpus) (length c.workers * 2)) (λ e. q) (λ e. p)

module _ (sort : List ℕ → List ℕ)
    (same : (ws : List ℕ) (v : ℕ) → occurrences v (sort ws) ≡ occurrences v ws) where
  pub sort_if_many-IsArranged :
      (first : ℕ) (c : CubeAndConquer) → IsArranged first c → IsArranged first (sort_if_many sort c)
  sort_if_many-IsArranged first c a =
      sort_if_many_ind (IsArranged first) sort c a
        (reorder-IsArranged first c (sort c.workers) (same c.workers) a)

pub launch_round-IsArranged :
    (first : ℕ) (c : CubeAndConquer) → IsArranged first c → IsArranged first (launch_round c).0
unfolding launch_round
launch_round-IsArranged first c a = record {
  once = a.once;
  within = a.within;
  counted = a.counted;
  head = a.head;
  apart = a.apart;
  old = a.old;
  fresh = a.fresh;
}
