-- ===== src/Main/Starts.antt =====
-- Which settings start without a fault.
use dpainless.Prelude.{
  ℕ, zero, suc, ◌+◌, ◌-◌, ◌≤◌, ◌<◌, ◌≡◌, ◌⊎◌, inl, inr, refl, ap, ◌∙◌, List, [], ◌∷◌, Option, none,
  some, Option-cases, false, Bool-cases, branch, ◌==◌, ==_iff, if◌then◌else◌, arith, length,
  length-append, get_elem?, map,
}
use dpainless.Solvers.Factory.{
  lingeling, Solver, Factory, push_new, Choice, only_glucose, only_maple,
}
use dpainless.Solvers.Factory.Ids.{expected, create_solvers-IsMade}
use dpainless.Main.{
  Settings, n_solvers, make_solvers, first_solvers, start_sharers, with_plan, with_solver,
  both_children, start_working, Setup, set_up, WorkingPlan, one_sharer, simple, hordesat,
  distribution, nothing, portfolio, cube_and_conquer, portfolio_and_cube, divide_and_conquer,
  distributed, empty_workers,
}

first_solvers-some :
    (k : ℕ) (ss : List (Option Solver))
    → k ≤ length ss
    → (from : List (Option Solver)) × (first_solvers k ss ≡ some from)
unfolding first_solvers
first_solvers-some zero ss h = ([], refl)
first_solvers-some (suc k) [] h = absurd (omega (arith, h))
first_solvers-some (suc k) (s ∷ ss) h =
    let (from, e) = first_solvers-some k ss (omega (arith, h)) in
    (s ∷ from, rw (e, first_solvers) refl)

first_solvers-none : (k : ℕ) (ss : List (Option Solver)) → length ss < k → first_solvers k ss ≡ none
unfolding first_solvers
first_solvers-none zero ss h = absurd (omega (arith, h))
first_solvers-none (suc k) [] h = refl
first_solvers-none (suc k) (s ∷ ss) h =
    rw (first_solvers-none k ss (omega (arith, h)), first_solvers) refl

get_elem?-some {ℓ} :
    {A : Type ℓ} (xs : List A) (i : ℕ) → i < length xs → (x : A) × (get_elem? xs i ≡ some x)
get_elem?-some [] i h = absurd (omega (arith, h))
get_elem?-some (x ∷ xs) zero h = (x, refl)
get_elem?-some (x ∷ xs) (suc i) h = get_elem?-some xs i (omega (arith, h))

-- All solvers of the settings: those asked for, and the one for cube and conquer.
abbrev pub total_solvers : Settings → ℕ → ℕ
total_solvers s fit = expected s.choice (n_solvers s) fit + (if s.wkr_strat == 3 then 1 else 0)

make_solvers-length :
    (s : Settings) (rank fit : ℕ)
    → 0 < n_solvers s
    → (f : Factory) × (make_solvers s rank fit ≡ some f) × (length f.solvers ≡ total_solvers s fit)
unfolding make_solvers push_new
make_solvers-length s rank fit h =
    let (f, e, m) = create_solvers-IsMade s.choice (n_solvers s) rank fit h in
    (
      if s.wkr_strat == 3 then push_new lingeling f else f,
      rw (e, make_solvers) refl,
      elim (Bool-cases (s.wkr_strat == 3)) [
        | inl both ↦ rw both (
            length-append f.solvers (some (record { id = f.current_id; kind = lingeling }) ∷ [])
            ∙ ap (λ n. n + 1) m.made)
        | inr one ↦ rw one (m.made ∙ omega arith)
      ],
    )

-- Without a shortage of memory every solver that is asked for is there.
expected_fit : (choice : Choice) (n fit : ℕ) → 0 < n → n ≤ fit → expected choice n fit ≡ n
expected_fit only_glucose n fit h k = ground (arith, h, k)
expected_fit only_maple n fit h k = ground (arith, h, k)
expected_fit _ n fit h k = refl

-- A step of the setup that gives a result.
abbrev Gives : {A : Type 0} → Option A → Type 0
Gives {A} o = (a : A) × (o ≡ some a)

with_plan-Gives :
    (k : ℕ) (ss : List (Option Solver)) (plan : List (Option Solver) → WorkingPlan)
    → k ≤ length ss
    → Gives (with_plan (first_solvers k ss) plan)
with_plan-Gives k ss plan h =
    let (from, e) = first_solvers-some k ss h in (plan from, ap (λ o. with_plan o plan) e)

with_solver-Gives :
    (i : ℕ) (ss : List (Option Solver)) (plan : Option Solver → WorkingPlan)
    → i < length ss
    → Gives (with_solver (get_elem? ss i) plan)
with_solver-Gives i ss plan h =
    let (x, e) = get_elem?-some ss i h in (plan x, ap (λ o. with_solver o plan) e)

both_children-Gives :
    (s : Settings) (ss : List (Option Solver))
    → n_solvers s < length ss
    → Gives (both_children s ss)
both_children-Gives s ss h =
    let (pf, e) = first_solvers-some (n_solvers s) ss (omega (arith, h)) in
    let (x, e') = get_elem?-some ss (n_solvers s) h in
    (portfolio_and_cube pf (s.cpus - n_solvers s) x, ground (arith, e, e'))

start_sharers-Gives :
    (s : Settings) (ss : List (Option Solver))
    → (s.shr_strat ≡ 2 → s.cpus ≤ length ss)
    → (s.shr_strat ≡ 4 → n_solvers s < length ss)
    → Gives (start_sharers s ss)
unfolding start_sharers
start_sharers-Gives s ss two four =
    branch Gives (s.shr_strat == 1) (λ _. (one_sharer simple ss ∷ [], refl))
      (λ _.
        branch Gives (s.shr_strat == 2)
          (λ e.
            let (from, p) = first_solvers-some s.cpus ss (two ((==_iff s.shr_strat 2).0 e)) in
            (map (λ q. one_sharer hordesat (q ∷ [])) from, rw p refl))
          (λ _.
            branch Gives (s.shr_strat == 3) (λ _. (one_sharer hordesat ss ∷ [], refl))
              (λ _.
                branch Gives (s.shr_strat == 4)
                  (λ e.
                    let room = four ((==_iff s.shr_strat 4).0 e) in
                    let (from, p) = first_solvers-some (n_solvers s) ss (omega (arith, room)) in
                    let (x, q) = get_elem?-some ss (n_solvers s) room in
                    (one_sharer simple from ∷ one_sharer hordesat (x ∷ []) ∷ [], rw (p, q) refl))
                  (λ _.
                    branch Gives (s.shr_strat == 5) (λ _. (one_sharer distribution ss ∷ [], refl))
                      (λ _. ([], refl))))))

n_solvers-all : (s : Settings) → (s.wkr_strat ≡ 1) ⊎ (s.wkr_strat ≡ 6) → n_solvers s ≡ s.cpus
unfolding n_solvers
n_solvers-all s (inl e) = ground (arith, e)
n_solvers-all s (inr e) = ground (arith, e)

n_solvers-reused :
    (s : Settings) → s.wkr_strat ≡ 4 → (s.copy_mode == 2) ≡ false → n_solvers s ≡ s.cpus
unfolding n_solvers
n_solvers-reused s e f = ground (arith, e, f)

start_working-Gives :
    (s : Settings) (rank size : ℕ) (ss : List (Option Solver))
    → 0 < n_solvers s
    → length ss ≡ n_solvers s + (if s.wkr_strat == 3 then 1 else 0)
    → Gives (start_working s rank size ss)
unfolding start_working
start_working-Gives s rank size ss pos l =
    branch Gives (s.wkr_strat == 1)
      (λ e.
        with_plan-Gives s.cpus ss portfolio
          (omega (arith, l, n_solvers-all s (inl ((==_iff s.wkr_strat 1).0 e)))))
      (λ _.
        branch Gives (s.wkr_strat == 2)
          (λ _. with_solver-Gives 0 ss (cube_and_conquer s.cpus) (omega (arith, l, pos)))
          (λ _.
            branch Gives (s.wkr_strat == 3) (λ e. both_children-Gives s ss (ground (arith, l, e)))
              (λ _.
                branch Gives (s.wkr_strat == 4)
                  (λ e.
                    branch Gives (s.copy_mode == 2)
                      (λ _.
                        with_solver-Gives 0 ss
                          (λ p. divide_and_conquer (p ∷ empty_workers (s.cpus - 1)))
                          (omega (arith, l, pos)))
                      (λ f.
                        with_plan-Gives s.cpus ss divide_and_conquer
                          (omega (arith, l, n_solvers-reused s ((==_iff s.wkr_strat 4).0 e) f))))
                  (λ _.
                    branch Gives (s.wkr_strat == 6)
                      (λ e.
                        with_plan-Gives s.cpus ss
                          (distributed (if rank == 0 then some size else none))
                          (omega (arith, l, n_solvers-all s (inr ((==_iff s.wkr_strat 6).0 e)))))
                      (λ _. (nothing, refl))))))

-- With a positive number of solvers that fit into the memory, the start uses no index past the end of
-- the solvers, if shr-strat 2 is only combined with strategies that start with as many solvers as CPUs,
-- and shr-strat 4 only with wkr-strat 3.
pub set_up_runs :
    (s : Settings) (rank size fit : ℕ)
    → 0 < n_solvers s
    → n_solvers s ≤ fit
    → (s.shr_strat ≡ 2 → n_solvers s ≡ s.cpus)
    → (s.shr_strat ≡ 4 → s.wkr_strat ≡ 3)
    → (setup : Setup) × (set_up s rank size fit ≡ some setup)
unfolding set_up
set_up_runs s rank size fit h k two four =
    let (f, e, l) = make_solvers-length s rank fit h in
    let n : expected s.choice (n_solvers s) fit ≡ n_solvers s =
      expected_fit s.choice (n_solvers s) fit h k in
    let all : length f.solvers ≡ n_solvers s + (if s.wkr_strat == 3 then 1 else 0) =
      l ∙ ap (λ x. x + (if s.wkr_strat == 3 then 1 else 0)) n in
    let (sharers, p) =
      start_sharers-Gives s f.solvers (λ e. omega (arith, all, two e))
        (λ e. let three = four e in ground (arith, all, three)) in
    let (working, q) = start_working-Gives s rank size f.solvers h all in
    (record { factory = f; sharers = sharers; working = working }, rw (e, p, q, set_up) refl)

start_sharers-faults :
    (s : Settings) (ss : List (Option Solver))
    → s.shr_strat ≡ 2
    → length ss < s.cpus
    → start_sharers s ss ≡ none
unfolding start_sharers
start_sharers-faults s ss e l = ground (arith, e, first_solvers-none s.cpus ss l)

start_working-faults :
    (s : Settings) (rank size : ℕ) (ss : List (Option Solver))
    → (s.wkr_strat ≡ 1) ⊎ (s.wkr_strat ≡ 6)
    → length ss < s.cpus
    → start_working s rank size ss ≡ none
unfolding start_working
start_working-faults s rank size ss (inl e) l = ground (arith, e, first_solvers-none s.cpus ss l)
start_working-faults s rank size ss (inr e) l = ground (arith, e, first_solvers-none s.cpus ss l)

-- If fewer solvers are made than there are CPUs, as for cube and conquer, or when the memory is short,
-- the start with shr-strat 2, and that of a portfolio, read past the end of the solvers.
pub set_up_faults :
    (s : Settings) (rank size fit : ℕ)
    → 0 < n_solvers s
    → (s.shr_strat ≡ 2) ⊎ ((s.wkr_strat ≡ 1) ⊎ (s.wkr_strat ≡ 6))
    → total_solvers s fit < s.cpus
    → set_up s rank size fit ≡ none
unfolding set_up
set_up_faults s rank size fit h (inl two) l =
    let (f, e, n) = make_solvers-length s rank fit h in
    rw (e, start_sharers-faults s f.solvers two (omega (arith, n, l)), set_up) refl
set_up_faults s rank size fit h (inr wkr) l =
    let (f, e, n) = make_solvers-length s rank fit h in
    let fault = start_working-faults s rank size f.solvers wkr (omega (arith, n, l)) in
    elim (Option-cases (start_sharers s f.solvers)) [
      | inl fails ↦ rw (e, fails, set_up) refl
      | inr (sharers, p) ↦ rw (e, p, fault, set_up) refl
    ]
