-- ===== src/Working/Cube/Jobs.antt =====
-- The sub-problems that are left.
use dpainless.Prelude.{
  ℕ, zero, suc, ◌-◌, ◌<◌, ◌≡◌, branch, refl, ap, sym, ◌∙◌, List, [], ◌∷◌, ◌++◌, Option, none, some,
  true, false, not, ltb, leb, length, All, if◌then◌else◌, arith, get_elem?,
}
use dpainless.Working.Strategy.{unsat, Call, Globals}
use dpainless.Working.Portfolio.{set_result}
use dpainless.Working.Cube.{CubeAndConquer, is_first, start_next, finish, lose_job, join}

-- Workers that join with UNSAT, one after the other.
unfoldable pub lose_all : List ℕ → CubeAndConquer → CubeAndConquer
unfolding join
lose_all [] c = c
lose_all (w ∷ ws) c = lose_all ws (join w unsat [] c).0

-- The strategy runs at the top, with some sub-problems left.
abbrev pub IsRunning : List ℕ → ℕ → Globals → CubeAndConquer → Type 0
IsRunning slaves n globals c =
    (c.strategy_ending ≡ false)
    × (c.has_parent ≡ false)
    × (c.slaves ≡ slaves)
    × (c.n_jobs ≡ n)
    × (c.globals ≡ globals)

pub some_or_none :
    {A B : Type 0} (P : B → Type 0) (o : Option A) {x : B} {f : A → B}
    → P x
    → ((a : A) → P (f a))
    → P (elim o [ none ↦ x | some a ↦ f a ])
some_or_none P none p q = p
some_or_none P (some a) p q = q a

start_next-IsRunning :
    (slaves : List ℕ) (n : ℕ) (globals : Globals) (c : CubeAndConquer)
    → IsRunning slaves n globals c
    → IsRunning slaves n globals (start_next c).0
unfolding start_next
start_next-IsRunning slaves n globals c r =
    some_or_none {B = CubeAndConquer × List Call} (λ x. IsRunning slaves n globals x.0)
      (get_elem? c.workers c.next) r (λ w. r)

join-ended : (w : ℕ) (c : CubeAndConquer) → c.strategy_ending ≡ true → join w unsat [] c ≡ (c, [])
unfolding join
join-ended w c e =
    branch {A = CubeAndConquer × List Call} (λ r. r ≡ (c, [])) c.strategy_ending (λ f. refl)
      (λ f. absurd (ground (arith, e, f)))

lose_all-ended : (ws : List ℕ) (c : CubeAndConquer) → c.strategy_ending ≡ true → lose_all ws c ≡ c
unfolding lose_all
lose_all-ended [] c e = refl
lose_all-ended (w ∷ ws) c e = ap (λ r. lose_all ws r.0) (join-ended w c e) ∙ lose_all-ended ws c e

module _ (slaves : List ℕ) (globals : Globals) (w : ℕ) (c : CubeAndConquer)
    (other : is_first w slaves ≡ false) where
  -- A join with UNSAT of a worker, by what is true of both ends of `lose_job`.
  join_unsat :
      (P : CubeAndConquer → Type 0) (n : ℕ)
      → IsRunning slaves n globals c
      → P (lose_job w [] (record c { n_jobs = c.n_jobs - 1 })).0
      → P (join w unsat [] c).0
  unfolding join
  join_unsat P n r p =
      branch {A = CubeAndConquer × List Call} (λ x. P x.0) c.strategy_ending
        (λ e. absurd (ground (arith, e, r.0)))
        (λ e.
          branch {A = CubeAndConquer × List Call} (λ x. P x.0) (not (is_first w c.slaves)) (λ f. p)
            (λ f. absurd (
              let g : not (is_first w c.slaves) ≡ true =
                ap (λ ss. not (is_first w ss)) r.2 ∙ ap not other in
              ground (arith, f, g))))

  join-IsRunning :
      (k : ℕ)
      → IsRunning slaves (suc (suc k)) globals c
      → IsRunning slaves (suc k) globals (join w unsat [] c).0
  unfolding lose_job
  join-IsRunning k r = join_unsat (IsRunning slaves (suc k) globals) (suc (suc k)) r (
      branch {A = CubeAndConquer × List Call} (λ x. IsRunning slaves (suc k) globals x.0)
        (ltb 0 (c.n_jobs - 1))
        (λ e.
          start_next-IsRunning slaves (suc k) globals
            (record c { n_jobs = c.n_jobs - 1; over = c.over ++ w ∷ [] })
            (r.0, r.1, r.2, omega (arith, r.3), r.4))
        (λ e. absurd (ground (arith, e, r.3))))

  -- The end of the search.
  abbrev IsOver : CubeAndConquer → Type 0
  IsOver c' = (c'.strategy_ending ≡ true) × (c'.globals ≡ set_result unsat [] globals)

  join-IsOver : IsRunning slaves 1 globals c → IsOver (join w unsat [] c).0
  unfolding lose_job finish
  join-IsOver r = join_unsat IsOver 1 r (
      branch {A = CubeAndConquer × List Call} (λ x. IsOver x.0) (ltb 0 (c.n_jobs - 1))
        (λ e. absurd (ground (arith, e, r.3)))
        (λ e.
          branch {A = CubeAndConquer × List Call} (λ x. IsOver x.0) c.has_parent
            (λ f. absurd (ground (arith, f, r.1))) (λ f. (refl, ap (set_result unsat []) r.4))))

-- Workers with sub-problems join with UNSAT, and no other worker joins, while the strategy runs at the
-- top with n sub-problems left. It goes on as long as fewer than n have joined, and the n-th join ends
-- it, and the program, with UNSAT; whatever joins afterwards changes nothing.
pub lose_all-ends :
    (ws : List ℕ) (slaves : List ℕ) (n : ℕ) (globals : Globals) (c : CubeAndConquer)
    → IsRunning slaves n globals c
    → 0 < n
    → All (λ w. is_first w slaves ≡ false) ws
    → ((lose_all ws c).strategy_ending ≡ leb n (length ws))
      × ((lose_all ws c).globals
          ≡ (if leb n (length ws) then set_result unsat [] globals else globals))
unfolding lose_all
lose_all-ends [] slaves zero globals c r l o = absurd (omega arith)
lose_all-ends (w ∷ ws) slaves zero globals c r l o = absurd (omega arith)
lose_all-ends [] slaves (suc n) globals c r l o = (r.0 ∙ ground arith, r.4 ∙ ground arith)
lose_all-ends (w ∷ ws) slaves (suc zero) globals c r l o =
    let (e, g) = join-IsOver slaves globals w c o.0 r in
    let stays = lose_all-ended ws (join w unsat [] c).0 e in
    let all : leb 1 (suc (length ws)) ≡ true = ground arith in
    (
      ap (λ x. x.strategy_ending) stays ∙ e ∙ sym all,
      ap (λ x. x.globals) stays
          ∙ g
          ∙ ap (λ b. if b then set_result unsat [] globals else globals) (sym all),
    )
lose_all-ends (w ∷ ws) slaves (suc (suc k)) globals c r l o =
    let (e, g) =
      lose_all-ends ws slaves (suc k) globals (join w unsat [] c).0
        (join-IsRunning slaves globals w c o.0 k r) (omega arith) o.1 in
    let same : leb (suc k) (length ws) ≡ leb (suc (suc k)) (suc (length ws)) = ground arith in
    (e ∙ same, g ∙ ap (λ b. if b then set_result unsat [] globals else globals) same)
