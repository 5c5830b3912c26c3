-- ===== src/Clauses/Database/Take.antt =====
-- The inner loop of `giveSelection`: clauses of one size leave a bucket by its back.
use dpainless.Prelude.{
  ℕ, zero, suc, ◌+◌, ◌*◌, ◌≤◌, ◌≡◌, refl, List, [], ◌∷◌, ◌++◌, some, arith, length, length-append,
  All,
}
use dpainless.Clauses.Exchange.{ClauseExchange}
use dpainless.Clauses.Exchange.Accounts.{weigh, weigh-append}
use dpainless.Clauses.Database.{Selection, pop_back, take_back}
use dpainless.Clauses.Database.Bounds.{HasSize}

-- The literals of a vector of clauses.
abbrev pub literals : List ClauseExchange → ℕ
literals = weigh (λ c. c.size)

pub literals_of_size :
    (n : ℕ) (b : List ClauseExchange) → All (HasSize n) b → literals b ≡ n * length b
literals_of_size n [] s = omega arith
literals_of_size n (c ∷ b) s = omega (arith, literals_of_size n b s.1)

-- A bucket of clauses of one size loses its last clause.
record Popped (n : ℕ) (b rest : List ClauseExchange) (c : ClauseExchange) : Type 0 where
  eq : pop_back b ≡ some (rest, c)
  size : c.size ≡ n
  sizes : All (HasSize n) rest
  shorter : length b ≡ suc (length rest)
  counted : (w : ClauseExchange → ℕ) → w c + weigh w rest ≡ weigh w b

pop_back-Popped :
    (n : ℕ) (c : ClauseExchange) (b : List ClauseExchange)
    → All (HasSize n) (c ∷ b)
    → (rest : List ClauseExchange) × (last : ClauseExchange) × Popped n (c ∷ b) rest last
unfolding pop_back
pop_back-Popped n c [] s =
    ([], c, record { eq = refl; size = s.0; sizes = tt; shorter = refl; counted = λ w. refl })
pop_back-Popped n c (d ∷ b) s =
    let (rest, last, p) = pop_back-Popped n d b s.1 in
    (
      c ∷ rest,
      last,
      record {
        eq = ground (arith, p.eq);
        size = p.size;
        sizes = (s.0, p.sizes);
        shorter = omega (arith, p.shorter);
        counted = λ w. omega (arith, p.counted w);
      },
    )

-- `k` clauses of one size move from the bucket to the selection.
pub record Taken (n k : ℕ) (b : List ClauseExchange) (sel : Selection) (rest : List ClauseExchange)
    (sel' : Selection) : Type 0 where
  pub eq : take_back k b sel ≡ some (rest, sel')
  pub used : sel'.used ≡ sel.used
  pub sizes : All (HasSize n) rest
  pub shorter : length b ≡ k + length rest
  pub number : sel'.select_count ≡ sel.select_count + k
  pub longer : length sel'.selected ≡ length sel.selected + k
  pub volume : literals sel'.selected ≡ literals sel.selected + n * k
  pub counted :
      (w : ClauseExchange → ℕ)
      → weigh w sel'.selected + weigh w rest ≡ weigh w sel.selected + weigh w b

pub take_back-Taken :
    (n k : ℕ) (b : List ClauseExchange) (sel : Selection)
    → All (HasSize n) b
    → k ≤ length b
    → (rest : List ClauseExchange) × (sel' : Selection) × Taken n k b sel rest sel'
unfolding take_back
take_back-Taken n zero b sel s h = (
  b,
  sel,
  record {
    eq = refl;
    used = refl;
    sizes = s;
    shorter = omega arith;
    number = omega arith;
    longer = omega arith;
    volume = omega arith;
    counted = λ w. refl;
  },
)
take_back-Taken n (suc k) [] sel s h = absurd (omega arith)
take_back-Taken n (suc k) (c ∷ b) sel s h =
    let (rest, last, p) = pop_back-Popped n c b s in
    let (rest', sel', t) =
      take_back-Taken n k rest
        (record sel { selected = sel.selected ++ last ∷ []; select_count = sel.select_count + 1 })
        p.sizes (omega (arith, p.shorter)) in
    (
      rest',
      sel',
      record {
        eq = rw (p.eq, take_back) t.eq;
        used = t.used;
        sizes = t.sizes;
        shorter = omega (arith, p.shorter, t.shorter);
        number = omega (arith, t.number);
        longer = omega (arith, t.longer, length-append sel.selected (last ∷ []));
        volume =
            omega (arith, t.volume, weigh-append (λ c. c.size) sel.selected (last ∷ []), p.size);
        counted =
            λ w. omega (arith, t.counted w, p.counted w, weigh-append w sel.selected (last ∷ []));
      },
    )
