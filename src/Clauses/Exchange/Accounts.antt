-- ===== src/Clauses/Exchange/Accounts.antt =====
-- Who owns the references: the handles that are held of each clause, against its count.
use dpainless.Prelude.{
  Bool, true, false, ◌^◌, ◌*◌, ℕ, suc, ◌+◌, ◌≤◌, ◌<◌, ◌≡◌, ◌∙◌, refl, List, [], ◌∷◌, ◌++◌, Option,
  none, some, ℤ, arith, ◌==◌, if◌then◌else◌,
}
use dpainless.Clauses.Exchange.{
  ClauseExchange, Heap, M, ◌>>=◌, update, live, alloc_clause, increase_clause, release_clause,
  release_all, increase_all,
}

-- A clause has at least one literal, and its size is an `int`.
abbrev pub HasLits : ClauseExchange → Type 0
HasLits c = (0 < c.size) × (c.size < 2 ^ 31)

-- 1 at the address of the clause.
abbrev pub one_at : ClauseExchange → ℕ → ℕ
one_at c a = if c.addr == a then 1 else 0

-- The sum of a weight over a list of clauses.
abbrev pub weigh : (ClauseExchange → ℕ) → List ClauseExchange → ℕ
weigh w [] = 0
weigh w (c ∷ cs) = w c + weigh w cs

pub weigh-append :
    (w : ClauseExchange → ℕ) (xs ys : List ClauseExchange)
    → weigh w (xs ++ ys) ≡ weigh w xs + weigh w ys
weigh-append w [] ys = omega arith
weigh-append w (x ∷ xs) ys = omega (arith, weigh-append w xs ys)

-- How many handles of the list point to address `a`.
abbrev pub count : ℕ → List ClauseExchange → ℕ
count a = weigh (λ c. one_at c a)

pub count-append :
    (a : ℕ) (xs ys : List ClauseExchange) → count a (xs ++ ys) ≡ count a xs + count a ys
count-append a = weigh-append (λ c. one_at c a)

abbrev pub refs_for : ℕ → Option ℕ
refs_for n = if n == 0 then none else some n

-- `owners a` handles are held of the clause at `a`. Exactly the clauses that somebody holds are
-- allocated, with that many references: nothing dangles, and nothing leaks.
pub record IsAccounted (h : Heap) (owners : ℕ → ℕ) : Type 0 where
  pub counted : (a : ℕ) → h.nb_refs a ≡ refs_for (owners a)
  pub fresh : (a : ℕ) → h.next ≤ a → owners a ≡ 0

-- `m` runs from `h` without a fault, to a result and a heap with `P`.
abbrev pub Runs {ℓ κ} : {A : Type ℓ} → M A → Heap → (A → Heap → Type κ) → Type (ℓ ⊔ κ)
Runs {A} m h P = (a : A) × (h' : Heap) × (m h ≡ some (a, h')) × P a h'

-- The same owners, counted otherwise.
pub IsAccounted-cong :
    {h : Heap} {f g : ℕ → ℕ} → ((a : ℕ) → f a ≡ g a) → IsAccounted h f → IsAccounted h g
IsAccounted-cong {h} e v = record {
  counted = λ a. ground (arith, e a, v.counted a);
  fresh = λ a l. ground (arith, e a, v.fresh a l);
}

pub Runs-if {ℓ κ} :
    {A : Type ℓ} (b : Bool) (m k : M A) (h : Heap) (P : A → Heap → Type κ)
    → Runs m h P
    → Runs k h P
    → Runs (if b then m else k) h P
Runs-if true m k h P r s = r
Runs-if false m k h P r s = s

pub Runs-eq {ℓ κ} :
    {A : Type ℓ} (m : M A) (h : Heap) (P : A → Heap → Type κ) {r : Option (A × Heap)}
    → m h ≡ r
    → ((a : A) × (h' : Heap) × (r ≡ some (a, h')) × P a h')
    → Runs m h P
Runs-eq m h P e (a, h', r, p) = (a, h', e ∙ r, p)

pub Runs-bind {ℓ κ ι μ} :
    {A : Type ℓ} {B : Type κ} (m : M A) (k : A → M B) (h : Heap) (P : A → Heap → Type ι)
    (Q : B → Heap → Type μ)
    → Runs m h P
    → ((a : A) (h' : Heap) → P a h' → Runs (k a) h' Q)
    → Runs (m >>= k) h Q
Runs-bind m k h P Q (a, h', e, p) next = rw (e, ◌>>=◌) (next a h' p)

pub live-Runs :
    (c : ClauseExchange) (h : Heap) (f : ℕ → ℕ)
    → IsAccounted h f
    → 0 < f c.addr
    → live c h ≡ some (tt, h)
unfolding live
live-Runs c h f v held = ground (arith, v.counted c.addr)

-- Whoever holds a clause may give it up.
pub release_clause-Runs :
    (c : ClauseExchange) (h : Heap) (f g : ℕ → ℕ)
    → IsAccounted h g
    → ((a : ℕ) → g a ≡ one_at c a + f a)
    → Runs (release_clause c) h (λ _ h'. IsAccounted h' f)
unfolding release_clause
release_clause-Runs c h f g v e = (
  tt,
  record h { nb_refs = update h.nb_refs c.addr (refs_for (f c.addr)) },
  ground (arith, v.counted c.addr, e c.addr),
  record {
    counted = λ a. ground (arith, v.counted a, e a);
    fresh = λ a l. ground (arith, v.fresh a l, e a);
  },
)

-- Whoever holds a clause may take more references to it.
pub increase_clause-Runs :
    (c : ClauseExchange) (n : ℕ) (h : Heap) (f : ℕ → ℕ)
    → IsAccounted h f
    → 0 < f c.addr
    → Runs (increase_clause c n) h (λ _ h'. IsAccounted h' (λ a. n * one_at c a + f a))
unfolding increase_clause
increase_clause-Runs c n h f v held = (
  tt,
  record h { nb_refs = update h.nb_refs c.addr (some (f c.addr + n)) },
  ground (arith, v.counted c.addr),
  record { counted = λ a. ground (arith, v.counted a); fresh = λ a l. ground (arith, v.fresh a l) },
)

-- A new clause has one owner and an address of its own.
pub alloc_clause-written :
    (lbd : Option ℕ) (from : ℤ) (size : ℕ) (lits : List ℤ) (h : Heap) (f : ℕ → ℕ)
    → IsAccounted h f
    → Runs (alloc_clause lbd from size lits) h (λ c h'.
      IsAccounted h' (λ a. one_at c a + f a) × (c.size ≡ size) × (c.lits ≡ lits) × (c.lbd ≡ lbd))
unfolding alloc_clause
alloc_clause-written lbd from size lits h f v = (
  record { addr = h.next; lbd = lbd; from = from; size = size; lits = lits },
  record { nb_refs = update h.nb_refs h.next (some 1); next = suc h.next },
  refl,
  (
    record {
      counted = λ a. ground (arith, v.counted a, v.fresh a);
      fresh = λ a l. ground (arith, v.fresh a);
    },
    refl,
    refl,
    refl,
  ),
)

pub alloc_clause-Runs :
    (lbd : Option ℕ) (from : ℤ) (size : ℕ) (lits : List ℤ) (h : Heap) (f : ℕ → ℕ)
    → IsAccounted h f
    → Runs
        (alloc_clause lbd from size lits)
        h
        (λ c h'. IsAccounted h' (λ a. one_at c a + f a) × (c.size ≡ size))
alloc_clause-Runs lbd from size lits h f v =
    let (c, h', e, w) = alloc_clause-written lbd from size lits h f v in (c, h', e, (w.0, w.1))

-- Giving up every handle of a vector.
pub release_all-Runs :
    (cs : List ClauseExchange) (h : Heap) (f g : ℕ → ℕ)
    → IsAccounted h g
    → ((a : ℕ) → g a ≡ count a cs + f a)
    → Runs (release_all cs) h (λ _ h'. IsAccounted h' f)
unfolding release_all
release_all-Runs [] h f g v e = (tt, h, refl, IsAccounted-cong (λ a. omega (arith, e a)) v)
release_all-Runs (c ∷ cs) h f g v e =
    Runs-bind (release_clause c) (λ _. release_all cs) h _ _
      (release_clause-Runs c h (λ a. count a cs + f a) g v (λ a. omega (arith, e a)))
      (λ _ h' w. release_all-Runs cs h' f _ w (λ a. refl))

-- Doubling every handle of a vector that is held.
pub increase_all-Runs :
    (cs : List ClauseExchange) (h : Heap) (f g : ℕ → ℕ)
    → IsAccounted h f
    → ((a : ℕ) → count a cs ≤ f a)
    → ((a : ℕ) → g a ≡ count a cs + f a)
    → Runs (increase_all cs) h (λ _ h'. IsAccounted h' g)
unfolding increase_all
increase_all-Runs [] h f g v held e = (tt, h, refl, IsAccounted-cong (λ a. ground (arith, e a)) v)
increase_all-Runs (c ∷ cs) h f g v held e =
    Runs-bind (increase_clause c 1) (λ _. increase_all cs) h _ _
      (increase_clause-Runs c 1 h f v (ground (arith, held c.addr)))
      (λ _ h' w.
        increase_all-Runs cs h' _ g w (λ a. omega (arith, held a)) (λ a. omega (arith, e a)))
