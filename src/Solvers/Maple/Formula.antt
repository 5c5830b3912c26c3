-- ===== src/Solvers/Maple/Formula.antt =====
-- Models, and the variables of initial clauses.
use mathlib.Core.Path.{subst}
use mathlib.Core.List.{append_assoc}
use dpainless.Prelude.{
  ℕ, zero, suc, ◌+◌, ◌-◌, ◌≤◌, ◌<◌, ◌≡◌, refl, sym, ap, ◌∙◌, List, [], ◌∷◌, ◌++◌, Option, none,
  some, ℤ, pos, negsuc, neg, abs, length, get_elem?, leb, Bool, true, false, map, if◌then◌else◌,
  arith, All, occurrences, length-append,
}
use dpainless.Clauses.Exchange.{ClauseExchange}
use dpainless.Clauses.Buffer.{BufferApi}
use dpainless.Solvers.Native.{SimpSolver}
use dpainless.Solvers.Maple.{
  Maple, model_lit, model_from, get_model, new_vars, make_vars, make_mini_vec, add_initial_clauses,
}

abbrev pub max : ℕ → ℕ → ℕ
max a b = if leb a b then b else a

-- The model of some values, the first of which has index `i`.
abbrev model_of : ℕ → List (Option Bool) → List ℤ
model_of i [] = []
model_of i (none ∷ vs) = model_of (i + 1) vs
model_of i (some b ∷ vs) = model_lit i b ∷ model_of (i + 1) vs

get_elem?-behind :
    {A : Type 0} (xs : List A) (y : A) (ys : List A) → get_elem? (xs ++ y ∷ ys) (length xs) ≡ some y
get_elem?-behind [] y ys = refl
get_elem?-behind (x ∷ xs) y ys = get_elem?-behind xs y ys

abbrev put_lit : ℕ → Option Bool → List ℤ → List ℤ
put_lit i none ls = ls
put_lit i (some b) ls = model_lit i b ∷ ls

model_of-step :
    (i : ℕ) (v : Option Bool) (vs : List (Option Bool))
    → some (put_lit i v (model_of (i + 1) vs)) ≡ some (model_of i (v ∷ vs))
model_of-step i none vs = refl
model_of-step i (some b) vs = refl

model_from-step :
    (rounds i : ℕ) (values : List (Option Bool)) (v : Option Bool) (ls : List ℤ)
    → get_elem? values i ≡ some v
    → model_from rounds (i + 1) values ≡ some ls
    → model_from (suc rounds) i values ≡ some (put_lit i v ls)
unfolding model_from
model_from-step rounds i values none ls e f = rw (e, model_from) (rw f refl)
model_from-step rounds i values (some b) ls e f = rw (e, model_from) (rw f refl)

model_from-of :
    (xs ys : List (Option Bool)) (i : ℕ)
    → i ≡ length xs
    → model_from (length ys) i (xs ++ ys) ≡ some (model_of i ys)
unfolding model_from
model_from-of xs [] i e = refl
model_from-of xs (v ∷ ys) i e =
    model_from-step (length ys) i (xs ++ v ∷ ys) v (model_of (i + 1) ys)
      (ap (get_elem? (xs ++ v ∷ ys)) e ∙ get_elem?-behind xs v ys)
      (ap (model_from (length ys) (i + 1)) (sym (append_assoc xs (v ∷ []) ys))
        ∙ model_from-of (xs ++ v ∷ []) ys (i + 1) (omega (arith, e, length-append xs (v ∷ []))))
    ∙ model_of-step i v ys

-- 1 if the value is assigned.
abbrev pub assigned : Option (Option Bool) → ℕ
assigned none = 0
assigned (some none) = 0
assigned (some (some b)) = 1

-- The values make the literal true.
abbrev pub Holds : List (Option Bool) → ℤ → Type 0
Holds values l = (i : ℕ) × (b : Bool) × (get_elem? values i ≡ some (some b)) × (l ≡ model_lit i b)

abs-neg : (z : ℤ) → abs (neg z) ≡ abs z
abs-neg (pos zero) = refl
abs-neg (pos (suc n)) = refl
abs-neg (negsuc n) = refl

abs-model_lit : (i : ℕ) (b : Bool) → abs (model_lit i b) ≡ i + 1
abs-model_lit i true = refl
abs-model_lit i false = abs-neg (pos (i + 1))

module _ {A : Type 0} (x : A) (xs : List A) (i k : ℕ) where
  get_elem?-later : i < k → get_elem? (x ∷ xs) (k - i) ≡ get_elem? xs (k - (i + 1))
  get_elem?-later h = let e : k - i ≡ suc (k - (i + 1)) = omega arith in ap (get_elem? (x ∷ xs)) e

  get_elem?-here : i ≡ k → get_elem? (x ∷ xs) (k - i) ≡ some x
  get_elem?-here h = let e : k - i ≡ 0 = omega arith in ap (get_elem? (x ∷ xs)) e

occurrences-model_of :
    (i k : ℕ) (vs : List (Option Bool))
    → occurrences (k + 1) (map abs (model_of i vs))
      ≡ (if leb i k then assigned (get_elem? vs (k - i)) else 0)
occurrences-model_of i k [] = ground arith
occurrences-model_of i k (none ∷ vs) = ground (
  arith,
  get_elem?-later none vs i k,
  get_elem?-here none vs i k,
  occurrences-model_of (i + 1) k vs,
)
occurrences-model_of i k (some b ∷ vs) = ground (
  arith,
  abs-model_lit i b,
  get_elem?-later (some b) vs i k,
  get_elem?-here (some b) vs i k,
  occurrences-model_of (i + 1) k vs,
)

model_of-Holds :
    (xs ys : List (Option Bool)) (i : ℕ) → i ≡ length xs → All (Holds (xs ++ ys)) (model_of i ys)
model_of-Holds xs [] i e = tt
model_of-Holds xs (none ∷ ys) i e =
    subst (λ vs. All (Holds vs) (model_of (i + 1) ys)) (append_assoc xs (none ∷ []) ys)
      (model_of-Holds (xs ++ none ∷ []) ys (i + 1) (omega (arith, e, length-append xs (none ∷ []))))
model_of-Holds xs (some b ∷ ys) i e = (
  (i, b, ap (get_elem? (xs ++ some b ∷ ys)) e ∙ get_elem?-behind xs (some b) ys, refl),
  subst (λ vs. All (Holds vs) (model_of (i + 1) ys)) (append_assoc xs (some b ∷ []) ys)
      (model_of-Holds (xs ++ some b ∷ []) ys (i + 1)
        (omega (arith, e, length-append xs (some b ∷ [])))),
)

-- The highest variable of a clause, or `n`.
abbrev pub highest : List ℤ → ℕ → ℕ
highest [] n = n
highest (l ∷ ls) n = highest ls (max n (abs l))

abbrev pub highest_of : List ClauseExchange → ℕ → ℕ
highest_of [] n = n
highest_of (c ∷ cs) n = highest_of cs (highest c.lits n)

highest-le : (ls : List ℤ) (n : ℕ) → n ≤ highest ls n
highest-le [] n = omega arith
highest-le (l ∷ ls) n = ground (arith, highest-le ls (max n (abs l)))

highest_of-le : (cs : List ClauseExchange) (n : ℕ) → n ≤ highest_of cs n
highest_of-le [] n = omega arith
highest_of-le (c ∷ cs) n = omega (arith, highest-le c.lits n, highest_of-le cs (highest c.lits n))

-- Whatever bounds the highest variable bounds all literals.
highest-All : (ls : List ℤ) (n m : ℕ) → highest ls n ≤ m → All (λ l. abs l ≤ m) ls
highest-All [] n m h = tt
highest-All (l ∷ ls) n m h =
    (ground (arith, highest-le ls (max n (abs l))), highest-All ls (max n (abs l)) m h)

highest_of-All :
    (cs : List ClauseExchange) (n m : ℕ)
    → highest_of cs n ≤ m
    → All (λ c. All (λ l. abs l ≤ m) c.lits) cs
highest_of-All [] n m h = tt
highest_of-All (c ∷ cs) n m h = (
  highest-All c.lits n m (omega (arith, highest_of-le cs (highest c.lits n))),
  highest_of-All cs (highest c.lits n) m h,
)

occurrences-model_of_all :
    (k : ℕ) (vs : List (Option Bool))
    → occurrences (k + 1) (map abs (model_of 0 vs)) ≡ assigned (get_elem? vs k)
occurrences-model_of_all k vs =
    let e : leb 0 k ≡ true = ground arith in
    let d : k - 0 ≡ k = omega arith in
    occurrences-model_of 0 k vs
    ∙ ap (λ b. if b then assigned (get_elem? vs (k - 0)) else 0) e
    ∙ ap (λ j. assigned (get_elem? vs j)) d

module _ {T L B : Type 0} (solver : SimpSolver T L) (api : BufferApi B) where
  -- If the solver has a value for each of its variables, `getModel` runs without a fault. Each literal
  -- of its result is made true by these values, and each variable that has a value occurs in it exactly
  -- once, the others not at all.
  pub get_model-agrees :
      (m : Maple solver api)
      → length (solver.model m.core) ≡ solver.n_vars m.core
      → (ls : List ℤ) × (get_model solver api m ≡ some ls)
        × All (Holds (solver.model m.core)) ls
        × ((k : ℕ)
            → occurrences (k + 1) (map abs ls) ≡ assigned (get_elem? (solver.model m.core) k))
  unfolding get_model
  get_model-agrees m e = (
    model_of 0 (solver.model m.core),
    ap (λ n. model_from n 0 (solver.model m.core)) (sym e)
        ∙ model_from-of [] (solver.model m.core) 0 refl,
    model_of-Holds [] (solver.model m.core) 0 refl,
    λ k. occurrences-model_of_all k (solver.model m.core),
  )

  n_vars-new_vars :
      (rounds : ℕ) (t : T) → solver.n_vars (new_vars solver api rounds t) ≡ rounds + solver.n_vars t
  unfolding new_vars
  n_vars-new_vars zero t = omega arith
  n_vars-new_vars (suc rounds) t =
      omega (arith, n_vars-new_vars rounds (solver.new_var t), solver.n_vars-new_var t)

  n_vars-make_vars :
      (ls : List ℤ) (t : T)
      → solver.n_vars (make_vars solver api ls t) ≡ highest ls (solver.n_vars t)
  unfolding make_vars
  n_vars-make_vars [] t = refl
  n_vars-make_vars (l ∷ ls) t =
      n_vars-make_vars ls (new_vars solver api (abs l - solver.n_vars t) t)
      ∙ ap (highest ls) (ground (arith, n_vars-new_vars (abs l - solver.n_vars t) t))

  n_vars-add_initial_clauses :
      (cs : List ClauseExchange) (m : Maple solver api)
      → solver.n_vars (add_initial_clauses solver api cs m).core
        ≡ highest_of cs (solver.n_vars m.core)
  unfolding add_initial_clauses
  n_vars-add_initial_clauses [] m = refl
  n_vars-add_initial_clauses (c ∷ cs) m =
      n_vars-add_initial_clauses cs (record m {
        core =
            (solver.add_clause (make_mini_vec solver api c) (make_vars solver api c.lits m.core)).1;
      })
      ∙ ap (highest_of cs) (
          solver.n_vars-add_clause (make_mini_vec solver api c) (make_vars solver api c.lits m.core)
          ∙ n_vars-make_vars c.lits m.core)

  -- After `addInitialClauses` the solver has as many variables as the highest variable of the clauses,
  -- or as it had before if that is more; and so all literals have their variable.
  pub add_initial_clauses-vars :
      (cs : List ClauseExchange) (m : Maple solver api)
      → (solver.n_vars (add_initial_clauses solver api cs m).core
          ≡ highest_of cs (solver.n_vars m.core))
        × All
            (λ c.
              All (λ l. abs l ≤ solver.n_vars (add_initial_clauses solver api cs m).core) c.lits)
            cs
  add_initial_clauses-vars cs m = (
    n_vars-add_initial_clauses cs m,
    highest_of-All cs (solver.n_vars m.core)
        (solver.n_vars (add_initial_clauses solver api cs m).core)
        (omega (arith, n_vars-add_initial_clauses cs m)),
  )
