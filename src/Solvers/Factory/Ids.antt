-- ===== src/Solvers/Factory/Ids.antt =====
-- How many solvers are made, and their numbers.
use dpainless.Prelude.{
  ℕ, zero, suc, ◌+◌, ◌-◌, ◌*◌, ◌%◌, ◌<◌, ◌≡◌, refl, ap, sym, ◌∙◌, List, [], ◌∷◌, ◌++◌, Option, none,
  some, true, false, Bool-cases, inl, inr, ltb, ◌==◌, if◌then◌else◌, arith, length, length-append,
  get_elem?,
}
use dpainless.Solvers.Factory.{
  SolverType, glucose, lingeling, minisat, maple, Solver, Factory, push_new, can_clone,
  clone_solver, push_clone, push_clones, push_minisats, push_combo, push_combos, Choice,
  only_glucose, only_lingeling, only_maple, combo, only_minisat, numbered_from, fit_memory,
  create_solvers,
}

-- The solvers are there, and numbered one after the other.
abbrev pub IsNumbered : ℕ → List (Option Solver) → Type 0
IsNumbered id [] = Unit
IsNumbered id (none ∷ ss) = ⊥
IsNumbered id (some s ∷ ss) = (s.id ≡ id) × IsNumbered (id + 1) ss

IsNumbered-snoc :
    (ss : List (Option Solver)) (id : ℕ) (s : Solver)
    → IsNumbered id ss
    → s.id ≡ id + length ss
    → IsNumbered id (ss ++ some s ∷ [])
IsNumbered-snoc [] id s h e = (omega (arith, e), tt)
IsNumbered-snoc (none ∷ ss) id s h e = absurd h
IsNumbered-snoc (some t ∷ ss) id s h e = (h.0, IsNumbered-snoc ss (id + 1) s h.1 (omega (arith, e)))

get_elem?-snoc {ℓ} :
    {A : Type ℓ} (xs : List A) (i : ℕ) (x y : A)
    → get_elem? xs i ≡ some x
    → get_elem? (xs ++ y ∷ []) i ≡ some x
get_elem?-snoc [] i x y h = cc
get_elem?-snoc (z ∷ zs) zero x y h = h
get_elem?-snoc (z ∷ zs) (suc i) x y h = get_elem?-snoc zs i x y h

get_elem?-snoc_last {ℓ} :
    {A : Type ℓ} (xs : List A) (y : A) → get_elem? (xs ++ y ∷ []) (length xs) ≡ some y
get_elem?-snoc_last [] y = refl
get_elem?-snoc_last (x ∷ xs) y = get_elem?-snoc_last xs y

-- Solvers numbered from `base`, n of them, with the next number.
pub record IsMade (base n : ℕ) (f : Factory) : Type 0 where
  pub numbered : IsNumbered base f.solvers
  pub made : length f.solvers ≡ n
  pub next : f.current_id ≡ base + n

IsMade-count : (f : Factory) (base n m : ℕ) → n ≡ m → IsMade base n f → IsMade base m f
IsMade-count f base n m e k = record {
  numbered = k.numbered;
  made = k.made ∙ e;
  next = omega (arith, e, k.next);
}

-- Solver i can be cloned.
abbrev CanClone : ℕ → Factory → Type 0
CanClone i f = (s : Solver) × (get_elem? f.solvers i ≡ some (some s)) × (can_clone s.kind ≡ true)

push_new-IsMade :
    (base n : ℕ) (kind : SolverType) (f : Factory)
    → IsMade base n f
    → IsMade base (suc n) (push_new kind f)
unfolding push_new
push_new-IsMade base n kind f m = record {
  numbered =
      IsNumbered-snoc f.solvers base (record { id = f.current_id; kind = kind }) m.numbered
        (omega (arith, m.next, m.made));
  made = omega (
    arith,
    length-append f.solvers (some (record { id = f.current_id; kind = kind }) ∷ []),
    m.made,
  );
  next = omega (arith, m.next);
}

push_new-CanClone :
    (i : ℕ) (kind : SolverType) (f : Factory) → CanClone i f → CanClone i (push_new kind f)
unfolding push_new
push_new-CanClone i kind f (s, e, c) =
    (s, get_elem?-snoc f.solvers i (some s) (some (record { id = f.current_id; kind = kind })) e, c)

-- A new solver that can be cloned.
push_new-CanClone_self :
    (i : ℕ) (kind : SolverType) (f : Factory)
    → length f.solvers ≡ i
    → can_clone kind ≡ true
    → CanClone i (push_new kind f)
unfolding push_new
push_new-CanClone_self i kind f e c =
    let s : Solver = record { id = f.current_id; kind = kind } in
    (
      s,
      ap (get_elem? (f.solvers ++ some s ∷ [])) (sym e) ∙ get_elem?-snoc_last f.solvers (some s),
      c,
    )

-- A clone is made, and what could be cloned still can.
push_clone-IsMade :
    (base n i : ℕ) (f : Factory)
    → IsMade base n f
    → CanClone i f
    → (f' : Factory) × (push_clone i f ≡ some f')
      × IsMade base (suc n) f'
      × ((j : ℕ) → CanClone j f → CanClone j f')
unfolding push_clone clone_solver
push_clone-IsMade base n i f m (s, e, c) =
    let t : Solver = record { id = f.current_id; kind = s.kind } in
    (
      record { solvers = f.solvers ++ some t ∷ []; current_id = f.current_id + 1 },
      ground (arith, e, c),
      record {
        numbered = IsNumbered-snoc f.solvers base t m.numbered (omega (arith, m.next, m.made));
        made = omega (arith, length-append f.solvers (some t ∷ []), m.made);
        next = omega (arith, m.next);
      },
      λ j (u, eu, cu). (u, get_elem?-snoc f.solvers j (some u) (some t) eu, cu),
    )

-- Both hold after a loop of more steps.
abbrev Makes : ℕ → ℕ → Option Factory → Type 0
Makes base n r = (f : Factory) × (r ≡ some f) × IsMade base n f

push_clones-IsMade :
    (k base n : ℕ) (f : Factory)
    → IsMade base n f
    → CanClone 0 f
    → Makes base (k + n) (push_clones k f)
unfolding push_clones
push_clones-IsMade zero base n f m c = (f, refl, IsMade-count f base n (0 + n) (omega arith) m)
push_clones-IsMade (suc k) base n f m c =
    let (f', e, m', keep) = push_clone-IsMade base n 0 f m c in
    let (g, e', m'') = push_clones-IsMade k base (suc n) f' m' (keep 0 c) in
    (g, rw (e, push_clones) e', IsMade-count g base (k + suc n) (suc k + n) (omega arith) m'')

push_minisats-IsMade :
    (k base n : ℕ) (f : Factory) → IsMade base n f → IsMade base (k + n) (push_minisats k f)
unfolding push_minisats
push_minisats-IsMade zero base n f m = IsMade-count f base n (0 + n) (omega arith) m
push_minisats-IsMade (suc k) base n f m =
    IsMade-count (push_minisats k (push_new minisat f)) base (k + suc n) (suc k + n) (omega arith) (
      push_minisats-IsMade k base (suc n) (push_new minisat f) (push_new-IsMade base n minisat f m))

-- The first two solvers, once they are made, can be cloned.
abbrev IsCombo : ℕ → Factory → Type 0
IsCombo i f = (0 < i → CanClone 0 f) × (1 < i → CanClone 1 f)

push_combo-IsMade :
    (base i : ℕ) (f : Factory)
    → IsMade base i f
    → IsCombo i f
    → (f' : Factory) × (push_combo i f ≡ some f') × IsMade base (suc i) f' × IsCombo (suc i) f'
unfolding push_combo
push_combo-IsMade base zero f m c = (
  push_new glucose f,
  refl,
  push_new-IsMade base 0 glucose f m,
  (λ _. push_new-CanClone_self 0 glucose f m.made refl, λ h. absurd (omega (arith, h))),
)
push_combo-IsMade base (suc zero) f m c = (
  push_new lingeling f,
  refl,
  push_new-IsMade base 1 lingeling f m,
  (
    λ _. push_new-CanClone 0 lingeling f (c.0 (omega arith)),
    λ _. push_new-CanClone_self 1 lingeling f m.made refl,
  ),
)
push_combo-IsMade base (suc (suc j)) f m c =
    let later : (suc (suc j) == 0) ≡ false = ground arith in
    let later' : (suc (suc j) == 1) ≡ false = ground arith in
    let at0 = c.0 (omega arith) in
    let at1 = c.1 (omega arith) in
    elim (Bool-cases (suc (suc j) % 3 == 0)) [
      | inl turn ↦
          let (f', e, m', keep) = push_clone-IsMade base (suc (suc j)) 0 f m at0 in
          (f', rw (turn, later) e, m', (λ _. keep 0 at0, λ _. keep 1 at1))
      | inr not0 ↦ elim (Bool-cases (suc (suc j) % 3 == 1)) [
        | inl turn ↦
            let (f', e, m', keep) = push_clone-IsMade base (suc (suc j)) 1 f m at1 in
            (f', rw (not0, turn, later') e, m', (λ _. keep 0 at0, λ _. keep 1 at1))
        | inr not1 ↦ (
          push_new minisat f,
          rw (not0, not1) refl,
          push_new-IsMade base (suc (suc j)) minisat f m,
          (λ _. push_new-CanClone 0 minisat f at0, λ _. push_new-CanClone 1 minisat f at1),
        )
      ]
    ]

push_combos-IsMade :
    (k base i : ℕ) (f : Factory)
    → IsMade base i f
    → IsCombo i f
    → Makes base (k + i) (push_combos k i f)
unfolding push_combos
push_combos-IsMade zero base i f m c = (f, refl, IsMade-count f base i (0 + i) (omega arith) m)
push_combos-IsMade (suc k) base i f m c =
    let (f', e, m', c') = push_combo-IsMade base i f m c in
    let (g, e', m'') = push_combos-IsMade k base (suc i) f' m' c' in
    let next : i + 1 ≡ suc i = omega arith in
    (
      g,
      rw (e, push_combos) (ap (λ n. push_combos k n f') next ∙ e'),
      IsMade-count g base (k + suc i) (suc k + i) (omega arith) m'',
    )

-- As many as are asked for, or as fit into the memory, but one at least.
abbrev pub expected : Choice → ℕ → ℕ → ℕ
expected only_glucose nb fit = if ltb 0 (fit_memory nb fit) then fit_memory nb fit else 1
expected only_maple nb fit = if ltb 0 (fit_memory nb fit) then fit_memory nb fit else 1
expected only_lingeling nb fit = nb
expected combo nb fit = nb
expected only_minisat nb fit = nb

empty-IsMade : (rank nb : ℕ) → IsMade (rank * nb) 0 (numbered_from rank nb)
empty-IsMade rank nb = record { numbered = tt; made = refl; next = omega arith }

clones-IsMade :
    (kind : SolverType) (k rank nb n : ℕ)
    → can_clone kind ≡ true
    → k + 1 ≡ n
    → Makes (rank * nb) n (push_clones k (push_new kind (numbered_from rank nb)))
clones-IsMade kind k rank nb n c e =
    let (f, p, m) =
      push_clones-IsMade k (rank * nb) 1 (push_new kind (numbered_from rank nb))
        (push_new-IsMade (rank * nb) 0 kind (numbered_from rank nb) (empty-IsMade rank nb))
        (push_new-CanClone_self 0 kind (numbered_from rank nb) refl c) in
    (f, p, IsMade-count f (rank * nb) (k + 1) n e m)

-- Whatever solvers are asked for, a positive number nb of them is made without using a solver that is
-- NULL or out of range: as many as are asked for, or as fit into the memory for Glucose and Maple, but
-- one at least. In the process of rank r they are numbered r * nb, r * nb + 1 and so on.
pub create_solvers-IsMade :
    (choice : Choice) (nb rank fit : ℕ)
    → 0 < nb
    → (f : Factory) × (create_solvers choice nb rank fit ≡ some f)
      × IsMade (rank * nb) (expected choice nb fit) f
unfolding create_solvers
create_solvers-IsMade only_glucose nb rank fit h =
    clones-IsMade glucose (fit_memory nb fit - 1) rank nb (expected only_glucose nb fit) refl
      (ground arith)
create_solvers-IsMade only_lingeling nb rank fit h =
    clones-IsMade lingeling (nb - 1) rank nb nb refl (omega arith)
create_solvers-IsMade only_maple nb rank fit h =
    clones-IsMade maple (fit_memory nb fit - 1) rank nb (expected only_maple nb fit) refl
      (ground arith)
create_solvers-IsMade combo nb rank fit h =
    let (f, e, m) =
      push_combos-IsMade nb (rank * nb) 0 (numbered_from rank nb) (empty-IsMade rank nb)
        (λ i. absurd (omega (arith, i)), λ i. absurd (omega (arith, i))) in
    (f, e, IsMade-count f (rank * nb) (nb + 0) nb (omega arith) m)
create_solvers-IsMade only_minisat nb rank fit h = (
  push_minisats nb (numbered_from rank nb),
  refl,
  IsMade-count (push_minisats nb (numbered_from rank nb)) (rank * nb) (nb + 0) nb (omega arith)
      (push_minisats-IsMade nb (rank * nb) 0 (numbered_from rank nb) (empty-IsMade rank nb)),
)
