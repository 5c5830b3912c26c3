-- ===== src/Clauses/Database/Greedy.antt =====
-- `giveSelection`: what is selected, how much of the budget is used, and what stays behind.
use Prim.Native.Nat.{◌/◌}
use dpainless.Prelude.{
  ℕ, ◌+◌, ◌-◌, ◌*◌, ◌^◌, ◌≤◌, ◌<◌, ◌≡◌, refl, ap, ◌∙◌, List, [], ◌∷◌, some, arith, length,
  length-append, All, ltb, leb, ltb→lt, leb→le, lt_of_leb, Bool-cases, inl, inr, true, false,
}
use dpainless.Clauses.Exchange.{ClauseExchange}
use dpainless.Clauses.Exchange.Accounts.{weigh, weigh-append}
use dpainless.Clauses.Database.{
  ClauseDatabase, Selection, u32, u64, bucket_limit, take_back, take_whole, with_bucket, give_from,
  give_selection,
}
use dpainless.Clauses.Database.Take.{literals, literals_of_size, take_back-Taken}
use dpainless.Clauses.Database.Bounds.{HasSize, IsSorted, weigh_db}

-- No clause of the database has at most this many literals.
abbrev pub NoneFits : ℕ → ClauseDatabase → Type 0
NoneFits left [] = Unit
NoneFits left (b ∷ db) = All (λ c. left < c.size) b × NoneFits left db

-- What the loop from bucket `i` on does with a selection.
pub record IsOutcome (i total : ℕ) (db : ClauseDatabase) (sel : Selection) (db' : ClauseDatabase)
    (sel' : Selection) : Type 0 where
  pub sorted : IsSorted i db'
  pub grows : sel.used ≤ sel'.used
  pub budget : sel'.used ≤ total
  pub volume : literals sel'.selected + sel.used ≡ literals sel.selected + sel'.used
  pub number : length sel'.selected + sel.select_count ≡ length sel.selected + sel'.select_count
  pub counted :
      (w : ClauseExchange → ℕ)
      → weigh w sel'.selected + weigh_db w db' ≡ weigh w sel.selected + weigh_db w db
  pub maximal : NoneFits (total - sel'.used) db'

NoneFits-sorted :
    (i left : ℕ) (db : ClauseDatabase) → IsSorted i db → left < i + 1 → NoneFits left db
NoneFits-sorted i left [] s h = tt
NoneFits-sorted i left (b ∷ db) s h =
    (bucket b s.0, NoneFits-sorted (i + 1) left db s.2 (omega arith))
  where
    bucket : (b : List ClauseExchange) → All (HasSize (i + 1)) b → All (λ c. left < c.size) b
    bucket [] t = tt
    bucket (c ∷ b) t = (omega arith, bucket b t.1)

too_small :
    (n left : ℕ) (b : List ClauseExchange)
    → All (HasSize n) b
    → left < n
    → All (λ c. left < c.size) b
too_small n left [] s h = tt
too_small n left (c ∷ b) s h = (omega arith, too_small n left b s.1 h)

-- The budget that is left, with no wrap.
left-eq :
    (total used : ℕ) → used ≤ total → total < 2 ^ 31 → u32 (total + 2 ^ 32 - used) ≡ total - used
left-eq total used h k = omega arith

abbrev Given : ℕ → ℕ → ClauseDatabase → Selection → Type 0
Given i total db sel =
    (db' : ClauseDatabase) × (sel' : Selection) × (give_from i total db sel ≡ some (db', sel'))
    × IsOutcome i total db sel db' sel'

module _ (i total : ℕ) (b : List ClauseExchange) (db : ClauseDatabase) (sel : Selection) where
  abbrev left : ℕ
  left = u32 (total + 2 ^ 32 - sel.used)

  -- The selection when the loop over `k` starts.
  abbrev paid : Selection
  paid = record sel { used = u32 (sel.used + (i + 1) * (left / (i + 1))) }

  give-stop : ltb left (i + 1) ≡ true → give_from i total (b ∷ db) sel ≡ some (b ∷ db, sel)
  unfolding give_from
  give-stop e = rw e

  give-whole :
      ltb left (i + 1) ≡ false
      → leb (u64 ((i + 1) * length b)) left ≡ true
      → give_from i total (b ∷ db) sel
        ≡ with_bucket [] (give_from (i + 1) total db (take_whole (i + 1) b sel))
  unfolding give_from
  give-whole e k = rw (e, k)

  give-part :
      {rest : List ClauseExchange} {sel' : Selection}
      → ltb left (i + 1) ≡ false
      → leb (u64 ((i + 1) * length b)) left ≡ false
      → take_back (left / (i + 1)) b paid ≡ some (rest, sel')
      → give_from i total (b ∷ db) sel ≡ with_bucket rest (give_from (i + 1) total db sel')
  unfolding give_from
  give-part e k t = rw (e, k, t)

whole-used : (u p : ℕ) → p < bucket_limit → u < 2 ^ 31 → u32 (u64 (u + u64 p)) ≡ u + p
whole-used u p h k = omega arith

-- As many clauses of `m` literals as fit: what is left is too small for one more.
fits : (l m : ℕ) → 0 < m → (m * (l / m) ≤ l) × (l < m * (l / m) + m)
fits l m h = omega arith

fewer : (l m n : ℕ) → 0 < m → l < m * n → l / m ≤ n
fewer l m n h k = grind (arith, fits l m h)

no_larger : (n k m : ℕ) → k ≤ n → n * m < bucket_limit → k * m < bucket_limit
no_larger n k m h l = grind arith

give_from-stop :
    (i total : ℕ) (b : List ClauseExchange) (db : ClauseDatabase) (sel : Selection)
    → IsSorted i (b ∷ db)
    → sel.used ≤ total
    → total < 2 ^ 31
    → ltb (left i total b db sel) (i + 1) ≡ true
    → Given i total (b ∷ db) sel
give_from-stop i total b db sel s le small e = (
  b ∷ db,
  sel,
  give-stop i total b db sel e,
  record {
    sorted = s;
    grows = omega arith;
    budget = le;
    volume = refl;
    number = refl;
    counted = λ w. refl;
    maximal =
        NoneFits-sorted i (total - sel.used) (b ∷ db) s
          (omega (arith, ltb→lt _ _ e, left-eq total sel.used le small));
  },
)

give_from-whole :
    (i total : ℕ) (b : List ClauseExchange) (db : ClauseDatabase) (sel : Selection)
    → IsSorted i (b ∷ db)
    → sel.used ≤ total
    → total < 2 ^ 31
    → ltb (left i total b db sel) (i + 1) ≡ false
    → leb (u64 ((i + 1) * length b)) (left i total b db sel) ≡ true
    → ((take_whole (i + 1) b sel).used ≤ total → Given (i + 1) total db (take_whole (i + 1) b sel))
    → Given i total (b ∷ db) sel
give_from-whole i total b db sel s le small e k ih =
    let used : u32 (u64 (sel.used + u64 ((i + 1) * length b))) ≡ sel.used + (i + 1) * length b =
      whole-used sel.used ((i + 1) * length b) (omega (arith, s.1)) (omega arith) in
    let cost : (i + 1) * length b ≤ total - sel.used =
      omega (arith, leb→le _ _ k, left-eq total sel.used le small, s.1) in
    let (db', sel', eq, o) = ih (omega arith) in
    (
      [] ∷ db',
      sel',
      give-whole i total b db sel e k ∙ ap (with_bucket []) eq,
      record {
        sorted = (tt, omega arith, o.sorted);
        grows = omega (arith, o.grows);
        budget = o.budget;
        volume = omega (
          arith,
          o.volume,
          weigh-append (λ c. c.size) sel.selected b,
          literals_of_size (i + 1) b s.0,
        );
        number = omega (arith, o.number, length-append sel.selected b);
        counted = λ w. omega (arith, o.counted w, weigh-append w sel.selected b);
        maximal = (tt, o.maximal);
      },
    )

give_from-part :
    (i total : ℕ) (b : List ClauseExchange) (db : ClauseDatabase) (sel : Selection)
    → IsSorted i (b ∷ db)
    → sel.used ≤ total
    → total < 2 ^ 31
    → ltb (left i total b db sel) (i + 1) ≡ false
    → leb (u64 ((i + 1) * length b)) (left i total b db sel) ≡ false
    → ((sel' : Selection) → sel'.used ≤ total → Given (i + 1) total db sel')
    → Given i total (b ∷ db) sel
give_from-part i total b db sel s le small e k ih =
    let l : ℕ = left i total b db sel in
    let l_eq : l ≡ total - sel.used = left-eq total sel.used le small in
    let over : l < (i + 1) * length b = omega (arith, lt_of_leb _ _ k, s.1) in
    let few : l / (i + 1) ≤ length b = fewer l (i + 1) (length b) (omega arith) over in
    let room = fits l (i + 1) (omega arith) in
    let (rest, sel₁, t) = take_back-Taken (i + 1) (l / (i + 1)) b (paid i total b db sel) s.0 few in
    let used : sel₁.used ≡ sel.used + (i + 1) * (l / (i + 1)) = omega (arith, t.used, room) in
    let (db', sel', eq, o) = ih sel₁ (omega (arith, room)) in
    (
      rest ∷ db',
      sel',
      give-part i total b db sel e k t.eq ∙ ap (with_bucket rest) eq,
      record {
        sorted = (
          t.sizes,
          no_larger (length b) (length rest) (i + 1) (omega (arith, t.shorter)) s.1,
          o.sorted,
        );
        grows = omega (arith, o.grows);
        budget = o.budget;
        volume = omega (arith, o.volume, t.volume);
        number = omega (arith, o.number, t.number, t.longer);
        counted = λ w. omega (arith, o.counted w, t.counted w);
        maximal = (
          too_small (i + 1) (total - sel'.used) rest t.sizes (omega (arith, o.grows, room)),
          o.maximal,
        );
      },
    )

give_from-Given :
    (i total : ℕ) (db : ClauseDatabase) (sel : Selection)
    → IsSorted i db
    → sel.used ≤ total
    → total < 2 ^ 31
    → Given i total db sel
unfolding give_from
give_from-Given i total [] sel s le small = (
  [],
  sel,
  refl,
  record {
    sorted = tt;
    grows = omega arith;
    budget = le;
    volume = refl;
    number = refl;
    counted = λ w. refl;
    maximal = tt;
  },
)
give_from-Given i total (b ∷ db) sel s le small =
    elim (Bool-cases (ltb (left i total b db sel) (i + 1))) [
      | inl e ↦ give_from-stop i total b db sel s le small e
      | inr e ↦ elim (Bool-cases (leb (u64 ((i + 1) * length b)) (left i total b db sel))) [
        | inl k ↦
            give_from-whole i total b db sel s le small e k
              λ le'. give_from-Given (i + 1) total db (take_whole (i + 1) b sel) s.2 le' small
        | inr k ↦
            give_from-part i total b db sel s le small e k
              λ sel' le'. give_from-Given (i + 1) total db sel' s.2 le' small
      ]
    ]

-- On a sorted database, and for a budget that is an `int`, `giveSelection` runs without an access out
-- of range. It stays within the
-- budget, of which it uses exactly the literals that it selects; it counts what it selects; no
-- clause is lost or doubled; and no clause that stays behind would have fitted in what is left.
pub give_selection-Outcome :
    (db : ClauseDatabase) (cls : List ClauseExchange) (total : ℕ)
    → IsSorted 0 db
    → total < 2 ^ 31
    → (db' : ClauseDatabase) × (sel : Selection) × (give_selection db cls total ≡ some (db', sel))
      × IsOutcome 0 total db (record { selected = cls; used = 0; select_count = 0 }) db' sel
unfolding give_selection
give_selection-Outcome db cls total s small =
    give_from-Given 0 total db (record { selected = cls; used = 0; select_count = 0 }) s
      (omega arith) small
