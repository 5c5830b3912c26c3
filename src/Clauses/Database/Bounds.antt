-- ===== src/Clauses/Database/Bounds.antt =====
-- The shape of a clause database: bucket `i` holds clauses of size `i + 1`, and a bounded number.
use dpainless.Prelude.{
  ℕ, zero, suc, ◌+◌, ◌*◌, ◌<◌, ◌≡◌, refl, List, [], ◌∷◌, ◌++◌, some, arith, length, get_elem?, set,
  All,
}
use dpainless.Clauses.Exchange.{ClauseExchange}
use dpainless.Clauses.Exchange.Accounts.{weigh, count-append, one_at}
use dpainless.Clauses.Database.{ClauseDatabase, bucket_limit, grow}

abbrev pub HasSize : ℕ → ClauseExchange → Type 0
HasSize n c = c.size ≡ n

-- The buckets from index `i` on.
abbrev pub IsSorted : ℕ → ClauseDatabase → Type 0
IsSorted i [] = Unit
IsSorted i (b ∷ db) =
    All (HasSize (i + 1)) b × (length b * (i + 1) < bucket_limit) × IsSorted (i + 1) db

-- The sum of a weight over the database.
abbrev pub weigh_db : (ClauseExchange → ℕ) → ClauseDatabase → ℕ
weigh_db w [] = 0
weigh_db w (b ∷ db) = weigh w b + weigh_db w db

-- How many handles in the database point to address `a`.
abbrev pub count_db : ℕ → ClauseDatabase → ℕ
count_db a = weigh_db (λ c. one_at c a)

append_bucket-IsSorted : (i : ℕ) (db : ClauseDatabase) → IsSorted i db → IsSorted i (db ++ [] ∷ [])
append_bucket-IsSorted i [] s = omega arith
append_bucket-IsSorted i (b ∷ db) s = (s.0, s.1, append_bucket-IsSorted (i + 1) db s.2)

pub grow-IsSorted : (k i : ℕ) (db : ClauseDatabase) → IsSorted i db → IsSorted i (grow k db)
unfolding grow
grow-IsSorted zero i db s = s
grow-IsSorted (suc k) i db s = grow-IsSorted k i _ (append_bucket-IsSorted i db s)

count_db-append_bucket : (a : ℕ) (db : ClauseDatabase) → count_db a (db ++ [] ∷ []) ≡ count_db a db
count_db-append_bucket a [] = omega arith
count_db-append_bucket a (b ∷ db) = omega (arith, count_db-append_bucket a db)

pub count_db-grow : (k a : ℕ) (db : ClauseDatabase) → count_db a (grow k db) ≡ count_db a db
unfolding grow
count_db-grow zero a db = refl
count_db-grow (suc k) a db =
    omega (arith, count_db-grow k a (db ++ [] ∷ []), count_db-append_bucket a db)

length-append_bucket : (db : ClauseDatabase) → length (db ++ [] ∷ []) ≡ suc (length db)
length-append_bucket [] = refl
length-append_bucket (b ∷ db) = omega (arith, length-append_bucket db)

pub length-grow : (k : ℕ) (db : ClauseDatabase) → length (grow k db) ≡ k + length db
unfolding grow
length-grow zero db = omega arith
length-grow (suc k) db = omega (arith, length-grow k (db ++ [] ∷ []), length-append_bucket db)

-- The bucket at an index, with what the invariant says of it.
pub record IsBucket (i : ℕ) (db : ClauseDatabase) (j : ℕ) (b : List ClauseExchange) : Type 0 where
  pub found : get_elem? db j ≡ some b
  pub sizes : All (HasSize (i + j + 1)) b
  pub small : length b * (i + j + 1) < bucket_limit

All-HasSize-eq : {n m : ℕ} (b : List ClauseExchange) → n ≡ m → All (HasSize n) b → All (HasSize m) b
All-HasSize-eq [] e s = s
All-HasSize-eq (c ∷ b) e s = (omega arith, All-HasSize-eq b e s.1)

pub IsBucket-found :
    (i : ℕ) (db : ClauseDatabase) (j : ℕ)
    → IsSorted i db
    → j < length db
    → (b : List ClauseExchange) × IsBucket i db j b
IsBucket-found i [] j s h = absurd (omega arith)
IsBucket-found i (b ∷ db) zero s h =
    (b, record { found = refl; sizes = All-HasSize-eq b (omega arith) s.0; small = grind arith })
IsBucket-found i (b ∷ db) (suc j) s h =
    let (b', w) = IsBucket-found (i + 1) db j s.2 (omega arith) in
    (
      b',
      record {
        found = w.found;
        sizes = All-HasSize-eq b' (omega arith) w.sizes;
        small = omega (arith, w.small);
      },
    )

pub set-IsSorted :
    (i : ℕ) (db : ClauseDatabase) (j : ℕ) (b : List ClauseExchange)
    → IsSorted i db
    → All (HasSize (i + j + 1)) b
    → length b * (i + j + 1) < bucket_limit
    → IsSorted i (set db j b)
set-IsSorted i [] j b s h k = s
set-IsSorted i (b' ∷ db) zero b s h k = (All-HasSize-eq b (omega arith) h, omega arith, s.2)
set-IsSorted i (b' ∷ db) (suc j) b s h k =
    (s.0, s.1, set-IsSorted (i + 1) db j b s.2 (All-HasSize-eq b (omega arith) h) (omega arith))

pub count_db-set :
    (a : ℕ) (db : ClauseDatabase) (j : ℕ) (b : List ClauseExchange) (c : ClauseExchange)
    → get_elem? db j ≡ some b
    → count_db a (set db j (b ++ c ∷ [])) ≡ one_at c a + count_db a db
count_db-set a [] j b c e = ground arith
count_db-set a (b' ∷ db) zero b c e = ground (arith, count-append a b (c ∷ []))
count_db-set a (b' ∷ db) (suc j) b c e = omega (arith, count_db-set a db j b c e)
