-- ===== src/Clauses/Database.antt =====
-- clauses/ClauseDatabase.cpp: the clauses that wait to be shared, one vector for each size.
pub mod Bounds
pub mod Take
pub mod Greedy
pub mod Ownership
pub mod Give
use dpainless.Prelude.{
  ℕ, zero, suc, ◌+◌, ◌-◌, ◌*◌, ◌/◌, ◌%◌, ◌^◌, List, [], ◌∷◌, ◌++◌, Option, none, some, length,
  get_elem?, set, ltb, leb, if◌then◌else◌,
}
use dpainless.Clauses.Exchange.{ClauseExchange, M, pure, fault, ◌>>=◌, ◌>>◌, live, release_clause}

-- The clauses of size `i + 1` stand at index `i`.
abbrev pub ClauseDatabase : Type 0
ClauseDatabase = List (List ClauseExchange)

-- Arithmetic of the C types `unsigned` and `size_t`.
abbrev pub u32 : ℕ → ℕ
u32 n = n % 2 ^ 32

abbrev pub u64 : ℕ → ℕ
u64 n = n % 2 ^ 64

-- Room for this many literals of one size.
abbrev pub bucket_limit : ℕ
bucket_limit = 1000

-- `while (clauses.size() < clsSize)`, with the rounds that are left.
unfoldable pub grow : ℕ → ClauseDatabase → ClauseDatabase
grow zero db = db
grow (suc rounds) db = grow rounds (db ++ [] ∷ [])

-- The part of `addClause` after the loop. `clauses[-1]` is out of range.
unfoldable pub place : ClauseDatabase → ClauseExchange → ℕ → M ClauseDatabase
place db c zero = fault
place db c (suc i) = elim (get_elem? db i) [
  | none ↦ fault
  | some bucket ↦
      if ltb (u64 (u64 (length bucket + 1) * suc i)) bucket_limit
      then pure (set db i (bucket ++ c ∷ []))
      else (release_clause c >> pure db)
]

unfoldable pub add_clause : ClauseDatabase → ClauseExchange → M ClauseDatabase
unfolding grow place
add_clause db c = live c >> place (grow (c.size - length db) db) c c.size

-- What `giveSelection` returns and writes through its arguments.
pub record Selection : Type 0 where
  pub selected : List ClauseExchange
  pub used : ℕ
  pub select_count : ℕ

-- `back` and `pop_back`; on an empty vector they are undefined.
unfoldable pub pop_back {ℓ} : {A : Type ℓ} → List A → Option (List A × A)
pop_back [] = none
pop_back (x ∷ xs) = elim (pop_back xs) [ none ↦ some ([], x) | some (r, y) ↦ some (x ∷ r, y) ]

-- The loop over `k`: that many clauses move from the back of the bucket to the selection.
unfoldable pub take_back :
    ℕ → List ClauseExchange → Selection → Option (List ClauseExchange × Selection)
unfolding pop_back
take_back zero bucket sel = some (bucket, sel)
take_back (suc k) bucket sel = elim (pop_back bucket) [
  | none ↦ none
  | some (bucket', c) ↦
      take_back k bucket'
        (record sel { selected = sel.selected ++ c ∷ []; select_count = sel.select_count + 1 })
]

-- The branch for a bucket that fits whole.
abbrev pub take_whole : ℕ → List ClauseExchange → Selection → Selection
take_whole cls_size bucket sel = record {
  selected = sel.selected ++ bucket;
  used = u32 (u64 (sel.used + u64 (cls_size * length bucket)));
  select_count = sel.select_count + length bucket;
}

abbrev pub with_bucket :
    List ClauseExchange → Option (ClauseDatabase × Selection) → Option (ClauseDatabase × Selection)
with_bucket b none = none
with_bucket b (some (db, sel)) = some (b ∷ db, sel)

-- The loop over `i`, from bucket `i` on. `used` is an `int` that is read as an `unsigned`.
unfoldable pub give_from : ℕ → ℕ → ClauseDatabase → Selection → Option (ClauseDatabase × Selection)
unfolding take_back
give_from i total [] sel = some ([], sel)
give_from i total (bucket ∷ db) sel =
    let cls_size = i + 1 in
    let left = u32 (total + 2 ^ 32 - sel.used) in
    let whole = with_bucket [] (give_from (i + 1) total db (take_whole cls_size bucket sel)) in
    let n_cls = left / cls_size in
    let part : Option (ClauseDatabase × Selection) =
      elim (take_back n_cls bucket (record sel { used = u32 (sel.used + cls_size * n_cls) })) [
        | none ↦ none
        | some (rest, sel') ↦ with_bucket rest (give_from (i + 1) total db sel')
      ] in
    if ltb left cls_size
    then some (bucket ∷ db, sel)
    else (if leb (u64 (cls_size * length bucket)) left then whole else part)

-- `selectedCls` is appended to; `none` is an access out of range.
unfoldable pub give_selection :
    ClauseDatabase → List ClauseExchange → ℕ → Option (ClauseDatabase × Selection)
unfolding give_from
give_selection db selected_cls total =
    give_from 0 total db (record { selected = selected_cls; used = 0; select_count = 0 })
