-- ===== src/Clauses/Database/Give.antt =====
-- The references of the database and of the vector that `giveSelection` fills.
use dpainless.Prelude.{
  suc, [], ◌∷◌, ◌*◌, All, length, ltb, ◌&&◌, if◌then◌else◌, ℕ, ◌+◌, ◌^◌, ◌<◌, ◌≡◌, refl, ap, List,
  arith,
}
use dpainless.Clauses.Exchange.{ClauseExchange, Heap, lift}
use dpainless.Clauses.Exchange.Accounts.{
  count, one_at, IsAccounted, IsAccounted-cong, Runs, HasLits, weigh,
}
use dpainless.Clauses.Database.{ClauseDatabase, Selection, give_selection}
use dpainless.Clauses.Database.Bounds.{IsSorted, HasSize, weigh_db, count_db}
use dpainless.Clauses.Database.Greedy.{give_selection-Outcome}

-- 0 for a clause with literals.
abbrev no_lits : ClauseExchange → ℕ
no_lits c = if ltb 0 c.size && ltb c.size (2 ^ 31) then 0 else 1

no_lits_sound : (cs : List ClauseExchange) → weigh no_lits cs ≡ 0 → All HasLits cs
no_lits_sound [] h = tt
no_lits_sound (c ∷ cs) h = (ground arith, no_lits_sound cs (ground arith))

no_lits_complete : (cs : List ClauseExchange) → All HasLits cs → weigh no_lits cs ≡ 0
no_lits_complete [] h = refl
no_lits_complete (c ∷ cs) h = ground (arith, no_lits_complete cs h.1)

of_size :
    (n : ℕ) (b : List ClauseExchange) → All (HasSize n) b → 0 < n → n < 1000 → weigh no_lits b ≡ 0
of_size n [] s h k = refl
of_size n (c ∷ b) s h k = ground (arith, of_size n b s.1 h k)

bucket_lits :
    (i : ℕ) (b : List ClauseExchange)
    → All (HasSize (i + 1)) b
    → length b * (i + 1) < 1000
    → weigh no_lits b ≡ 0
bucket_lits i [] s h = refl
bucket_lits i (c ∷ b) s h =
    of_size (i + 1) (c ∷ b) s (omega arith) (one_product (length b) (i + 1) h)
  where
    one_product : (n m : ℕ) → suc n * m < 1000 → m < 1000
    one_product n m h = grind arith

-- Every clause of a sorted database has literals.
sorted_lits : (i : ℕ) (db : ClauseDatabase) → IsSorted i db → weigh_db no_lits db ≡ 0
sorted_lits i [] s = refl
sorted_lits i (b ∷ db) s = omega (arith, bucket_lits i b s.0 s.1, sorted_lits (i + 1) db s.2)

-- The references move from the database to the selection.
abbrev pub Handed : (ℕ → ℕ) → ClauseDatabase × Selection → Heap → Type 0
Handed f r h =
    IsSorted 0 r.0
    × All HasLits r.1.selected
    × IsAccounted h (λ a. count a r.1.selected + (count_db a r.0 + f a))

-- On a sorted database `giveSelection` runs, and moves references from the database to the selection:
-- none is lost or doubled. The database stays sorted, and every selected clause has a literal.
pub give_selection-Runs :
    (db : ClauseDatabase) (cls : List ClauseExchange) (total : ℕ) (h : Heap) (f g : ℕ → ℕ)
    → IsAccounted h g
    → ((a : ℕ) → g a ≡ count a cls + (count_db a db + f a))
    → IsSorted 0 db
    → All HasLits cls
    → total < 2 ^ 31
    → Runs (lift (give_selection db cls total)) h (Handed f)
give_selection-Runs db cls total h f g v e s lits small =
    let (db', sel, r, o) = give_selection-Outcome db cls total s small in
    (
      (db', sel),
      h,
      ap (λ x. lift x h) r,
      (
        o.sorted,
        no_lits_sound sel.selected
            (omega (arith, o.counted no_lits, sorted_lits 0 db s, no_lits_complete cls lits)),
        IsAccounted-cong (λ a. omega (arith, e a, o.counted (λ c. one_at c a))) v,
      ),
    )
