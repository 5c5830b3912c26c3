-- ===== src/Clauses/Database/Ownership.antt =====
-- The references of the database, and what `addClause` does with the one that it is given.
use native.Mathlib.Nat.{mod-eq_of_lt}
use dpainless.Prelude.{
  ◌∙◌, ℕ, suc, ◌+◌, ◌-◌, ◌*◌, ◌^◌, ◌<◌, ◌≡◌, refl, ap, List, [], ◌∷◌, ◌++◌, some, arith, length,
  length-append, get_elem?, set, All-append, ltb, ltb→lt, Bool-cases, inl, inr, true, false,
}
use dpainless.Clauses.Exchange.{ClauseExchange, Heap, pure, ◌>>=◌, ◌>>◌, release_clause}
use dpainless.Clauses.Exchange.Accounts.{
  one_at, IsAccounted, IsAccounted-cong, Runs, Runs-bind, live-Runs, Runs-eq, release_clause-Runs,
}
use dpainless.Clauses.Database.{ClauseDatabase, u64, bucket_limit, grow, place, add_clause}
use dpainless.Clauses.Database.Bounds.{
  HasSize, IsSorted, count_db, grow-IsSorted, count_db-grow, length-grow, IsBucket-found,
  set-IsSorted, count_db-set,
}

-- What a call that is given a reference to `c` leaves behind.
abbrev pub Kept : (ℕ → ℕ) → ClauseDatabase → Heap → Type 0
Kept f db h = IsSorted 0 db × IsAccounted h (λ a. count_db a db + f a)

module _ (db : ClauseDatabase) (c : ClauseExchange) (i : ℕ) (h : Heap) {b : List ClauseExchange}
    (found : get_elem? db i ≡ some b) where
  place-room :
      ltb (u64 (u64 (length b + 1) * suc i)) bucket_limit ≡ true
      → place db c (suc i) h ≡ some (set db i (b ++ c ∷ []), h)
  unfolding place
  place-room room = ground arith

  place-full :
      ltb (u64 (u64 (length b + 1) * suc i)) bucket_limit ≡ false
      → place db c (suc i) h ≡ (release_clause c >> pure db) h
  unfolding place
  place-full full = ground arith

no_wrap :
    (n i : ℕ)
    → n * (0 + i + 1) < bucket_limit
    → suc i < 2 ^ 31
    → u64 (u64 (n + 1) * suc i) ≡ (n + 1) * suc i
no_wrap n i h k =
    ap (λ x. u64 (x * suc i)) (mod-eq_of_lt {n = n + 1} {m = 2 ^ 64} (omega arith))
    ∙ mod-eq_of_lt {n = (n + 1) * suc i} {m = 2 ^ 64} (omega arith)

place-Runs :
    (db : ClauseDatabase) (c : ClauseExchange) (i : ℕ) (h : Heap) (f g : ℕ → ℕ)
    → IsAccounted h g
    → ((a : ℕ) → g a ≡ one_at c a + (count_db a db + f a))
    → IsSorted 0 db
    → i < length db
    → c.size ≡ suc i
    → c.size < 2 ^ 31
    → Runs (place db c (suc i)) h (Kept f)
place-Runs db c i h f g v e s lt size fits =
    let (b, w) = IsBucket-found 0 db i s lt in
    let wrap : u64 (u64 (length b + 1) * suc i) ≡ (length b + 1) * suc i =
      no_wrap (length b) i w.small (omega arith) in
    elim (Bool-cases (ltb (u64 (u64 (length b + 1) * suc i)) bucket_limit)) [
      | inl room ↦ (
        set db i (b ++ c ∷ []),
        h,
        place-room db c i h w.found room,
        (
          set-IsSorted 0 db i (b ++ c ∷ []) s
              (All-append (HasSize (0 + i + 1)) b (c ∷ []) w.sizes (omega arith, tt))
              (rw (length-append b (c ∷ [])) (omega (arith, ltb→lt _ _ room, wrap))),
          IsAccounted-cong (λ a. omega (arith, e a, count_db-set a db i b c w.found)) v,
        ),
      )
      | inr full ↦ Runs-eq (place db c (suc i)) h (Kept f) (place-full db c i h w.found full) (
          Runs-bind (release_clause c) (λ _. pure db) h _ _
            (release_clause-Runs c h (λ a. count_db a db + f a) g v e)
            (λ _ h' v'. (db, h', refl, (s, v'))))
    ]

-- For a clause with literals and a sorted database, `addClause` runs without a fault. It keeps every bucket at its size and below its bound, and the
-- reference that it is given is in the database afterwards, or released: none dangles or leaks.
pub add_clause-Runs :
    (db : ClauseDatabase) (c : ClauseExchange) (h : Heap) (f g : ℕ → ℕ)
    → IsAccounted h g
    → ((a : ℕ) → g a ≡ one_at c a + (count_db a db + f a))
    → IsSorted 0 db
    → 0 < c.size
    → c.size < 2 ^ 31
    → Runs (add_clause db c) h (Kept f)
unfolding add_clause
add_clause-Runs db c h f g v e s pos fits =
    let size : c.size ≡ suc (c.size - 1) = omega arith in
    Runs-eq (add_clause db c) h (Kept f)
      (rw (live-Runs c h g v (ground (arith, e c.addr)), ◌>>=◌)
        (ap (λ n. place (grow (c.size - length db) db) c n h) size))
      (place-Runs (grow (c.size - length db) db) c (c.size - 1) h f g v
        (λ a. omega (arith, e a, count_db-grow (c.size - length db) a db))
        (grow-IsSorted (c.size - length db) 0 db s)
        (omega (arith, length-grow (c.size - length db) db)) (omega arith) fits)
