-- ===== src/Sharing/Horde.antt =====
-- sharing/HordeSatSharing.cpp: the shortest learned clauses of each solver go to the others.
use dpainless.Prelude.{
  ℕ, ◌+◌, ◌*◌, ◌/◌, ◌^◌, ◌<◌, ◌≡◌, refl, List, [], ◌∷◌, arith, length, length-set, set, All, ◌==◌,
  ltb, if◌then◌else◌, Bool-cases, inl, inr, ==_iff,
}
use dpainless.Clauses.Exchange.{
  ClauseExchange, Heap, M, pure, fault, lift, ◌>>=◌, ◌>>◌, release_all,
}
use dpainless.Clauses.Exchange.Accounts.{
  count, IsAccounted, IsAccounted-cong, Runs, Runs-if, Runs-bind, release_all-Runs, HasLits,
}
use dpainless.Clauses.Database.{u64, ClauseDatabase, Selection, add_clause, give_selection}
use dpainless.Clauses.Database.Bounds.{IsSorted, count_db}
use dpainless.Clauses.Database.Ownership.{add_clause-Runs, Kept}
use dpainless.Clauses.Database.Give.{Handed, give_selection-Runs}
use dpainless.Sharing.Interface.{
  SolverInterface, SharingStatistics, deref, count_solvers, count_solvers-set, deref-some,
}
use dpainless.Sharing.Deliver.{deliver, deliver-Runs, Owned}

-- The loop that adds the learned clauses to the database.
unfoldable pub add_all : List ClauseExchange → ClauseDatabase → M ClauseDatabase
add_all [] db = pure db
add_all (c ∷ cs) db = add_clause db c >>= add_all cs

add_all-Runs :
    (cs : List ClauseExchange) (db : ClauseDatabase) (h : Heap) (f g : ℕ → ℕ)
    → IsAccounted h g
    → ((a : ℕ) → g a ≡ count a cs + (count_db a db + f a))
    → IsSorted 0 db
    → All HasLits cs
    → Runs (add_all cs db) h (Kept f)
unfolding add_all
add_all-Runs [] db h f g v e s lits =
    (db, h, refl, (s, IsAccounted-cong (λ a. omega (arith, e a)) v))
add_all-Runs (c ∷ cs) db h f g v e s lits =
    Runs-bind (add_clause db c) (add_all cs) h _ _
      (add_clause-Runs db c h (λ a. count a cs + f a) g v (λ a. omega (arith, e a)) s lits.0.0
        lits.0.1)
      (λ db' h' k. add_all-Runs cs db' h' f _ k.1 (λ a. omega arith) k.0 lits.1)

module _ {S : Type 0} (api : SolverInterface S) where
  -- What lasts from round to round.
  pub record HordeSatSharing : Type 0 where
    pub literal_per_round : ℕ
    pub database : ClauseDatabase
    pub stats : SharingStatistics

  -- `usedPercent < 80`; a division by 0 is a fault. `100 * used` is an `int`, and is not wrapped here:
  -- `used` is at most the number of literals a round.
  unfoldable pub adapt_production : ℕ → ℕ → ℕ → List S → M (List S)
  adapt_production used limit i ss =
      if limit == 0
      then fault
      else if ltb (100 * used / limit) 80
      then (deref ss i >>= λ s. pure (set ss i (api.increase_clause_production s)))
      else pure ss

  -- The body of the loop over the producers, from the test of `usedPercent` on.
  unfoldable pub share_selection :
      List ℕ → ℕ → ℕ → Selection → List S → HordeSatSharing → M (List S × HordeSatSharing)
  unfolding adapt_production
  share_selection to i from_id sel ss horde = do
    ss₁ ← adapt_production sel.used horde.literal_per_round i ss
    ss₂ ← deliver api from_id sel.selected to ss₁
    release_all sel.selected
    pure (ss₂, horde)

  -- The statistics after one producer.
  abbrev pub count_round : SharingStatistics → ℕ → ℕ → SharingStatistics
  count_round stats received shared = record {
    received_clauses = u64 (stats.received_clauses + received);
    shared_clauses = u64 (stats.shared_clauses + shared);
  }

  -- The body from the loop that fills the database on.
  unfoldable pub share_learned :
      List ℕ → ℕ → ℕ → List ClauseExchange → List S → HordeSatSharing → M (List S × HordeSatSharing)
  unfolding add_all share_selection
  share_learned to i from_id learned ss horde = do
    db ← add_all learned horde.database
    (db', sel) ← lift (give_selection db [] horde.literal_per_round)
    share_selection to i from_id sel ss (record horde {
      database = db';
      stats = count_round horde.stats (length learned) sel.select_count;
    })

  -- The body of the loop over the producers.
  unfoldable pub share_one : List ℕ → ℕ → List S → HordeSatSharing → M (List S × HordeSatSharing)
  unfolding share_learned
  share_one to i ss horde = do
    s ← deref ss i
    let (learned, s') = api.get_learned_clauses s
    share_learned to i (api.id s') learned (set ss i s') horde

  unfoldable pub do_sharing :
      List ℕ → List ℕ → List S → HordeSatSharing → M (List S × HordeSatSharing)
  unfolding share_one
  do_sharing [] to ss horde = pure (ss, horde)
  do_sharing (i ∷ from) to ss horde = do
    (ss', horde') ← share_one to i ss horde
    do_sharing from to ss' horde'

  abbrev pub OwnedHorde : ℕ → ℕ → (ℕ → ℕ) → List S × HordeSatSharing → Heap → Type 0
  OwnedHorde n limit f r h =
      (r.1.literal_per_round ≡ limit)
      × IsSorted 0 r.1.database
      × Owned api n (λ a. count_db a r.1.database + f a) r.0 h

  adapt_production-Runs :
      (used limit i n : ℕ) (ss : List S) (h : Heap) (f : ℕ → ℕ)
      → Owned api n f ss h
      → i < n
      → 0 < limit
      → Runs (adapt_production used limit i ss) h (Owned api n f)
  unfolding adapt_production
  adapt_production-Runs used limit i n ss h f o lt pos =
      let (s, e) = deref-some ss i (omega (arith, o.0)) in
      let s' : S = api.increase_clause_production s in
      elim (Bool-cases (limit == 0)) [
        | inl z ↦ absurd (omega (arith, (==_iff limit 0).0 z))
        | inr z ↦ rw z (
            Runs-if (ltb (100 * used / limit) 80)
              (deref ss i >>= λ s. pure (set ss i (api.increase_clause_production s))) (pure ss) h
              (Owned api n f)
              (rw (e, deref)
                (
                  set ss i s',
                  h,
                  refl,
                  (
                    omega (arith, length-set ss i s', o.0),
                    IsAccounted-cong
                        (λ a.
                          omega
                            (arith, count_solvers-set api a ss i s s' e, api.production_held s a))
                        o.1,
                  ),
                ))
              (ss, h, refl, o))
      ]

  module _ (to : List ℕ) (i n limit : ℕ) (f : ℕ → ℕ) (lt : i < n) (all : All (λ j. j < n) to)
      (pos : 0 < limit) (small : limit < 2 ^ 31) where
    share_selection-Runs :
        (from_id : ℕ) (sel : Selection) (ss : List S) (horde : HordeSatSharing) (h : Heap)
        → OwnedHorde n limit (λ a. count a sel.selected + f a) (ss, horde) h
        → Runs (share_selection to i from_id sel ss horde) h (OwnedHorde n limit f)
    unfolding share_selection
    share_selection-Runs from_id sel ss horde h o =
        let held : ℕ → ℕ = λ a. count_db a horde.database + (count a sel.selected + f a) in
        Runs-bind (adapt_production sel.used horde.literal_per_round i ss) _ h (Owned api n held) _
          (adapt_production-Runs sel.used horde.literal_per_round i n ss h held o.2 lt
            (omega (arith, o.0)))
          (λ ss₁ h₁ o₁.
            Runs-bind (deliver api from_id sel.selected to ss₁) _ h₁ (Owned api n held) _
              (deliver-Runs api from_id sel.selected held (λ a. omega arith) to ss₁ h₁ n o₁ all)
              (λ ss₂ h₂ o₂.
                Runs-bind (release_all sel.selected) _ h₂ _ _
                  (release_all-Runs sel.selected h₂
                    (λ a. count_solvers api a ss₂ + (count_db a horde.database + f a)) _ o₂.1
                    (λ a. omega arith))
                  (λ _ h₃ v. ((ss₂, horde), h₃, refl, (o.0, o.1, (o₂.0, v))))))

    share_learned-Runs :
        (from_id : ℕ) (learned : List ClauseExchange) (ss : List S) (horde : HordeSatSharing)
        (h : Heap)
        → OwnedHorde n limit (λ a. count a learned + f a) (ss, horde) h
        → All HasLits learned
        → Runs (share_learned to i from_id learned ss horde) h (OwnedHorde n limit f)
    unfolding share_learned
    share_learned-Runs from_id learned ss horde h o lits =
        let held : ℕ → ℕ = λ a. count_solvers api a ss + f a in
        Runs-bind (add_all learned horde.database) _ h (Kept held) _
          (add_all-Runs learned horde.database h held _ o.2.1 (λ a. omega arith) o.1 lits)
          (λ db h₁ k.
            Runs-bind (lift (give_selection db [] horde.literal_per_round)) _ h₁ (Handed held) _
              (give_selection-Runs db [] horde.literal_per_round h₁ held _ k.1 (λ a. omega arith)
                k.0 tt (omega (arith, o.0)))
              (λ r h₂ g.
                share_selection-Runs from_id r.1 ss
                  (record horde {
                    database = r.0;
                    stats = count_round horde.stats (length learned) r.1.select_count;
                  })
                  h₂ (o.0, g.0, (o.2.0, IsAccounted-cong (λ a. omega arith) g.2))))

    share_one-Runs :
        (ss : List S) (horde : HordeSatSharing) (h : Heap)
        → OwnedHorde n limit f (ss, horde) h
        → Runs (share_one to i ss horde) h (OwnedHorde n limit f)
    unfolding share_one
    share_one-Runs ss horde h o =
        let (s, e) = deref-some ss i (omega (arith, o.2.0)) in
        let s' : S = (api.get_learned_clauses s).1 in
        rw (e, deref)
          (share_learned-Runs (api.id s') (api.get_learned_clauses s).0 (set ss i s') horde h
            (
              o.0,
              o.1,
              (
                omega (arith, length-set ss i s', o.2.0),
                IsAccounted-cong
                    (λ a. omega (arith, count_solvers-set api a ss i s s' e, api.get_held s a))
                    o.2.1,
              ),
            )
            (api.learned_lits s))

  -- A round of HordeSat sharing runs without a fault, on a sorted database and with a positive
  -- number of literals a round: no clause is used after it was freed, no index is out of range.
  -- Afterwards the references are again exactly those of the solvers, the database and the others,
  -- and the database is sorted.
  pub horde_sharing-Runs :
      (from to : List ℕ) (n limit : ℕ) (ss : List S) (horde : HordeSatSharing) (h : Heap)
      (f : ℕ → ℕ)
      → OwnedHorde n limit f (ss, horde) h
      → All (λ i. i < n) from
      → All (λ j. j < n) to
      → 0 < limit
      → limit < 2 ^ 31
      → Runs (do_sharing from to ss horde) h (OwnedHorde n limit f)
  unfolding do_sharing
  horde_sharing-Runs [] to n limit ss horde h f o lt all pos small = ((ss, horde), h, refl, o)
  horde_sharing-Runs (i ∷ from) to n limit ss horde h f o lt all pos small =
      Runs-bind (share_one to i ss horde) _ h _ _
        (share_one-Runs to i n limit f lt.0 all pos small ss horde h o)
        (λ r h' o'. horde_sharing-Runs from to n limit r.0 r.1 h' f o' lt.1 all pos small)
