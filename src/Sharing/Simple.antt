-- ===== src/Sharing/Simple.antt =====
-- sharing/SimpleSharing.cpp: every learned clause goes to every other solver.
use dpainless.Prelude.{
  ℕ, ◌+◌, ◌<◌, ◌≡◌, refl, List, [], ◌∷◌, some, arith, length, length-set, get_elem?, set, All,
}
use dpainless.Clauses.Exchange.{ClauseExchange, Heap, M, pure, ◌>>=◌, ◌>>◌, release_all}
use dpainless.Clauses.Exchange.Accounts.{
  count, IsAccounted, IsAccounted-cong, Runs, Runs-eq, Runs-bind, release_all-Runs,
}
use dpainless.Clauses.Database.{u64}
use dpainless.Sharing.Interface.{
  SolverInterface, SharingStatistics, deref, count_solvers, count_solvers-set, deref-some,
}
use dpainless.Sharing.Deliver.{deliver, deliver-Runs, Owned}

module _ {S : Type 0} (api : SolverInterface S) where
  -- The statistics after one producer.
  abbrev pub add_stats : SharingStatistics → ℕ → SharingStatistics
  add_stats stats n = record {
    received_clauses = u64 (stats.received_clauses + n);
    shared_clauses = u64 (stats.shared_clauses + n);
  }

  -- The body of the loop over the producers.
  unfoldable pub share_one :
      List ℕ → ℕ → List S → SharingStatistics → M (List S × SharingStatistics)
  share_one to i ss stats = do
    s ← deref ss i
    let (tmp, s') = api.get_learned_clauses s
    ss' ← deliver api (api.id s') tmp to (set ss i s')
    release_all tmp
    pure (ss', add_stats stats (length tmp))

  unfoldable pub do_sharing :
      List ℕ → List ℕ → List S → SharingStatistics → M (List S × SharingStatistics)
  unfolding share_one
  do_sharing [] to ss stats = pure (ss, stats)
  do_sharing (i ∷ from) to ss stats = do
    (ss', stats') ← share_one to i ss stats
    do_sharing from to ss' stats'

  share_one-eq :
      (to : List ℕ) (i : ℕ) (ss : List S) (stats : SharingStatistics) (h : Heap) (s : S)
      → get_elem? ss i ≡ some s
      → share_one to i ss stats h
        ≡ (deliver api
                (api.id (api.get_learned_clauses s).1)
                (api.get_learned_clauses s).0
                to
                (set ss i (api.get_learned_clauses s).1)
              >>= λ ss'.
                  release_all (api.get_learned_clauses s).0
                  >> pure (ss', add_stats stats (length (api.get_learned_clauses s).0)))
            h
  unfolding share_one
  share_one-eq to i ss stats h s e = rw (e, deref)

  share_one-Runs :
      (to : List ℕ) (i n : ℕ) (ss : List S) (stats : SharingStatistics) (h : Heap) (f : ℕ → ℕ)
      → Owned api n f ss h
      → i < n
      → All (λ j. j < n) to
      → Runs (share_one to i ss stats) h (λ r h'. Owned api n f r.0 h')
  share_one-Runs to i n ss stats h f o lt all =
      let (s, e) = deref-some ss i (omega (arith, o.0)) in
      let tmp : List ClauseExchange = (api.get_learned_clauses s).0 in
      let s' : S = (api.get_learned_clauses s).1 in
      Runs-eq (share_one to i ss stats) h _ (share_one-eq to i ss stats h s e) (
        Runs-bind (deliver api (api.id s') tmp to (set ss i s')) _ h
          (Owned api n (λ a. count a tmp + f a)) _
          (deliver-Runs api (api.id s') tmp (λ a. count a tmp + f a) (λ a. omega arith) to
            (set ss i s') h n
            (
              omega (arith, length-set ss i s', o.0),
              IsAccounted-cong
                  (λ a. omega (arith, count_solvers-set api a ss i s s' e, api.get_held s a)) o.1,
            )
            all)
          (λ ss' h' o'.
            Runs-bind (release_all tmp) _ h'
              (λ _ h''. IsAccounted h'' (λ a. count_solvers api a ss' + f a)) _
              (release_all-Runs tmp h' _ _ o'.1 (λ a. omega arith))
              (λ _ h'' v. ((ss', add_stats stats (length tmp)), h'', refl, (o'.0, v)))))

  -- A round of all-to-all sharing runs without a fault: no clause is used after it was freed. When
  -- it is over the references are again exactly those that the solvers and the others own, so no
  -- clause leaks either, whatever the solvers learned and whichever vectors share solvers.
  pub simple_sharing-Runs :
      (from to : List ℕ) (n : ℕ) (ss : List S) (stats : SharingStatistics) (h : Heap) (f : ℕ → ℕ)
      → Owned api n f ss h
      → All (λ i. i < n) from
      → All (λ j. j < n) to
      → Runs (do_sharing from to ss stats) h (λ r h'. Owned api n f r.0 h')
  unfolding do_sharing
  simple_sharing-Runs [] to n ss stats h f o lt all = ((ss, stats), h, refl, o)
  simple_sharing-Runs (i ∷ from) to n ss stats h f o lt all =
      Runs-bind (share_one to i ss stats) _ h _ _ (share_one-Runs to i n ss stats h f o lt.0 all)
        (λ r h' o'. simple_sharing-Runs from to n r.0 r.1 h' f o' lt.1 all)
