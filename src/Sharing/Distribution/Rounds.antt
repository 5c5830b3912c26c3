-- ===== src/Sharing/Distribution/Rounds.antt =====
-- A whole round of distributed sharing.
use dpainless.Prelude.{
  ℕ, ◌+◌, ◌^◌, ◌<◌, ◌≤◌, ◌≡◌, ◌∙◌, refl, List, [], ◌∷◌, length, length-set, length-append, set,
  ==_iff, if◌then◌else◌, All, arith,
}
use dpainless.Clauses.Exchange.{ClauseExchange, Heap, lift}
use dpainless.Clauses.Exchange.Accounts.{
  count, IsAccounted, IsAccounted-cong, Runs, Runs-bind, HasLits,
}
use dpainless.Clauses.Database.{give_selection}
use dpainless.Clauses.Database.Bounds.{IsSorted, count_db}
use dpainless.Clauses.Database.Ownership.{Kept}
use dpainless.Clauses.Database.Give.{Handed, give_selection-Runs}
use dpainless.Clauses.Buffer.{BufferApi}
use dpainless.Comm.Process.{MpiComm}
use dpainless.Comm.Process.Ownership.{count_comm}
use dpainless.Sharing.Interface.{
  SolverInterface, deref, count_solvers, count_solvers-set, deref-some,
}
use dpainless.Sharing.Distribution.{
  DistributionSharing, keep_all, make_filters, fresh_filters, collect_one, collect, Round,
  share_collected, do_sharing,
}
use dpainless.Sharing.Distribution.Ownership.{
  Taken, keep_all-Runs, length-fresh_filters, OwnedRound, share_selection-Runs,
}

make_filters-Ready :
    (n : ℕ) (dist : DistributionSharing)
    → length dist.solver_filters ≡ (if dist.filters_made then n else 0)
    → length (make_filters n dist).solver_filters ≡ n
unfolding make_filters
make_filters-Ready n dist h =
    ground (arith, length-append dist.solver_filters (fresh_filters n), length-fresh_filters n)

make_filters-same :
    (n : ℕ) (dist : DistributionSharing)
    → ((make_filters n dist).database ≡ dist.database)
      × ((make_filters n dist).literal_per_round ≡ dist.literal_per_round)
unfolding make_filters
make_filters-same n dist = ground arith

module _ {S B : Type 0} (api : SolverInterface S) (buf : BufferApi B) where
  -- What collecting keeps: the limit, the number of filters, and the references.
  abbrev pub Collected : ℕ → ℕ → ℕ → (ℕ → ℕ) → List S × DistributionSharing → Heap → Type 0
  Collected n limit m f r h =
      (r.1.literal_per_round ≡ limit)
      × (length r.1.solver_filters ≡ m)
      × IsSorted 0 r.1.database
      × (length r.0 ≡ n)
      × IsAccounted h (λ a. count_solvers api a r.0 + (count_db a r.1.database + f a))

  collect_one-Runs :
      (i limit m : ℕ) (learned : List ClauseExchange) (dist : DistributionSharing) (h : Heap)
      (f g : ℕ → ℕ)
      → IsAccounted h g
      → ((a : ℕ) → g a ≡ count a learned + (count_db a dist.database + f a))
      → IsSorted 0 dist.database
      → All HasLits learned
      → dist.literal_per_round ≡ limit
      → length dist.solver_filters ≡ m
      → i < m
      → Runs (collect_one api buf i learned dist) h (λ d h'.
        (d.literal_per_round ≡ limit) × (length d.solver_filters ≡ m) × Kept f d.database h')
  unfolding collect_one
  collect_one-Runs i limit m learned dist h f g v e s lits l k lt =
      let (own, q) = deref-some dist.solver_filters i (omega arith) in
      rw (q, deref)
        (Runs-bind
          (keep_all learned
            (record { own = own; shared = dist.local_filter; kept = dist.database }))
          _ h (Taken f) _
          (keep_all-Runs learned
            (record { own = own; shared = dist.local_filter; kept = dist.database }) h f g v e s
            lits)
          (λ t h' w. (_, h', refl, (l, omega (arith, length-set dist.solver_filters i t.own), w))))

  collect-Runs :
      (i n limit m : ℕ) (from : List ℕ) (ss : List S) (dist : DistributionSharing) (h : Heap)
      (f : ℕ → ℕ)
      → Collected n limit m f (ss, dist) h
      → All (λ j. j < n) from
      → i + length from ≤ m
      → Runs (collect api buf i from ss dist) h (Collected n limit m f)
  unfolding collect
  collect-Runs i n limit m [] ss dist h f o lt room = ((ss, dist), h, refl, o)
  collect-Runs i n limit m (p ∷ from) ss dist h f o lt room =
      let (s, e) = deref-some ss p (omega (arith, o.3)) in
      let learned : List ClauseExchange = (api.get_learned_clauses s).0 in
      let s' : S = (api.get_learned_clauses s).1 in
      rw (e, deref)
        (Runs-bind (collect_one api buf i learned dist)
          (λ dist'. collect api buf (i + 1) from (set ss p s') dist') h _ _
          (collect_one-Runs i limit m learned dist h (λ a. count_solvers api a (set ss p s') + f a)
            _ o.4 (λ a. omega (arith, count_solvers-set api a ss p s s' e, api.get_held s a)) o.2
            (api.learned_lits s) o.0 o.1 (omega arith))
          (λ dist' h' w.
            collect-Runs (i + 1) n limit m from (set ss p s') dist' h' f
              (
                w.0,
                w.1,
                w.2.0,
                omega (arith, length-set ss p s', o.3),
                IsAccounted-cong (λ a. omega arith) w.2.1,
              )
              lt.1 (omega arith)))

  share_collected-Runs :
      (n limit : ℕ) (to : List ℕ) (ss : List S) (dist : DistributionSharing) (comm : MpiComm buf)
      (h : Heap) (f : ℕ → ℕ)
      → Collected n limit (length to) (λ a. count_comm buf a comm + f a) (ss, dist) h
      → IsSorted 0 comm.clauses_to_export
      → All (λ j. j < n) to
      → limit < 2 ^ 31
      → Runs (share_collected api buf to ss dist comm) h (OwnedRound api buf n limit f)
  unfolding share_collected
  share_collected-Runs n limit to ss dist comm h f o s lt small =
      Runs-bind (lift (give_selection dist.database [] dist.literal_per_round)) _ h
        (Handed (λ a. count_solvers api a ss + (count_comm buf a comm + f a))) _
        (give_selection-Runs dist.database [] dist.literal_per_round h _ _ o.4 (λ a. omega arith)
          o.2 tt (omega (arith, o.0)))
        (λ r h' g.
          share_selection-Runs api buf n limit to r.1 _ h' f
            (o.0, g.0, s, o.3, IsAccounted-cong (λ a. omega arith) g.2) g.1 lt (omega (arith, o.1)))

  -- A round of distributed sharing runs without a fault, if there are as many producers as consumers
  -- and the filters, once made, are as many: its assertions hold, no clause is used after it was
  -- freed, no index is out of range. Afterwards the references are again exactly those of the
  -- solvers, the two databases, the clauses that came in from other processes, and the others.
  pub distribution_sharing-Runs :
      (from to : List ℕ) (n limit : ℕ) (r : Round api buf) (h : Heap) (f : ℕ → ℕ)
      → OwnedRound api buf n limit f r h
      → All (λ i. i < n) from
      → All (λ j. j < n) to
      → length from ≡ length to
      → length r.sharing.solver_filters ≡ (if r.sharing.filters_made then length to else 0)
      → limit < 2 ^ 31
      → Runs (do_sharing api buf from to r) h (OwnedRound api buf n limit f)
  unfolding do_sharing
  distribution_sharing-Runs from to n limit r h f o lt all same ready small =
      let dist : DistributionSharing = make_filters (length to) r.sharing in
      let filters : length dist.solver_filters ≡ length to =
        make_filters-Ready (length to) r.sharing ready in
      let kept = make_filters-same (length to) r.sharing in
      rw ((==_iff (length from) (length to)).1 same) (
        rw ((==_iff (length dist.solver_filters) (length to)).1 filters) (
          Runs-bind (collect api buf 0 from r.solvers dist) _ h _ _
            (collect-Runs 0 n limit (length to) from r.solvers dist h
              (λ a. count_comm buf a r.comm + f a)
              (
                kept.1 ∙ o.0,
                filters,
                rw kept.0 o.1,
                o.3,
                IsAccounted-cong (λ a. rw kept.0 (omega arith)) o.4,
              )
              lt (omega (arith, same)))
            (λ q h' c. share_collected-Runs n limit to q.0 q.1 r.comm h' f c o.2 all small)))
