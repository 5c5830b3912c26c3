-- ===== src/Sharing/Distribution/Ownership.antt =====
-- The references of the solvers, the databases and the process in the parts of a round.
use dpainless.Prelude.{
  ℕ, zero, suc, ◌+◌, ◌<◌, ◌≤◌, ◌≡◌, refl, List, [], ◌∷◌, length, length-set, set, All, arith,
}
use dpainless.Clauses.Exchange.{
  ClauseExchange, Heap, pure, ◌>>=◌, ◌>>◌, release_clause, release_all, increase_all,
}
use dpainless.Clauses.Exchange.Accounts.{
  count, one_at, IsAccounted, IsAccounted-cong, Runs, Runs-if, Runs-bind, release_clause-Runs,
  release_all-Runs, increase_all-Runs, HasLits,
}
use dpainless.Clauses.Database.{Selection, add_clause}
use dpainless.Clauses.Database.Bounds.{IsSorted, count_db}
use dpainless.Clauses.Database.Ownership.{add_clause-Runs, Kept}
use dpainless.Clauses.Filter.{ClauseFilter, register_clause}
use dpainless.Clauses.Buffer.{BufferApi}
use dpainless.Comm.Process.{MpiComm, add_clauses_to_external, get_clauses_from_external}
use dpainless.Comm.Process.Ownership.{
  count_comm, OwnedComm, add_clauses_to_external-Runs, get_clauses_from_external-count,
}
use dpainless.Sharing.Interface.{
  SolverInterface, deref, count_solvers, count_solvers-set, deref-some,
}
use dpainless.Sharing.Distribution.{
  Intake, keep_if_new, keep_one, keep_all, offer, choose, fresh_filters, hand_out, Round,
  share_selection,
}

-- The database of an intake is sorted, and accounted for with `f` the references of the others.
abbrev pub Taken : (ℕ → ℕ) → Intake → Heap → Type 0
Taken f t h = Kept f t.kept h

module _ (c : ClauseExchange) (f g : ℕ → ℕ) (lits : HasLits c) where
  keep_if_new-Runs :
      (t : Intake) (h : Heap)
      → IsAccounted h g
      → ((a : ℕ) → g a ≡ one_at c a + (count_db a t.kept + f a))
      → IsSorted 0 t.kept
      → Runs (keep_if_new c t) h (Taken f)
  unfolding keep_if_new
  keep_if_new-Runs t h v e s =
      let filter : ClauseFilter = (register_clause t.shared c.lits).1 in
      Runs-if (register_clause t.shared c.lits).0
        (add_clause t.kept c >>= λ db. pure (record t { shared = filter; kept = db }))
        (release_clause c >> pure (record t { shared = filter })) h (Taken f)
        (Runs-bind (add_clause t.kept c) _ h _ _
          (add_clause-Runs t.kept c h f g v e s lits.0 lits.1)
          (λ db h' k. (record t { shared = filter; kept = db }, h', refl, k)))
        (Runs-bind (release_clause c) _ h _ _
          (release_clause-Runs c h (λ a. count_db a t.kept + f a) g v e)
          (λ _ h' v'. (record t { shared = filter }, h', refl, (s, v'))))

  keep_one-Runs :
      (t : Intake) (h : Heap)
      → IsAccounted h g
      → ((a : ℕ) → g a ≡ one_at c a + (count_db a t.kept + f a))
      → IsSorted 0 t.kept
      → Runs (keep_one c t) h (Taken f)
  unfolding keep_one
  keep_one-Runs t h v e s =
      let filter : ClauseFilter = (register_clause t.own c.lits).1 in
      Runs-if (register_clause t.own c.lits).0 (keep_if_new c (record t { own = filter }))
        (release_clause c >> pure (record t { own = filter })) h (Taken f)
        (keep_if_new-Runs (record t { own = filter }) h v e s)
        (Runs-bind (release_clause c) _ h _ _
          (release_clause-Runs c h (λ a. count_db a t.kept + f a) g v e)
          (λ _ h' v'. (record t { own = filter }, h', refl, (s, v'))))

pub keep_all-Runs :
    (cs : List ClauseExchange) (t : Intake) (h : Heap) (f g : ℕ → ℕ)
    → IsAccounted h g
    → ((a : ℕ) → g a ≡ count a cs + (count_db a t.kept + f a))
    → IsSorted 0 t.kept
    → All HasLits cs
    → Runs (keep_all cs t) h (Taken f)
unfolding keep_all
keep_all-Runs [] t h f g v e s lits =
    (t, h, refl, (s, IsAccounted-cong (λ a. omega (arith, e a)) v))
keep_all-Runs (c ∷ cs) t h f g v e s lits =
    Runs-bind (keep_one c t) (keep_all cs) h _ _
      (keep_one-Runs c (λ a. count a cs + f a) g lits.0 t h v (λ a. omega (arith, e a)) s)
      (λ t' h' k. keep_all-Runs cs t' h' f _ k.1 (λ a. omega arith) k.0 lits.1)

-- A clause is chosen at most as often as it is offered.
count-choose :
    (i : ℕ) (cs : List ClauseExchange) (filter : ClauseFilter) (a : ℕ)
    → count a (choose i cs filter).0 ≤ count a cs
unfolding choose
count-choose i [] filter a = omega arith
count-choose i (c ∷ cs) filter a = ground (arith, count-choose i cs (offer i c filter).1 a)

pub length-fresh_filters : (n : ℕ) → length (fresh_filters n) ≡ n
unfolding fresh_filters
length-fresh_filters zero = refl
length-fresh_filters (suc n) = omega (arith, length-fresh_filters n)

module _ {S B : Type 0} (api : SolverInterface S) (buf : BufferApi B) where
  -- The solvers stay `n`, and own references besides `f`.
  abbrev Owned : ℕ → (ℕ → ℕ) → List S → Heap → Type 0
  Owned n f ss h = (length ss ≡ n) × IsAccounted h (λ a. count_solvers api a ss + f a)

  hand_out-Runs :
      (i n : ℕ) (to : List ℕ) (tmp : List ClauseExchange) (ss : List S)
      (filters : List ClauseFilter) (h : Heap) (f : ℕ → ℕ)
      → Owned n f ss h
      → ((a : ℕ) → count a tmp ≤ f a)
      → All (λ j. j < n) to
      → i + length to ≤ length filters
      → Runs
          (hand_out api buf i to tmp ss filters)
          h
          (λ r h'. Owned n f r.0 h' × (length r.1 ≡ length filters))
  unfolding hand_out
  hand_out-Runs i n [] tmp ss filters h f o held lt room = ((ss, filters), h, refl, (o, refl))
  hand_out-Runs i n (p ∷ to) tmp ss filters h f o held lt room =
      let (t, e) = deref-some ss p (omega (arith, o.0)) in
      let (filter, k) = deref-some filters i (omega arith) in
      let chosen : List ClauseExchange = (choose i tmp filter).0 in
      let filter' : ClauseFilter = (choose i tmp filter).1 in
      let t' : S = api.add_learned_clauses t chosen in
      rw (e, deref)
        (rw (k, deref)
          (Runs-bind (increase_all chosen)
            (λ _. hand_out api buf (i + 1) to tmp (set ss p t') (set filters i filter')) h
            (λ _ h'. IsAccounted h' (λ a. count a chosen + (count_solvers api a ss + f a))) _
            (increase_all-Runs chosen h _ _ o.1
              (λ a. omega (arith, held a, count-choose i tmp filter a)) (λ a. refl))
            (λ _ h' v.
              let (r, h'', eq, q) =
                hand_out-Runs (i + 1) n to tmp (set ss p t') (set filters i filter') h' f
                  (
                    omega (arith, length-set ss p t', o.0),
                    IsAccounted-cong
                        (λ a.
                          omega
                            (arith, count_solvers-set api a ss p t t' e, api.add_held t chosen a))
                        v,
                  )
                  held lt.1 (omega (arith, length-set filters i filter')) in
              (r, h'', eq, (q.0, omega (arith, q.1, length-set filters i filter'))))))

  -- The references of a round: those of the solvers, the database, the process, and the others.
  abbrev pub OwnedRound : ℕ → ℕ → (ℕ → ℕ) → Round api buf → Heap → Type 0
  OwnedRound n limit f r h =
      (r.sharing.literal_per_round ≡ limit)
      × IsSorted 0 r.sharing.database
      × IsSorted 0 r.comm.clauses_to_export
      × (length r.solvers ≡ n)
      × IsAccounted h (λ a.
        count_solvers api a r.solvers
        + (count_db a r.sharing.database + (count_comm buf a r.comm + f a)))

  pub share_selection-Runs :
      (n limit : ℕ) (to : List ℕ) (sel : Selection) (r : Round api buf) (h : Heap) (f : ℕ → ℕ)
      → OwnedRound n limit (λ a. count a sel.selected + f a) r h
      → All HasLits sel.selected
      → All (λ j. j < n) to
      → length to ≤ length r.sharing.solver_filters
      → Runs (share_selection api buf to sel r) h (OwnedRound n limit f)
  unfolding share_selection get_clauses_from_external
  share_selection-Runs n limit to sel r h f o lits lt room =
      let others : ℕ → ℕ = λ a.
        count_solvers api a r.solvers
        + (count_db a r.sharing.database + (count a sel.selected + f a)) in
      Runs-bind (add_clauses_to_external buf sel.selected r.comm) _ h (OwnedComm buf others) _
        (add_clauses_to_external-Runs buf sel.selected others r.comm h
          (o.2, IsAccounted-cong (λ a. omega arith) o.4) (λ a. omega arith) lits)
        (λ comm h₁ o₁.
          let tmp : List ClauseExchange = (get_clauses_from_external buf sel.selected comm).0 in
          let comm' : MpiComm buf = (get_clauses_from_external buf sel.selected comm).1 in
          let held : ℕ → ℕ =
            λ a. count_db a r.sharing.database + (count_comm buf a comm' + (count a tmp + f a)) in
          Runs-bind (hand_out api buf 0 to tmp r.solvers r.sharing.solver_filters) _ h₁ _ _
            (hand_out-Runs 0 n to tmp r.solvers r.sharing.solver_filters h₁ held
              (
                o.3,
                IsAccounted-cong
                    (λ a. omega (arith, get_clauses_from_external-count buf sel.selected comm a))
                    o₁.1,
              )
              (λ a. omega arith) lt (omega arith))
            (λ q h₂ o₂.
              Runs-bind (release_all tmp) _ h₂ _ _
                (release_all-Runs tmp h₂
                  (λ a.
                    count_solvers api a q.0
                    + (count_db a r.sharing.database + (count_comm buf a comm' + f a)))
                  _ o₂.0.1 (λ a. omega arith))
                (λ _ h₃ v. (
                  record {
                    solvers = q.0;
                    sharing = record r.sharing { solver_filters = q.1 };
                    comm = comm';
                  },
                  h₃,
                  refl,
                  (o.0, o.1, o₁.0, o₂.0.0, v),
                ))))
