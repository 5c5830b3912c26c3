-- ===== src/Sharing/Deliver.antt =====
-- The loop over the consumers that `SimpleSharing` and `HordeSatSharing` have in common.
use dpainless.Prelude.{
  ℕ, ◌+◌, ◌<◌, ◌≤◌, ◌≡◌, refl, List, [], ◌∷◌, some, arith, length, length-set, get_elem?, set, All,
  ◌==◌, if◌then◌else◌, Bool-cases, inl, inr, true, false,
}
use dpainless.Clauses.Exchange.{ClauseExchange, Heap, M, pure, ◌>>=◌, ◌>>◌, increase_all}
use dpainless.Clauses.Exchange.Accounts.{
  count, IsAccounted, IsAccounted-cong, Runs, Runs-eq, Runs-bind, increase_all-Runs,
}
use dpainless.Sharing.Interface.{
  SolverInterface, deref, count_solvers, count_solvers-set, deref-some,
}

module _ {S : Type 0} (api : SolverInterface S) where
  -- One consumer: it gets the clauses, with a reference to each, unless it has produced them.
  unfoldable pub deliver_one : ℕ → List ClauseExchange → ℕ → List S → M (List S)
  deliver_one from_id tmp j ss = do
    t ← deref ss j
    if from_id == api.id t
        then pure ss
        else (increase_all tmp >> pure (set ss j (api.add_learned_clauses t tmp)))

  unfoldable pub deliver : ℕ → List ClauseExchange → List ℕ → List S → M (List S)
  unfolding deliver_one
  deliver from_id tmp [] ss = pure ss
  deliver from_id tmp (j ∷ to) ss = do
    ss' ← deliver_one from_id tmp j ss
    deliver from_id tmp to ss'

  -- The references that `ss` and the caller own, as long as the caller holds `tmp`.
  abbrev pub Owned : ℕ → (ℕ → ℕ) → List S → Heap → Type 0
  Owned n f ss h = (length ss ≡ n) × IsAccounted h (λ a. count_solvers api a ss + f a)

  deliver_one-same :
      (from_id : ℕ) (tmp : List ClauseExchange) (j : ℕ) (ss : List S) (h : Heap) (t : S)
      → get_elem? ss j ≡ some t
      → (from_id == api.id t) ≡ true
      → deliver_one from_id tmp j ss h ≡ some (ss, h)
  unfolding deliver_one
  deliver_one-same from_id tmp j ss h t e k = rw (e, deref, k)

  deliver_one-other :
      (from_id : ℕ) (tmp : List ClauseExchange) (j : ℕ) (ss : List S) (h : Heap) (t : S)
      → get_elem? ss j ≡ some t
      → (from_id == api.id t) ≡ false
      → deliver_one from_id tmp j ss h
        ≡ (increase_all tmp >> pure (set ss j (api.add_learned_clauses t tmp))) h
  unfolding deliver_one
  deliver_one-other from_id tmp j ss h t e k = rw (e, deref, k)

  module _ (from_id : ℕ) (tmp : List ClauseExchange) (f : ℕ → ℕ)
      (held : (a : ℕ) → count a tmp ≤ f a) where
    deliver_one-Runs :
        (j : ℕ) (ss : List S) (h : Heap) (n : ℕ)
        → Owned n f ss h
        → j < n
        → Runs (deliver_one from_id tmp j ss) h (Owned n f)
    deliver_one-Runs j ss h n o lt =
        let (t, e) = deref-some ss j (omega (arith, o.0)) in
        elim (Bool-cases (from_id == api.id t)) [
          | inl same ↦ (ss, h, deliver_one-same from_id tmp j ss h t e same, o)
          | inr other ↦
              Runs-eq (deliver_one from_id tmp j ss) h (Owned n f)
                (deliver_one-other from_id tmp j ss h t e other)
                (Runs-bind (increase_all tmp) (λ _. pure (set ss j (api.add_learned_clauses t tmp)))
                  h _ (Owned n f)
                  (increase_all-Runs tmp h _ (λ a. count a tmp + (count_solvers api a ss + f a)) o.1
                    (λ a. omega (arith, held a)) (λ a. refl))
                  (λ _ h' v. (
                    set ss j (api.add_learned_clauses t tmp),
                    h',
                    refl,
                    (
                      omega (arith, length-set ss j (api.add_learned_clauses t tmp), o.0),
                      IsAccounted-cong
                          (λ a. omega (
                            arith,
                            count_solvers-set api a ss j t (api.add_learned_clauses t tmp) e,
                            api.add_held t tmp a,
                          ))
                          v,
                    ),
                  )))
        ]

    -- The loop over the consumers copies references and loses none.
    pub deliver-Runs :
        (to : List ℕ) (ss : List S) (h : Heap) (n : ℕ)
        → Owned n f ss h
        → All (λ j. j < n) to
        → Runs (deliver from_id tmp to ss) h (Owned n f)
    unfolding deliver
    deliver-Runs [] ss h n o lt = (ss, h, refl, o)
    deliver-Runs (j ∷ to) ss h n o lt =
        Runs-bind (deliver_one from_id tmp j ss) (deliver from_id tmp to) h (Owned n f) (Owned n f)
          (deliver_one-Runs j ss h n o lt.0) (λ ss' h' o'. deliver-Runs to ss' h' n o' lt.1)
