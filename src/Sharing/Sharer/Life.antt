-- ===== src/Sharing/Sharer/Life.antt =====
-- A sharer from its constructor to its destructor, with the calls of other threads between and within
-- its rounds.
use dpainless.Prelude.{
  ℕ, ◌+◌, ◌-◌, ◌<◌, ◌≡◌, refl, List, [], ◌∷◌, ◌++◌, some, arith, occurrences, occurrences-append,
}
use mathlib.Core.Path.{subst}
use dpainless.Clauses.Exchange.{Heap, M, update}
use dpainless.Clauses.Exchange.Accounts.{IsAccounted, IsAccounted-cong, Runs, Runs-bind}
use dpainless.Sharing.Sharer.{
  Sharer, increase, release, add_producer, add_consumer, remove_producer, remove_consumer,
  add_solvers, increase_each, release_each, new_sharer, destroy, Event, adds_producer,
  adds_consumer, removes_producer, removes_consumer, begins_round, ends_round, act,
}
use dpainless.Sharing.Sharer.Removal.{
  is_solver, count_sharer, OwnedSharer, IsRemovable, release-Runs, remove_solvers-Runs,
}

increase-Runs :
    (s : ℕ) (h : Heap) (f g : ℕ → ℕ)
    → IsAccounted h f
    → 0 < f s
    → ((v : ℕ) → g v ≡ is_solver s v + f v)
    → Runs (increase s) h (λ _ h'. IsAccounted h' g)
unfolding increase
increase-Runs s h f g a held e = (
  tt,
  record h { nb_refs = update h.nb_refs s (some (f s + 1)) },
  ground (arith, a.counted s),
  record {
    counted = λ v. ground (arith, a.counted v, e v);
    fresh = λ v l. ground (arith, a.fresh v l, e v);
  },
)

increase_each-Runs :
    (ss : List ℕ) (h : Heap) (f g : ℕ → ℕ)
    → IsAccounted h f
    → ((v : ℕ) → 0 < occurrences v ss → 0 < f v)
    → ((v : ℕ) → g v ≡ occurrences v ss + f v)
    → Runs (increase_each ss) h (λ _ h'. IsAccounted h' g)
unfolding increase_each
increase_each-Runs [] h f g a held e = (tt, h, refl, IsAccounted-cong (λ v. omega (arith, e v)) a)
increase_each-Runs (s ∷ ss) h f g a held e =
    Runs-bind (increase s) (λ _. increase_each ss) h _ _
      (increase-Runs s h f (λ v. is_solver s v + f v) a (held s (ground arith)) (λ v. refl))
      (λ _ h' b.
        increase_each-Runs ss h' (λ v. is_solver s v + f v) g b
          (λ v i. omega (arith, held v (omega (arith, i)))) (λ v. omega (arith, e v)))

release_each-Runs :
    (ss : List ℕ) (h : Heap) (f g : ℕ → ℕ)
    → IsAccounted h g
    → ((v : ℕ) → g v ≡ occurrences v ss + f v)
    → Runs (release_each ss) h (λ _ h'. IsAccounted h' f)
unfolding release_each
release_each-Runs [] h f g a e = (tt, h, refl, IsAccounted-cong (λ v. omega (arith, e v)) a)
release_each-Runs (s ∷ ss) h f g a e =
    Runs-bind (release s) (λ _. release_each ss) h _ _
      (release-Runs s h (λ v. occurrences v ss + f v) g a (λ v. omega (arith, e v)))
      (λ _ h' b. release_each-Runs ss h' f _ b (λ v. refl))

new_sharer-Runs :
    (producers consumers : List ℕ) (h : Heap) (f : ℕ → ℕ)
    → IsAccounted h f
    → ((v : ℕ) → 0 < occurrences v producers + occurrences v consumers → 0 < f v)
    → Runs (new_sharer producers consumers) h (λ shr h'. OwnedSharer f shr h')
unfolding new_sharer
new_sharer-Runs producers consumers h f a held =
    Runs-bind (increase_each producers) _ h _ _
      (increase_each-Runs producers h f (λ v. occurrences v producers + f v) a
        (λ v i. held v (omega (arith, i))) (λ v. refl))
      (λ _ h' b.
        Runs-bind (increase_each consumers) _ h' _ _
          (increase_each-Runs consumers h' (λ v. occurrences v producers + f v)
            (λ v. occurrences v consumers + (occurrences v producers + f v)) b
            (λ v i. omega (arith, held v (omega (arith, i)))) (λ v. refl))
          (λ _ h'' c. (
            record {
              producers = producers;
              consumers = consumers;
              add_producers = [];
              add_consumers = [];
              remove_producers = [];
              remove_consumers = [];
            },
            h'',
            refl,
            IsAccounted-cong (λ v. omega arith) c,
          )))

-- What the events need: whoever adds a solver holds it, and at the end of a round a solver to remove is
-- in the list once.
abbrev pub IsAllowed : (ℕ → ℕ) → Event → Sharer → Type 0
IsAllowed f (adds_producer s) shr = 0 < f s
IsAllowed f (adds_consumer s) shr = 0 < f s
IsAllowed f (removes_producer s) shr = Unit
IsAllowed f (removes_consumer s) shr = Unit
IsAllowed f begins_round shr = Unit
IsAllowed f ends_round shr =
    IsRemovable shr.remove_producers shr.producers × IsRemovable shr.remove_consumers shr.consumers

act-Runs :
    (e : Event) (shr : Sharer) (h : Heap) (f : ℕ → ℕ)
    → OwnedSharer f shr h
    → IsAllowed f e shr
    → Runs (act e shr) h (λ shr' h'. OwnedSharer f shr' h')
unfolding act add_producer add_consumer remove_producer remove_consumer add_solvers
act-Runs (adds_producer s) shr h f a held =
    Runs-bind (increase s) _ h _ _
      (increase-Runs s h _ (λ v. is_solver s v + (count_sharer v shr + f v)) a (omega (arith, held))
        (λ v. refl))
      (λ _ h' b. (
        record shr { add_producers = shr.add_producers ++ s ∷ [] },
        h',
        refl,
        IsAccounted-cong (λ v. omega (arith, occurrences-append v shr.add_producers (s ∷ []))) b,
      ))
act-Runs (adds_consumer s) shr h f a held =
    Runs-bind (increase s) _ h _ _
      (increase-Runs s h _ (λ v. is_solver s v + (count_sharer v shr + f v)) a (omega (arith, held))
        (λ v. refl))
      (λ _ h' b. (
        record shr { add_consumers = shr.add_consumers ++ s ∷ [] },
        h',
        refl,
        IsAccounted-cong (λ v. omega (arith, occurrences-append v shr.add_consumers (s ∷ []))) b,
      ))
act-Runs (removes_producer s) shr h f a _ = (remove_producer s shr, h, refl, a)
act-Runs (removes_consumer s) shr h f a _ = (remove_consumer s shr, h, refl, a)
act-Runs begins_round shr h f a _ = (
  add_solvers shr,
  h,
  refl,
  IsAccounted-cong
      (λ v. omega (
        arith,
        occurrences-append v shr.producers shr.add_producers,
        occurrences-append v shr.consumers shr.add_consumers,
      ))
      a,
)
act-Runs ends_round shr h f a (p, c) =
    let (shr', h', e, (b, _)) = remove_solvers-Runs shr h f a p c in (shr', h', e, b)

-- What a computation that runs returns.
Runs-result :
    {A : Type 0} (m : M A) (h : Heap) (P : A → Heap → Type 0) (a : A) (h' : Heap)
    → Runs m h P
    → m h ≡ some (a, h')
    → P a h'
Runs-result {A} m h P a h' (b, h'', e, p) e' =
    let same : ◌≡◌ {A = A × Heap} (b, h'') (a, h') = cc (e, e') in subst (λ r. P r.0 r.1) same p

module _ (f : ℕ → ℕ) (producers consumers : List ℕ) (h₀ : Heap) where
  -- The sharers, with the counts of the solvers, that events lead to.
  pub data Life : Sharer → Heap → Type 0 where
    made :
        (shr : Sharer) (h : Heap) → new_sharer producers consumers h₀ ≡ some (shr, h) → Life shr h
    acts :
        (e : Event) (shr shr' : Sharer) (h h' : Heap)
        → Life shr h
        → IsAllowed f e shr
        → act e shr h ≡ some (shr', h')
        → Life shr' h'

  Life-OwnedSharer :
      (shr : Sharer) (h : Heap)
      → IsAccounted h₀ f
      → ((v : ℕ) → 0 < occurrences v producers + occurrences v consumers → 0 < f v)
      → Life shr h
      → OwnedSharer f shr h
  Life-OwnedSharer shr h a held (made _ _ e) =
      Runs-result (new_sharer producers consumers) h₀ (λ s k. OwnedSharer f s k) shr h
        (new_sharer-Runs producers consumers h₀ f a held) e
  Life-OwnedSharer shr h a held (acts ev s _ k _ l i e) =
      Runs-result (act ev s) k (λ s' k'. OwnedSharer f s' k') shr h
        (act-Runs ev s k f (Life-OwnedSharer s k a held l) i) e

  -- A sharer of solvers that others hold and keep, after its constructor and any events in any order in which
  -- whoever adds a solver holds it, and a round ends with solvers to remove that are in the list once,
  -- has exactly one reference for each place of a solver in its lists, and no solver that it lists is
  -- deleted. If the solvers that wait to be removed are in the lists once, the destructor gives up their
  -- references, and only theirs: those to all other solvers of the sharer are never given up.
  pub Life-Runs :
      (shr : Sharer) (h : Heap)
      → IsAccounted h₀ f
      → ((v : ℕ) → 0 < occurrences v producers + occurrences v consumers → 0 < f v)
      → Life shr h
      → IsRemovable shr.remove_producers shr.producers
      → IsRemovable shr.remove_consumers shr.consumers
      → OwnedSharer f shr h
        × Runs (destroy shr) h (λ _ h'. IsAccounted h' (λ v.
          count_sharer v shr
          - (occurrences v shr.remove_producers + occurrences v shr.remove_consumers)
          + f v))
  unfolding destroy
  Life-Runs shr h a held l p c =
      let owned = Life-OwnedSharer shr h a held l in
      let left : ℕ → ℕ = λ v.
        count_sharer v shr
        - (occurrences v shr.remove_producers + occurrences v shr.remove_consumers)
        + f v in
      (
        owned,
        Runs-bind (release_each shr.remove_producers) (λ _. release_each shr.remove_consumers) h _ _
            (release_each-Runs shr.remove_producers h
              (λ v. occurrences v shr.remove_consumers + left v) _ owned
              (λ v. omega (arith, p v, c v)))
            (λ _ h' b. release_each-Runs shr.remove_consumers h' left _ b (λ v. refl)),
      )
