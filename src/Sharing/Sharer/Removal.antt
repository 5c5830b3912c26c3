-- ===== src/Sharing/Sharer/Removal.antt =====
-- The references of a sharer to its solvers.
use dpainless.Prelude.{
  ℕ, ◌+◌, ◌≤◌, ◌<◌, ◌≡◌, refl, List, [], ◌∷◌, ◌++◌, none, some, arith, ◌==◌, if◌then◌else◌,
  occurrences, occurrences-append,
}
use dpainless.Clauses.Exchange.{Heap, ◌>>=◌, update}
use dpainless.Clauses.Exchange.Accounts.{IsAccounted, IsAccounted-cong, Runs, Runs-bind, refs_for}
use dpainless.Sharing.Sharer.{
  Sharer, increase, release, add_producer, add_solvers, erase_all, erase_each, remove_solvers,
}

abbrev pub is_solver : ℕ → ℕ → ℕ
is_solver s v = if v == s then 1 else 0

-- The references that a sharer owns.
abbrev pub count_sharer : ℕ → Sharer → ℕ
count_sharer v shr =
    occurrences v shr.producers
    + occurrences v shr.consumers
    + (occurrences v shr.add_producers + occurrences v shr.add_consumers)

-- With `f` the references of all others.
abbrev pub OwnedSharer : (ℕ → ℕ) → Sharer → Heap → Type 0
OwnedSharer f shr h = IsAccounted h (λ v. count_sharer v shr + f v)

-- Every solver to remove is in the list, which holds none twice.
abbrev pub IsRemovable : List ℕ → List ℕ → Type 0
IsRemovable ss xs = (v : ℕ) → (occurrences v ss ≤ occurrences v xs) × (occurrences v xs ≤ 1)

occurrences-erase_all :
    (v s : ℕ) (xs : List ℕ)
    → occurrences v (erase_all s xs) ≡ (if v == s then 0 else occurrences v xs)
unfolding erase_all
occurrences-erase_all v s [] = ground arith
occurrences-erase_all v s (x ∷ xs) = ground (arith, occurrences-erase_all v s xs)

pub release-Runs :
    (s : ℕ) (h : Heap) (f g : ℕ → ℕ)
    → IsAccounted h g
    → ((v : ℕ) → g v ≡ is_solver s v + f v)
    → Runs (release s) h (λ _ h'. IsAccounted h' f)
unfolding release
release-Runs s h f g a e = (
  tt,
  record h { nb_refs = update h.nb_refs s (refs_for (f s)) },
  ground (arith, a.counted s, e s),
  record {
    counted = λ v. ground (arith, a.counted v, e v);
    fresh = λ v l. ground (arith, a.fresh v l, e v);
  },
)

erase_each-Runs :
    (ss xs : List ℕ) (h : Heap) (f g : ℕ → ℕ)
    → IsAccounted h g
    → ((v : ℕ) → g v ≡ occurrences v xs + f v)
    → IsRemovable ss xs
    → Runs (erase_each ss xs) h (λ ys h'.
      IsAccounted h' (λ v. occurrences v ys + f v)
      × ((v : ℕ) → occurrences v ys + occurrences v ss ≡ occurrences v xs))
unfolding erase_each
erase_each-Runs [] xs h f g a e r = (xs, h, refl, (IsAccounted-cong e a, λ v. omega arith))
erase_each-Runs (s ∷ ss) xs h f g a e r =
    Runs-bind (release s) (λ _. erase_each ss (erase_all s xs)) h _ _
      (release-Runs s h (λ v. occurrences v (erase_all s xs) + f v) g a
        (λ v. ground (arith, e v, r v, occurrences-erase_all v s xs)))
      (λ _ h' a'.
        let (ys, h'', q, (b, c)) =
          erase_each-Runs ss (erase_all s xs) h' f _ a' (λ v. refl)
            (λ v. ground (arith, r v, occurrences-erase_all v s xs)) in
        (ys, h'', q, (b, λ v. ground (arith, r v, c v, occurrences-erase_all v s xs))))

-- At the end of a round in which each solver to remove is a producer, or consumer, and none is one
-- twice: no solver is used after it was deleted. The sharer gives up exactly one reference for
-- each solver that leaves, and holds one for each solver that it keeps.
pub remove_solvers-Runs :
    (shr : Sharer) (h : Heap) (f : ℕ → ℕ)
    → OwnedSharer f shr h
    → IsRemovable shr.remove_producers shr.producers
    → IsRemovable shr.remove_consumers shr.consumers
    → Runs (remove_solvers shr) h (λ shr' h'.
      OwnedSharer f shr' h'
      × ((v : ℕ)
          → count_sharer v shr'
              + (occurrences v shr.remove_producers + occurrences v shr.remove_consumers)
            ≡ count_sharer v shr))
unfolding remove_solvers
remove_solvers-Runs shr h f a p c =
    Runs-bind (erase_each shr.remove_producers shr.producers) _ h _ _
      (erase_each-Runs shr.remove_producers shr.producers h
        (λ v.
          occurrences v shr.consumers
          + (occurrences v shr.add_producers + occurrences v shr.add_consumers)
          + f v)
        _ a (λ v. omega arith) p)
      (λ ps h' k.
        Runs-bind (erase_each shr.remove_consumers shr.consumers) _ h' _ _
          (erase_each-Runs shr.remove_consumers shr.consumers h'
            (λ v.
              occurrences v ps
              + (occurrences v shr.add_producers + occurrences v shr.add_consumers)
              + f v)
            _ k.0 (λ v. omega arith) c)
          (λ cs h'' l. (
            record shr {
              producers = ps;
              remove_producers = [];
              consumers = cs;
              remove_consumers = [];
            },
            h'',
            refl,
            (IsAccounted-cong (λ v. omega arith) l.0, λ v. omega (arith, k.1 v, l.1 v)),
          )))

-- Whoever holds a solver may register it as a producer: the sharer takes a reference of its own.
pub add_producer-Runs :
    (s : ℕ) (shr : Sharer) (h : Heap) (f : ℕ → ℕ)
    → OwnedSharer f shr h
    → 0 < f s
    → Runs (add_producer s shr) h (λ shr' h'. OwnedSharer f (add_solvers shr') h')
unfolding add_producer increase add_solvers
add_producer-Runs s shr h f a held = (
  record shr { add_producers = shr.add_producers ++ s ∷ [] },
  record h { nb_refs = update h.nb_refs s (some (count_sharer s shr + f s + 1)) },
  ground (arith, a.counted s),
  record {
    counted = λ v. ground (
      arith,
      a.counted v,
      occurrences-append v shr.add_producers (s ∷ []),
      occurrences-append v shr.producers (shr.add_producers ++ s ∷ []),
      occurrences-append v shr.consumers shr.add_consumers,
    );
    fresh = λ v l. ground (
      arith,
      a.fresh v l,
      occurrences-append v shr.add_producers (s ∷ []),
      occurrences-append v shr.producers (shr.add_producers ++ s ∷ []),
      occurrences-append v shr.consumers shr.add_consumers,
    );
  },
)

release-last :
    (s : ℕ) (h : Heap)
    → h.nb_refs s ≡ some 1
    → release s h ≡ some (tt, record h { nb_refs = update h.nb_refs s none })
unfolding release
release-last s h e = rw (e, release) refl

erase_each-last :
    (s : ℕ) (xs : List ℕ) (h : Heap)
    → h.nb_refs s ≡ some 1
    → erase_each (s ∷ []) xs h
      ≡ some (erase_all s xs, record h { nb_refs = update h.nb_refs s none })
unfolding erase_each
erase_each-last s xs h e = rw (release-last s h e, ◌>>=◌) refl

-- A solver that is added and removed between the start of a round and its end, and that nobody else
-- holds any more, is deleted, though it still waits to be added to the producers.
pub remove_solvers-dangling :
    (shr : Sharer) (s : ℕ) (h : Heap)
    → h.nb_refs s ≡ some 1
    → shr.add_producers ≡ s ∷ []
    → shr.remove_producers ≡ s ∷ []
    → shr.remove_consumers ≡ []
    → (shr' : Sharer) × (h' : Heap) × (remove_solvers shr h ≡ some (shr', h'))
      × (h'.nb_refs s ≡ none)
      × (0 < occurrences s (add_solvers shr').producers)
unfolding remove_solvers add_solvers
remove_solvers-dangling shr s h e a p c = (
  record shr {
    producers = erase_all s shr.producers;
    remove_producers = [];
    remove_consumers = [];
  },
  record h { nb_refs = update h.nb_refs s none },
  rw (p, ◌>>=◌) (rw (erase_each-last s shr.producers h e, ◌>>=◌) (rw (c, ◌>>=◌, erase_each) refl)),
  ground arith,
  ground (arith, occurrences-append s (erase_all s shr.producers) shr.add_producers),
)
