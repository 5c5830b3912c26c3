-- ===== src/Sharing/Sharer.antt =====
-- sharing/Sharer.cpp, and the reference counts of solvers/SolverInterface.h. A solver is known by
-- its number; the heap of `M` holds the counts of solvers here.
pub mod Removal
pub mod Life
use dpainless.Prelude.{ℕ, ◌+◌, ◌-◌, List, [], ◌∷◌, ◌++◌, Option, none, some, ◌==◌, if◌then◌else◌}
use dpainless.Clauses.Exchange.{Heap, M, pure, ◌>>=◌, ◌>>◌, update}

pub record Sharer : Type 0 where
  pub producers : List ℕ
  pub consumers : List ℕ
  pub add_producers : List ℕ
  pub add_consumers : List ℕ
  pub remove_producers : List ℕ
  pub remove_consumers : List ℕ

unfoldable pub increase : ℕ → M (Unit {0})
increase s h = elim (h.nb_refs s) [
  | none ↦ none
  | some n ↦ some (tt, record h { nb_refs = update h.nb_refs s (some (n + 1)) })
]

-- `delete this` when the last reference is given up.
unfoldable pub release : ℕ → M (Unit {0})
release s h = elim (h.nb_refs s) [
  | none ↦ none
  | some old ↦ some (
    tt,
    record h { nb_refs = update h.nb_refs s (if old - 1 == 0 then none else some (old - 1)) },
  )
]

unfoldable pub add_producer : ℕ → Sharer → M Sharer
unfolding increase
add_producer s shr = increase s >> pure (record shr { add_producers = shr.add_producers ++ s ∷ [] })

unfoldable pub add_consumer : ℕ → Sharer → M Sharer
unfolding increase
add_consumer s shr = increase s >> pure (record shr { add_consumers = shr.add_consumers ++ s ∷ [] })

unfoldable pub remove_producer : ℕ → Sharer → Sharer
remove_producer s shr = record shr { remove_producers = shr.remove_producers ++ s ∷ [] }

unfoldable pub remove_consumer : ℕ → Sharer → Sharer
remove_consumer s shr = record shr { remove_consumers = shr.remove_consumers ++ s ∷ [] }

-- The start of a round: the new solvers join in.
unfoldable pub add_solvers : Sharer → Sharer
add_solvers shr = record shr {
  producers = shr.producers ++ shr.add_producers;
  add_producers = [];
  consumers = shr.consumers ++ shr.add_consumers;
  add_consumers = [];
}

-- The idiom `xs.erase(remove(xs.begin(), xs.end(), s), xs.end())`.
unfoldable pub erase_all : ℕ → List ℕ → List ℕ
erase_all s [] = []
erase_all s (x ∷ xs) = let rest = erase_all s xs in if x == s then rest else x ∷ rest

-- The loop over the solvers to remove.
unfoldable pub erase_each : List ℕ → List ℕ → M (List ℕ)
unfolding erase_all release
erase_each [] xs = pure xs
erase_each (s ∷ ss) xs = do release s; erase_each ss (erase_all s xs)

-- The end of a round.
unfoldable pub remove_solvers : Sharer → M Sharer
unfolding erase_each
remove_solvers shr = do
  producers ← erase_each shr.remove_producers shr.producers
  consumers ← erase_each shr.remove_consumers shr.consumers
  pure (record shr {
    producers = producers;
    remove_producers = [];
    consumers = consumers;
    remove_consumers = [];
  })

-- The loops that increase, or release, each solver of a vector.
unfoldable pub increase_each : List ℕ → M (Unit {0})
unfolding increase
increase_each [] = pure tt
increase_each (s ∷ ss) = do increase s; increase_each ss

unfoldable pub release_each : List ℕ → M (Unit {0})
unfolding release
release_each [] = pure tt
release_each (s ∷ ss) = do release s; release_each ss

-- The constructor.
unfoldable pub new_sharer : List ℕ → List ℕ → M Sharer
unfolding increase_each
new_sharer producers consumers = do
  increase_each producers
  increase_each consumers
  pure (record {
    producers = producers;
    consumers = consumers;
    add_producers = [];
    add_consumers = [];
    remove_producers = [];
    remove_consumers = [];
  })

-- The destructor, once the thread has ended.
unfoldable pub destroy : Sharer → M (Unit {0})
unfolding release_each
destroy shr = release_each shr.remove_producers >> release_each shr.remove_consumers

-- What happens to a sharer: calls of other threads, and the critical sections of its own.
pub data Event : Type 0 where
  adds_producer adds_consumer removes_producer removes_consumer : ℕ → Event
  begins_round ends_round : Event

-- `doSharing` stands between the start and the end of a round; it changes no count of a solver.
unfoldable pub act : Event → Sharer → M Sharer
unfolding add_producer add_consumer remove_producer remove_consumer add_solvers remove_solvers
act (adds_producer s) shr = add_producer s shr
act (adds_consumer s) shr = add_consumer s shr
act (removes_producer s) shr = pure (remove_producer s shr)
act (removes_consumer s) shr = pure (remove_consumer s shr)
act begins_round shr = pure (add_solvers shr)
act ends_round shr = remove_solvers shr
