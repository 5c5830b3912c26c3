-- ===== src/Tests/Sharing.antt =====
-- The theorems on the sharing strategies, at concrete inputs.
use dpainless.Prelude.{◌+◌, ◌-◌, ◌<◌, ◌≡◌, none, some, occurrences, false, refl, [], ◌∷◌, arith}
use dpainless.Clauses.Exchange.{Heap, update}
use dpainless.Sharing.Sharer.Life.{Life, made, acts, Life-Runs}
use dpainless.Sharing.Sharer.{
  Sharer, new_sharer, destroy, act, removes_producer, add_solvers, remove_solvers,
}
use dpainless.Sharing.Sharer.Removal.{OwnedSharer, count_sharer, remove_solvers-dangling}
use dpainless.Clauses.Exchange.Accounts.{Runs, IsAccounted}
use dpainless.Clauses.Filter.{new_filter}
use dpainless.Sharing.Interface.{new_statistics}
use dpainless.Sharing.Deliver.{Owned}
use dpainless.Sharing.Simple
use dpainless.Sharing.Horde
use dpainless.Sharing.Distribution
use dpainless.Sharing.Distribution.Ownership.{OwnedRound}
use dpainless.Sharing.Distribution.Rounds.{distribution_sharing-Runs}
use dpainless.Tests.Values.{
  one_owner, one_clause, one_clause-IsAccounted, test_solver, list_buffer, two_solvers,
}

simple_sharing-Runs_example :
    Runs
      (Simple.do_sharing test_solver (0 ∷ []) (0 ∷ 1 ∷ []) two_solvers new_statistics)
      one_clause
      (λ r h'. Owned test_solver 2 (λ a. 0) r.0 h')
simple_sharing-Runs_example =
    Simple.simple_sharing-Runs test_solver (0 ∷ []) (0 ∷ 1 ∷ []) 2 two_solvers new_statistics
      one_clause (λ a. 0) (refl, one_clause-IsAccounted _ (λ a. ground arith)) (omega arith, tt)
      (omega arith, (omega arith, tt))

abbrev horde : Horde.HordeSatSharing test_solver
horde = record { literal_per_round = 1500; database = []; stats = new_statistics }

horde_sharing-Runs_example :
    Runs
      (Horde.do_sharing test_solver (0 ∷ []) (0 ∷ 1 ∷ []) two_solvers horde)
      one_clause
      (Horde.OwnedHorde test_solver 2 1500 (λ a. 0))
horde_sharing-Runs_example =
    Horde.horde_sharing-Runs test_solver (0 ∷ []) (0 ∷ 1 ∷ []) 2 1500 two_solvers horde one_clause
      (λ a. 0) (refl, tt, (refl, one_clause-IsAccounted _ (λ a. ground arith))) (omega arith, tt)
      (omega arith, (omega arith, tt)) (omega arith) (omega arith)

-- The first round of two solvers, in the first of two processes.
abbrev first_round : Distribution.Round test_solver list_buffer
first_round = record {
  solvers = two_solvers;
  sharing = record {
    literal_per_round = 1500;
    database = [];
    solver_filters = [];
    local_filter = new_filter;
    filters_made = false;
    stats = new_statistics;
  };
  comm = record {
    rank = 0;
    size = 2;
    cls_shr = record { lower = 0; upper = 2 };
    inbox = record { external_filter = new_filter; clauses_to_import = [] };
    clauses_to_export = [];
    export_buf = [];
  };
}

distribution_sharing-Runs_example :
    Runs
      (Distribution.do_sharing test_solver list_buffer (0 ∷ 1 ∷ []) (0 ∷ 1 ∷ []) first_round)
      one_clause
      (OwnedRound test_solver list_buffer 2 1500 (λ a. 0))
distribution_sharing-Runs_example =
    distribution_sharing-Runs test_solver list_buffer (0 ∷ 1 ∷ []) (0 ∷ 1 ∷ []) 2 1500 first_round
      one_clause (λ a. 0) (refl, tt, tt, refl, one_clause-IsAccounted _ (λ a. ground arith))
      (omega arith, (omega arith, tt)) (omega arith, (omega arith, tt)) refl refl (omega arith)

abbrev idle : Sharer
idle = record {
  producers = [];
  consumers = [];
  add_producers = [];
  add_consumers = [];
  remove_producers = [];
  remove_consumers = [];
}

-- A sharer of one solver, which is asked to drop it as a producer.
abbrev one_solver : Sharer
one_solver = record idle { producers = 0 ∷ []; consumers = 0 ∷ [] }

abbrev asked : Sharer
asked = record one_solver { remove_producers = 0 ∷ [] }

abbrev three_references : Heap
three_references = record {
  nb_refs = update (update one_clause.nb_refs 0 (some 2)) 0 (some 3);
  next = 1;
}

asked-Life : Life one_owner (0 ∷ []) (0 ∷ []) one_clause asked three_references
unfolding new_sharer act
asked-Life =
    acts (removes_producer 0) one_solver asked three_references three_references
      (made one_solver three_references refl) tt refl

Life-Runs_example :
    OwnedSharer one_owner asked three_references
    × Runs (destroy asked) three_references (λ _ h'. IsAccounted h' (λ v.
      count_sharer v asked
      - (occurrences v asked.remove_producers + occurrences v asked.remove_consumers)
      + one_owner v))
Life-Runs_example =
    Life-Runs one_owner (0 ∷ []) (0 ∷ []) one_clause asked three_references
      (one_clause-IsAccounted one_owner (λ a. refl)) (λ v h. ground (arith, h)) asked-Life
      (λ v. (omega arith, ground arith)) (λ v. (omega arith, ground arith))

-- Solver 0 was added after the start of the round, and is to leave at its end.
abbrev hasty : Sharer
hasty = record idle { add_producers = 0 ∷ []; remove_producers = 0 ∷ [] }

remove_solvers-dangling_example :
    (shr' : Sharer) × (h' : Heap) × (remove_solvers hasty one_clause ≡ some (shr', h'))
    × (h'.nb_refs 0 ≡ none)
    × (0 < occurrences 0 (add_solvers shr').producers)
remove_solvers-dangling_example = remove_solvers-dangling hasty 0 one_clause refl refl refl refl
