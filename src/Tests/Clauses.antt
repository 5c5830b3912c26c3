-- ===== src/Tests/Clauses.antt =====
-- The theorems on clauses and their containers, at concrete inputs.
use mathlib.Core.List.{Permᴰ}
use dpainless.Prelude.{◌≡◌, refl, List, [], ◌∷◌, ◌++◌, Option, some, pos, negsuc, arith}
use dpainless.Clauses.Exchange.{ClauseExchange}
use dpainless.Clauses.Exchange.Accounts.{Runs}
use dpainless.Clauses.Database.{ClauseDatabase, Selection, add_clause, give_selection}
use dpainless.Clauses.Database.Bounds.{IsSorted}
use dpainless.Clauses.Database.Ownership.{Kept, add_clause-Runs}
use dpainless.Clauses.Database.Greedy.{IsOutcome, give_selection-Outcome}
use dpainless.Clauses.Buffer.Queue.{ClauseBuffer}
use dpainless.Clauses.Buffer.Chain.{clauses}
use dpainless.Clauses.Buffer.Shared.{
  System, start, Action, add, get, producing, consuming, run, IsQueue,
}
use dpainless.Clauses.Buffer.Shared.Safety.{run-IsQueue}
use dpainless.Clauses.Buffer.Alone.{get_clause, get_clauses, get_wanted}
use dpainless.Clauses.Buffer.Alone
use dpainless.Clauses.Buffer.Alone.Taken.{
  IsAlone, takes, leaves, Frees, KeepsSize, get_wanted-IsAlone,
}
use dpainless.Clauses.Buffer.Alone.Api.{Idle, clause_queue, handed, clause_queue-refines}
use dpainless.Clauses.Filter.{new_filter, commutative_hash}
use dpainless.Clauses.Filter.Hash.{commutative_hash-perm}
use dpainless.Clauses.Filter.Laws.{after, after_all, Refused, offered-Refused}
use dpainless.Tests.Values.{pair, one_clause, one_owner, one_clause-IsAccounted}

add_clause-Runs_example : Runs (add_clause [] pair) one_clause (Kept (λ a. 0))
add_clause-Runs_example =
    add_clause-Runs [] pair one_clause (λ a. 0) one_owner
      (one_clause-IsAccounted one_owner (λ a. refl)) (λ a. ground arith) tt (omega arith)
      (omega arith)

-- No unit clause, and one clause of size 2.
abbrev pair_db : ClauseDatabase
pair_db = [] ∷ (pair ∷ []) ∷ []

pair_db-IsSorted : IsSorted 0 pair_db
pair_db-IsSorted = ground arith

give_selection-Outcome_example :
    (db' : ClauseDatabase) × (sel : Selection) × (give_selection pair_db [] 3 ≡ some (db', sel))
    × IsOutcome 0 3 pair_db (record { selected = []; used = 0; select_count = 0 }) db' sel
give_selection-Outcome_example = give_selection-Outcome pair_db [] 3 pair_db-IsSorted (omega arith)

abbrev swapped : Permᴰ (pos 5 ∷ negsuc 2 ∷ []) (negsuc 2 ∷ pos 5 ∷ [])
swapped = Permᴰ.swap refl refl

commutative_hash-perm_example :
    commutative_hash 3 (pos 1 ∷ pos 5 ∷ negsuc 2 ∷ [])
    ≡ commutative_hash 3 (pos 9 ∷ negsuc 2 ∷ pos 5 ∷ [])
commutative_hash-perm_example =
    commutative_hash-perm 3 (pos 1) (pos 9) (pos 5 ∷ negsuc 2 ∷ []) (negsuc 2 ∷ pos 5 ∷ []) swapped

offered-Refused_example :
    Refused
      (after_all (after new_filter (pos 1 ∷ pos 2 ∷ [])) ((pos 3 ∷ []) ∷ []))
      (pos 1 ∷ pos 2 ∷ [])
offered-Refused_example = offered-Refused new_filter (pos 1 ∷ pos 2 ∷ []) ((pos 3 ∷ []) ∷ [])

-- One thread adds two clauses while another takes them out.
abbrev interleaved : List Action
interleaved =
    add 1 pair
    ∷ get
    ∷ producing
    ∷ consuming
    ∷ producing
    ∷ consuming
    ∷ producing
    ∷ producing
    ∷ consuming
    ∷ consuming
    ∷ producing
    ∷ consuming
    ∷ producing
    ∷ consuming
    ∷ add 2 pair
    ∷ consuming
    ∷ producing
    ∷ consuming
    ∷ []

run-IsQueue_example : (s : System) × (run interleaved (start 0) ≡ some s) × IsQueue s
run-IsQueue_example = run-IsQueue 0 interleaved

-- A buffer of one clause.
abbrev idle : Idle
idle = clause_queue.add_clause clause_queue.empty pair

clause_queue-refines_example :
    (Alone.add_clause idle.fresh pair idle.buffer ≡ some (clause_queue.add_clause idle pair).buffer)
    × (get_clause idle.buffer
        ≡ some (handed (clause_queue.get_clause idle).0, (clause_queue.get_clause idle).1.buffer))
    × (get_clauses idle.buffer
        ≡ some (clauses idle.cells, (clause_queue.get_clauses idle).1.buffer))
    × (clauses (clause_queue.add_clause idle pair).cells ≡ clauses idle.cells ++ some pair ∷ [])
    × ((clause_queue.get_clauses idle).1.cells ≡ [])
clause_queue-refines_example = clause_queue-refines idle pair

-- `size` was 0 when it was read, and a clause was added since: it is dropped.
get_wanted-IsAlone_example :
    (b' : ClauseBuffer) × (j : Option ClauseExchange) × (get_wanted 0 idle.buffer
      ≡ some (clauses (takes 0 idle.cells), b'))
    × IsAlone b' j (leaves 0 idle.cells)
    × Frees idle.buffer b'
    × KeepsSize idle.buffer idle.cells b' (leaves 0 idle.cells)
get_wanted-IsAlone_example = get_wanted-IsAlone 0 idle.buffer idle.dummy idle.cells idle.alone
