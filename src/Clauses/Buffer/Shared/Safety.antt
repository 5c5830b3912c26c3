-- ===== src/Clauses/Buffer/Shared/Safety.antt =====
-- All accesses of both threads, in any order.
use dpainless.Prelude.{◌≡◌, refl, ℕ, List, [], ◌∷◌, none, some, arith}
use dpainless.Clauses.Buffer.Queue.{
  ClauseBuffer, new_buffer, Consumer, not_getting, asking, has_head, saw_tail, saw_next, sure,
  has_clause, popped, deleted, returned_false, returned_true,
}
use dpainless.Clauses.Buffer.Shared.{
  System, start, Action, add, get, producing, consuming, is_ready, act, run, ConsumerInv, doomed_of,
  IsQueue,
}
use dpainless.Clauses.Buffer.Shared.Filled.{produce-IsQueue}
use dpainless.Clauses.Buffer.Shared.Begun.{begin_add-IsQueue}
use dpainless.Clauses.Buffer.Shared.Emptied.{consume-IsQueue}
use dpainless.Clauses.Buffer.Chain.{Cells}

is_ready-Inv :
    (b : ClauseBuffer) (xs : Cells) (q : Consumer)
    → ConsumerInv b xs q
    → ConsumerInv b xs (is_ready q)
is_ready-Inv b xs not_getting i = tt
is_ready-Inv b xs asking i = tt
is_ready-Inv b xs (has_head h) i = i
is_ready-Inv b xs (saw_tail h t) i = i
is_ready-Inv b xs (saw_next h t n) i = i
is_ready-Inv b xs (sure h t n) i = i
is_ready-Inv b xs (has_clause h n c) i = i
is_ready-Inv b xs (popped h c) i = i
is_ready-Inv b xs (deleted c) i = tt
is_ready-Inv b xs returned_false i = tt
is_ready-Inv b xs (returned_true c) i = tt

doomed_of-is_ready : (q : Consumer) → doomed_of (is_ready q) ≡ doomed_of q
doomed_of-is_ready not_getting = refl
doomed_of-is_ready asking = refl
doomed_of-is_ready (has_head h) = refl
doomed_of-is_ready (saw_tail h t) = refl
doomed_of-is_ready (saw_next h t n) = refl
doomed_of-is_ready (sure h t n) = refl
doomed_of-is_ready (has_clause h n c) = refl
doomed_of-is_ready (popped h c) = refl
doomed_of-is_ready (deleted c) = refl
doomed_of-is_ready returned_false = refl
doomed_of-is_ready (returned_true c) = refl

act-IsQueue :
    (a : Action) (s : System) → IsQueue s → (s' : System) × (act a s ≡ some s') × IsQueue s'
unfolding act
act-IsQueue (add a c) s i =
    (_, refl, begin_add-IsQueue s.buffer s.producer s.consumer s.added s.taken a c i)
act-IsQueue get s (k, xs, i) = (
  record s { consumer = is_ready s.consumer },
  refl,
  (
    k,
    xs,
    record {
      links = i.links;
      distinct = i.distinct;
      fifo = i.fifo;
      producing = i.producing;
      consuming = is_ready-Inv s.buffer xs s.consumer i.consuming;
      apart = λ v e. rw (doomed_of-is_ready s.consumer) (i.apart v e);
    },
  ),
)
act-IsQueue producing s i =
    let (r, e, j) = produce-IsQueue s.buffer s.producer s.consumer s.added s.taken i in
    (_, rw (e, act) refl, j)
act-IsQueue consuming s i =
    let (r, e, j) = consume-IsQueue s.buffer s.producer s.consumer s.added s.taken i in
    (_, rw (e, act) refl, j)

start-IsQueue : (a : ℕ) → IsQueue (start a)
unfolding start new_buffer
start-IsQueue a = (
  none,
  [],
  record {
    links = ground arith;
    distinct = λ v. ground arith;
    fifo = refl;
    producing = refl;
    consuming = tt;
    apart = λ v e. ground arith;
  },
)

actions-IsQueue :
    (actions : List Action) (s : System)
    → IsQueue s
    → (s' : System) × (run actions s ≡ some s') × IsQueue s'
unfolding run
actions-IsQueue [] s i = (s, refl, i)
actions-IsQueue (a ∷ rest) s i =
    let (t, e, j) = act-IsQueue a s i in
    let (u, f, l) = actions-IsQueue rest t j in (u, rw (e, run) f, l)

-- One thread adds clauses to a buffer and one gets them, and their accesses to memory interleave in
-- any way: no element is used or deleted that is not allocated, and the clauses that were taken are
-- the first of those that were added, in their order; the others stand in the buffer.
pub run-IsQueue :
    (a : ℕ) (actions : List Action) → (s : System) × (run actions (start a) ≡ some s) × IsQueue s
run-IsQueue a actions = actions-IsQueue actions (start a) (start-IsQueue a)
