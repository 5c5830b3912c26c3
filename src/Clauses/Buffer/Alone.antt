-- ===== src/Clauses/Buffer/Alone.antt =====
-- clauses/ClauseBuffer.cpp, as long as no other thread uses the buffer.
pub mod Steps
pub mod Taken
pub mod Api
use dpainless.Prelude.{ℕ, zero, suc, List, [], ◌∷◌, Option, none, some, ℤ, pos, negsuc}
use dpainless.Clauses.Exchange.{ClauseExchange}
use dpainless.Clauses.Buffer.Queue.{
  ClauseBuffer, Producer, not_adding, looping, has_tail, has_next, checked, linked, swung, allocate,
  produce, Consumer, not_getting, asking, has_head, saw_tail, saw_next, sure, has_clause, popped,
  deleted, returned_false, returned_true, consume,
}

-- The accesses of `addClause`, up to the return. `none`: a fault, or more accesses than `fuel`.
unfoldable pub produce_until : ℕ → Producer → ClauseBuffer → Option ClauseBuffer
unfolding produce
produce_until zero p b = none
produce_until (suc fuel) not_adding b = some b
produce_until (suc fuel) p b = elim (produce p b) [
  | none ↦ none
  | some (p', b', cs) ↦ produce_until fuel p' b'
]

-- Six accesses: the tail is the last element.
unfoldable pub add_clause : ℕ → ClauseExchange → ClauseBuffer → Option ClauseBuffer
unfolding produce_until allocate
add_clause a c b = produce_until 7 (looping a c) (allocate a c b)

-- The loop of `addClauses`, with the addresses that the elements get.
unfoldable pub add_clauses : List (ℕ × ClauseExchange) → ClauseBuffer → Option ClauseBuffer
unfolding add_clause
add_clauses [] b = some b
add_clauses ((a, c) ∷ cs) b = elim (add_clause a c b) [ none ↦ none | some b' ↦ add_clauses cs b' ]

-- The accesses of `getClause`, up to the return.
unfoldable pub consume_until :
    ℕ → Consumer → ClauseBuffer → Option (Option (Option ClauseExchange) × ClauseBuffer)
unfolding consume
consume_until zero q b = none
consume_until (suc fuel) returned_false b = some (none, b)
consume_until (suc fuel) (returned_true c) b = some (some c, b)
consume_until (suc fuel) q b = elim (consume q b) [
  | none ↦ none
  | some (q', b', cs) ↦ consume_until fuel q' b'
]

-- Eight accesses, if there is a clause.
unfoldable pub get_clause : ClauseBuffer → Option (Option (Option ClauseExchange) × ClauseBuffer)
unfolding consume_until
get_clause = consume_until 9 asking

-- The loop of `getClauses`, with the number of clauses that are still wanted. `getClause` is called
-- before the number is tested: what it got is lost if the number is reached.
unfoldable pub get_wanted : ℕ → ClauseBuffer → Option (List (Option ClauseExchange) × ClauseBuffer)
unfolding get_clause
get_wanted zero b = elim (get_clause b) [ none ↦ none | some (c, b') ↦ some ([], b') ]
get_wanted (suc n) b = elim (get_clause b) [
  | none ↦ none
  | some (none, b') ↦ some ([], b')
  | some (some c, b') ↦ elim (get_wanted n b') [ none ↦ none | some (cs, b'') ↦ some (c ∷ cs, b'') ]
]

-- A negative size asks for no clause.
abbrev pub wanted : ℤ → ℕ
wanted (pos n) = n
wanted (negsuc n) = 0

-- `clauses` is appended to; what is appended.
unfoldable pub get_clauses : ClauseBuffer → Option (List (Option ClauseExchange) × ClauseBuffer)
unfolding get_wanted
get_clauses b = get_wanted (wanted b.size) b
