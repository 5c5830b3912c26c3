-- ===== src/Clauses/Buffer/Shared/Begun.antt =====
-- The call of `addClause`, with a new element.
use dpainless.Prelude.{
  ℕ, ◌≡◌, ◌≢◌, inl, inr, List, ◌∷◌, Option, none, some, arith, occurrences, Option-cases,
}
use dpainless.Clauses.Exchange.{ClauseExchange}
use dpainless.Clauses.Buffer.Queue.{
  ClauseBuffer, Producer, not_adding, looping, has_tail, has_next, checked, linked, swung, allocate,
  Consumer, not_getting, asking, has_head, saw_tail, saw_next, sure, has_clause, popped, deleted,
  returned_false, returned_true,
}
use dpainless.Clauses.Buffer.Chain.{Cells, addresses, Links-store, Links-free}
use dpainless.Clauses.Buffer.Shared.{doomed_of, ConsumerInv, IsQueue, begin_add}
use dpainless.Clauses.Buffer.Shared.Filled.{system}

ConsumerInv-allocate :
    (b : ClauseBuffer) (xs : Cells) (a : ℕ) (c : ClauseExchange) (q : Consumer)
    → ConsumerInv b xs q
    → ConsumerInv (allocate a c b) xs q
unfolding allocate
ConsumerInv-allocate b xs a c not_getting i = tt
ConsumerInv-allocate b xs a c asking i = tt
ConsumerInv-allocate b xs a c (has_head h) i = i
ConsumerInv-allocate b xs a c (saw_tail h t) i = i
ConsumerInv-allocate b xs a c (saw_next h t next) i = i
ConsumerInv-allocate b xs a c (sure h t next) i = i
ConsumerInv-allocate b xs a c (has_clause h r cl) i = i
ConsumerInv-allocate b xs a c (popped h cl) (full, gone) = (λ e. ground (arith, full), gone)
ConsumerInv-allocate b xs a c (deleted cl) i = tt
ConsumerInv-allocate b xs a c returned_false i = tt
ConsumerInv-allocate b xs a c (returned_true cl) i = tt

-- What the consumer deletes is allocated.
doomed-full :
    (b : ClauseBuffer) (xs : Cells) (q : Consumer) (v : ℕ)
    → ConsumerInv b xs q
    → b.elements v ≡ none
    → doomed_of q ≢ some v
doomed-full b xs (popped h cl) v (full, gone) e d = ground (arith, full)
doomed-full b xs not_getting v i e d = ground arith
doomed-full b xs asking v i e d = ground arith
doomed-full b xs (has_head h) v i e d = ground arith
doomed-full b xs (saw_tail h t) v i e d = ground arith
doomed-full b xs (saw_next h t next) v i e d = ground arith
doomed-full b xs (sure h t next) v i e d = ground arith
doomed-full b xs (has_clause h r cl) v i e d = ground arith
doomed-full b xs (deleted cl) v i e d = ground arith
doomed-full b xs returned_false v i e d = ground arith
doomed-full b xs (returned_true cl) v i e d = ground arith

-- A new element is allocated.
pub begin_add-IsQueue :
    (b : ClauseBuffer) (p : Producer) (q : Consumer) (added taken : List (Option ClauseExchange))
    (a : ℕ) (c : ClauseExchange)
    → IsQueue (system b p q added taken)
    → IsQueue (begin_add a c p (system b p q added taken))
unfolding begin_add allocate
begin_add-IsQueue b not_adding q added taken a c (k, xs, i) = elim (Option-cases (b.elements a)) [
  | inr (e, used) ↦ rw used (k, xs, i)
  | inl free ↦
      let out : occurrences a (b.head ∷ addresses xs) ≡ 0 =
        Links-free b.elements k b.head xs a free i.links in
      rw free (
        k,
        xs,
        record {
          links = Links-store b.elements k b.head xs a _ out i.links;
          distinct = i.distinct;
          fifo = i.fifo;
          producing = (ground arith, out, i.producing);
          consuming = ConsumerInv-allocate b xs a c q i.consuming;
          apart = λ v e d. doomed-full b xs q v i.consuming (ground arith) d;
        },
      )
]
begin_add-IsQueue b (looping node d) q added taken a c h = h
begin_add-IsQueue b (has_tail node d t) q added taken a c h = h
begin_add-IsQueue b (has_next node d t n) q added taken a c h = h
begin_add-IsQueue b (checked node d t n) q added taken a c h = h
begin_add-IsQueue b (linked node d t) q added taken a c h = h
begin_add-IsQueue b swung q added taken a c h = h
