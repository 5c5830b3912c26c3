-- ===== src/Clauses/Buffer/Shared.antt =====
-- A queue that one thread fills and one thread empties, in any interleaving of their accesses.
pub mod Extended
pub mod Filled
pub mod Begun
pub mod Popped
pub mod Emptied
pub mod Safety
use dpainless.Prelude.{
  ℕ, ◌+◌, ◌≤◌, ◌<◌, ◌≡◌, ◌≢◌, ◌⊎◌, List, [], ◌∷◌, ◌++◌, Option, none, some, length, occurrences,
  map,
}
use dpainless.Clauses.Exchange.{ClauseExchange}
use dpainless.Clauses.Buffer.Queue.{
  ClauseBuffer, Elements, element, Producer, not_adding, looping, has_tail, has_next, checked,
  linked, swung, produce, allocate, Consumer, not_getting, asking, has_head, saw_tail, saw_next,
  sure, has_clause, popped, deleted, returned_false, returned_true, consume, new_buffer,
}
use dpainless.Clauses.Buffer.Chain.{Cells, addresses, clauses, first, last, Links}

-- `added` and `taken` are what has got into the queue and out of it.
pub record System : Type 0 where
  pub buffer : ClauseBuffer
  pub producer : Producer
  pub consumer : Consumer
  pub added : List (Option ClauseExchange)
  pub taken : List (Option ClauseExchange)

unfoldable pub start : ℕ → System
unfolding new_buffer
start a = record {
  buffer = new_buffer a;
  producer = not_adding;
  consumer = not_getting;
  added = [];
  taken = [];
}

-- A thread calls `addClause` or `getClause`, or makes its next access. `add a c` happens with an
-- address that `malloc` may return.
pub data Action : Type 0 where
  add : ℕ → ClauseExchange → Action
  get : Action
  producing consuming : Action

abbrev pub is_ready : Consumer → Consumer
is_ready not_getting = asking
is_ready returned_false = asking
is_ready (returned_true c) = asking
is_ready c = c

-- Calls by a thread that is in a call, and addresses in use, are left out.
unfoldable pub begin_add : ℕ → ClauseExchange → Producer → System → System
unfolding allocate
begin_add a c not_adding s = elim (s.buffer.elements a) [
  | none ↦ record s { buffer = allocate a c s.buffer; producer = looping a c }
  | some e ↦ s
]
begin_add a c p s = s

unfoldable pub produced : System → Producer × ClauseBuffer × List ClauseExchange → System
produced s (p, b, cs) = record s { producer = p; buffer = b; added = s.added ++ map some cs }

unfoldable pub consumed : System → Consumer × ClauseBuffer × List (Option ClauseExchange) → System
consumed s (c, b, cs) = record s { consumer = c; buffer = b; taken = s.taken ++ cs }

unfoldable pub act : Action → System → Option System
unfolding begin_add produce consume produced consumed
act (add a c) s = some (begin_add a c s.producer s)
act get s = some (record s { consumer = is_ready s.consumer })
act producing s = elim (produce s.producer s.buffer) [ none ↦ none | some r ↦ some (produced s r) ]
act consuming s = elim (consume s.consumer s.buffer) [ none ↦ none | some r ↦ some (consumed s r) ]

unfoldable pub run : List Action → System → Option System
unfolding act
run [] s = some s
run (a ∷ rest) s = elim (act a s) [ none ↦ none | some s' ↦ run rest s' ]

-- The element that the producer has allocated and not yet linked.
abbrev pub private_of : Producer → Option ℕ
private_of (looping node c) = some node
private_of (has_tail node c t) = some node
private_of (has_next node c t n) = some node
private_of (checked node c t n) = some node
private_of _ = none

-- The element that the consumer is about to delete.
abbrev pub doomed_of : Consumer → Option ℕ
doomed_of (popped h c) = some h
doomed_of _ = none

module _ (b : ClauseBuffer) (xs : Cells) where
  abbrev pub IsPrivate : ℕ → ClauseExchange → Type 0
  IsPrivate node c =
      (b.elements node ≡ some (element (some c) none))
      × (occurrences node (b.head ∷ addresses xs) ≡ 0)
      × (b.tail ≡ last b.head xs)

  -- The tail lags behind by the element that was linked last.
  abbrev pub IsLagging : ℕ → ClauseExchange → ℕ → Type 0
  IsLagging node c t =
      (b.tail ≡ t) × (ys : Cells) × (xs ≡ ys ++ (node, c) ∷ []) × (last b.head ys ≡ t)

  abbrev pub ProducerInv : Producer → Type 0
  ProducerInv not_adding = b.tail ≡ last b.head xs
  ProducerInv (looping node c) = IsPrivate node c
  ProducerInv (has_tail node c t) = IsPrivate node c × (t ≡ b.tail)
  ProducerInv (has_next node c t next) = IsPrivate node c × (t ≡ b.tail) × (next ≡ none)
  ProducerInv (checked node c t next) = IsPrivate node c × (t ≡ b.tail) × (next ≡ none)
  ProducerInv (linked node c t) =
      (t ≢ node) × (last b.head xs ≡ node) × ((b.tail ≡ node) ⊎ IsLagging node c t)
  ProducerInv swung = b.tail ≡ last b.head xs

  -- What the consumer knows when it has read `next`.
  abbrev pub HasRead : ℕ → ℕ → Option ℕ → Type 0
  HasRead h t next =
      (h ≡ b.head)
      × (((next ≡ none) × (t ≡ h))
          ⊎ ((next ≡ first xs) × (0 < length xs) × (t ≢ h → b.tail ≢ b.head)))

  abbrev pub ConsumerInv : Consumer → Type 0
  ConsumerInv (has_head h) = h ≡ b.head
  ConsumerInv (saw_tail h t) = (h ≡ b.head) × (t ≢ h → b.tail ≢ b.head)
  ConsumerInv (saw_next h t next) = HasRead h t next
  ConsumerInv (sure h t next) = HasRead h t next
  ConsumerInv (has_clause h q c) =
      (h ≡ b.head)
      × (b.tail ≢ b.head)
      × (d : ClauseExchange) × (ys : Cells) × (xs ≡ (q, d) ∷ ys)
      × (c ≡ some d)
  ConsumerInv (popped h c) = (b.elements h ≢ none) × (occurrences h (b.head ∷ addresses xs) ≡ 0)
  ConsumerInv _ = Unit

-- The queue holds `xs` behind its head, whose element holds `k`.
pub record Inv (s : System) (k : Option ClauseExchange) (xs : Cells) : Type 0 where
  pub links : Links s.buffer.elements k s.buffer.head xs
  pub distinct : (v : ℕ) → occurrences v (s.buffer.head ∷ addresses xs) ≤ 1
  pub fifo : s.added ≡ s.taken ++ clauses xs
  pub producing : ProducerInv s.buffer xs s.producer
  pub consuming : ConsumerInv s.buffer xs s.consumer
  pub apart : (v : ℕ) → private_of s.producer ≡ some v → doomed_of s.consumer ≢ some v

-- Some contents.
abbrev pub IsQueue : System → Type 0
IsQueue s = (k : Option ClauseExchange) × (xs : Cells) × Inv s k xs
