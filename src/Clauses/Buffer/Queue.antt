-- ===== src/Clauses/Buffer/Queue.antt =====
-- clauses/ClauseBuffer.cpp: the lock-free queue, one access to shared memory at a time. The state of
-- a thread is the point that it has reached, with its local variables.
use dpainless.Prelude.{
  ℕ, suc, List, [], ◌∷◌, Option, none, some, ℤ, pos, negsuc, zero, ◌==◌, if◌then◌else◌,
}
use dpainless.Clauses.Exchange.{ClauseExchange}

pub record ListElement : Type 0 where
  pub clause : Option ClauseExchange
  pub next : Option ℕ

-- `none` at an address without an element: not allocated, or deleted.
abbrev pub Elements : Type 0
Elements = ℕ → Option ListElement

pub record ClauseBuffer : Type 0 where
  pub elements : Elements
  pub head : ℕ
  pub tail : ℕ
  pub size : ℤ

abbrev pub store : Elements → ℕ → Option ListElement → Elements
store m p e q = if q == p then e else m q

abbrev pub element : Option ClauseExchange → Option ℕ → ListElement
element c next = record { clause = c; next = next }

-- The constructor, with the address of the first element.
unfoldable pub new_buffer : ℕ → ClauseBuffer
new_buffer a = record {
  elements = store (λ _. none) a (some (element none none));
  head = a;
  tail = a;
  size = pos 0;
}

-- `buffer.size++` and `buffer.size--`
unfoldable pub increment : ℤ → ℤ
increment (pos n) = pos (suc n)
increment (negsuc zero) = pos 0
increment (negsuc (suc n)) = negsuc n

unfoldable pub decrement : ℤ → ℤ
decrement (pos zero) = negsuc 0
decrement (pos (suc n)) = pos n
decrement (negsuc n) = negsuc (suc n)

-- Where a thread stands in `addClause`: the new element and its clause, and the local variables
-- `tail` and `next` as far as they are read.
pub data Producer : Type 0 where
  not_adding : Producer
  looping : (node : ℕ) (c : ClauseExchange) → Producer
  has_tail : (node : ℕ) (c : ClauseExchange) (tail : ℕ) → Producer
  has_next : (node : ℕ) (c : ClauseExchange) (tail : ℕ) (next : Option ℕ) → Producer
  checked : (node : ℕ) (c : ClauseExchange) (tail : ℕ) (next : Option ℕ) → Producer
  linked : (node : ℕ) (c : ClauseExchange) (tail : ℕ) → Producer
  swung : Producer

-- `new ListElement(clause)`
unfoldable pub allocate : ℕ → ClauseExchange → ClauseBuffer → ClauseBuffer
allocate node c b = record b { elements = store b.elements node (some (element (some c) none)) }

-- `compare_exchange_strong` on `buffer.tail`
unfoldable pub swing_tail : ℕ → ℕ → ClauseBuffer → ClauseBuffer
swing_tail tail next b = if b.tail == tail then record b { tail = next } else b

-- `compare_exchange_strong` on `tail->next`, from NULL. The list is what has got into the queue.
unfoldable pub link :
    ℕ
    → ClauseExchange
    → ℕ
    → ListElement
    → ClauseBuffer
    → Producer × ClauseBuffer × List ClauseExchange
link node c tail e b = elim e.next [
  | some q ↦ (looping node c, b, [])
  | none ↦ (
    linked node c tail,
    record b { elements = store b.elements tail (some (element e.clause (some node))) },
    c ∷ [],
  )
]

-- One access by a thread in `addClause`. `none` is a use of an element that is not allocated.
unfoldable pub produce :
    Producer → ClauseBuffer → Option (Producer × ClauseBuffer × List ClauseExchange)
unfolding swing_tail link increment
produce not_adding b = some (not_adding, b, [])
produce (looping node c) b = some (has_tail node c b.tail, b, [])
produce (has_tail node c tail) b = elim (b.elements tail) [
  | none ↦ none
  | some e ↦ some (has_next node c tail e.next, b, [])
]
produce (has_next node c tail next) b =
    some (if tail == b.tail then checked node c tail next else looping node c, b, [])
produce (checked node c tail none) b = elim (b.elements tail) [
  | none ↦ none
  | some e ↦ some (link node c tail e b)
]
produce (checked node c tail (some next)) b = some (looping node c, swing_tail tail next b, [])
produce (linked node c tail) b = some (swung, swing_tail tail node b, [])
produce swung b = some (not_adding, record b { size = increment b.size }, [])

-- Where a thread stands in `getClause`.
pub data Consumer : Type 0 where
  not_getting : Consumer
  asking : Consumer
  has_head : (head : ℕ) → Consumer
  saw_tail : (head tail : ℕ) → Consumer
  saw_next : (head tail : ℕ) (next : Option ℕ) → Consumer
  sure : (head tail : ℕ) (next : Option ℕ) → Consumer
  has_clause : (head next : ℕ) (clause : Option ClauseExchange) → Consumer
  popped : (head : ℕ) (clause : Option ClauseExchange) → Consumer
  deleted : (clause : Option ClauseExchange) → Consumer
  returned_false : Consumer
  returned_true : (clause : Option ClauseExchange) → Consumer

-- The two branches behind `head == buffer.head`.
unfoldable pub at_end :
    ℕ → Option ℕ → ClauseBuffer → Option (Consumer × ClauseBuffer × List (Option ClauseExchange))
unfolding swing_tail
at_end tail none b = some (returned_false, b, [])
at_end tail (some next) b = some (asking, swing_tail tail next b, [])

unfoldable pub read_clause :
    ℕ → Option ℕ → ClauseBuffer → Option (Consumer × ClauseBuffer × List (Option ClauseExchange))
read_clause head none b = none
read_clause head (some next) b = elim (b.elements next) [
  | none ↦ none
  | some e ↦ some (has_clause head next e.clause, b, [])
]

-- One access by a thread in `getClause`, and what it has got out of the queue.
unfoldable pub consume :
    Consumer → ClauseBuffer → Option (Consumer × ClauseBuffer × List (Option ClauseExchange))
unfolding at_end read_clause decrement
consume not_getting b = some (not_getting, b, [])
consume asking b = some (has_head b.head, b, [])
consume (has_head head) b = some (saw_tail head b.tail, b, [])
consume (saw_tail head tail) b = elim (b.elements head) [
  | none ↦ none
  | some e ↦ some (saw_next head tail e.next, b, [])
]
consume (saw_next head tail next) b =
    some (if head == b.head then sure head tail next else asking, b, [])
consume (sure head tail next) b =
    if head == tail then at_end tail next b else read_clause head next b
consume (has_clause head next clause) b =
    if b.head == head
    then some (popped head clause, record b { head = next }, clause ∷ [])
    else some (asking, b, [])
consume (popped head clause) b = elim (b.elements head) [
  | none ↦ none
  | some e ↦ some (deleted clause, record b { elements = store b.elements head none }, [])
]
consume (deleted clause) b = some (returned_true clause, record b { size = decrement b.size }, [])
consume returned_false b = some (returned_false, b, [])
consume (returned_true clause) b = some (returned_true clause, b, [])
