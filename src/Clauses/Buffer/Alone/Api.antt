-- ===== src/Clauses/Buffer/Alone/Api.antt =====
-- A buffer that one thread uses is a queue: it fills the interface.
use mathlib.Core.Path.{subst}
use dpainless.Prelude.{
  ℕ, suc, ◌≤◌, ◌≡◌, refl, sym, ap, ◌∙◌, List, [], ◌∷◌, ◌++◌, Option, none, some, pos, arith, length,
  length-append,
}
use dpainless.Clauses.Exchange.{ClauseExchange}
use dpainless.Clauses.Buffer.{BufferApi, taken_then}
use dpainless.Clauses.Buffer.Queue.{ClauseBuffer, new_buffer, increment, decrement}
use dpainless.Clauses.Buffer.Chain.{Cells, clauses, clauses-snoc}
use dpainless.Clauses.Buffer.Alone.{add_clause, get_clause, get_clauses, get_wanted, wanted}
use dpainless.Clauses.Buffer.Alone.Taken.{
  IsAlone, takes, leaves, get_wanted-IsAlone, add_clause-IsAlone, get_clause-none, get_clause-some,
}

-- A buffer between two calls, with an address that is free.
pub record Idle : Type 0 where
  pub buffer : ClauseBuffer
  pub dummy : Option ClauseExchange
  pub cells : Cells
  pub alone : IsAlone buffer dummy cells
  pub sized : buffer.size ≡ pos (length cells)
  pub fresh : ℕ
  pub bound : (v : ℕ) → fresh ≤ v → buffer.elements v ≡ none

abbrev pub cell_clauses : Cells → List ClauseExchange
cell_clauses [] = []
cell_clauses ((p, c) ∷ xs) = c ∷ cell_clauses xs

pub cell_clauses-snoc :
    (xs : Cells) (p : ℕ) (c : ClauseExchange)
    → cell_clauses (xs ++ (p, c) ∷ []) ≡ cell_clauses xs ++ c ∷ []
cell_clauses-snoc [] p c = refl
cell_clauses-snoc ((q, d) ∷ xs) p c = ap (λ l. d ∷ l) (cell_clauses-snoc xs p c)

takes-length : (xs : Cells) → takes (length xs) xs ≡ xs
takes-length [] = refl
takes-length (x ∷ xs) = ap (λ l. x ∷ l) (takes-length xs)

pub leaves-length : (xs : Cells) → leaves (length xs) xs ≡ []
leaves-length [] = refl
leaves-length (x ∷ xs) = leaves-length xs

unfoldable new_idle : Idle
unfolding new_buffer
new_idle = record {
  buffer = new_buffer 0;
  dummy = none;
  cells = [];
  alone = record { links = refl; distinct = λ v. ground arith; at_tail = refl };
  sized = refl;
  fresh = 1;
  bound = λ v h. ground arith;
}

-- The buffer after `addClause`.
unfoldable added : Idle → ClauseExchange → Idle
unfolding increment
added x c =
    let (b, e, i, s, f) =
      add_clause-IsAlone x.fresh c x.buffer x.dummy x.cells x.alone
        (x.bound x.fresh (omega arith)) in
    record {
      buffer = b;
      dummy = x.dummy;
      cells = x.cells ++ (x.fresh, c) ∷ [];
      alone = i;
      sized =
          s
          ∙ ap increment x.sized
          ∙ ap pos (omega (arith, length-append x.cells ((x.fresh, c) ∷ [])));
      fresh = suc x.fresh;
      bound = λ v h. f v (λ e. omega arith) (x.bound v (omega arith));
    }

-- The buffer after `getClauses`.
unfoldable got : Idle → Idle
got x =
    let (b, k, e, i, f, s) = get_wanted-IsAlone (length x.cells) x.buffer x.dummy x.cells x.alone in
    record {
      buffer = b;
      dummy = k;
      cells = leaves (length x.cells) x.cells;
      alone = i;
      sized = s 0 (x.sized ∙ ap pos (omega arith)) ∙ ap pos (omega arith);
      fresh = x.fresh;
      bound = λ v h. f v (x.bound v h);
    }

-- The buffer after `getClause`.
unfoldable pub take_one : (xs : Cells) (x : Idle) → x.cells ≡ xs → Option ClauseExchange × Idle
unfolding decrement
take_one [] x e = (none, x)
take_one ((r, d) ∷ xs) x e =
    let i : IsAlone x.buffer x.dummy ((r, d) ∷ xs) = subst (IsAlone x.buffer x.dummy) e x.alone in
    let (b, f, j, s, g) = get_clause-some x.buffer x.dummy r d xs i in
    (
      some d,
      record {
        buffer = b;
        dummy = some d;
        cells = xs;
        alone = j;
        sized = s ∙ ap decrement (x.sized ∙ ap (λ l. pos (length l)) e);
        fresh = x.fresh;
        bound = λ v h. g v (x.bound v h);
      },
    )

pub take_one-first :
    (xs : Cells) (x : Idle) (e : x.cells ≡ xs)
    → taken_then (take_one xs x e).0 (cell_clauses (take_one xs x e).1.cells) ≡ cell_clauses x.cells
unfolding take_one
take_one-first [] x e = refl
take_one-first ((r, d) ∷ xs) x e = sym (ap cell_clauses e)

pub take_one-nothing :
    (xs : Cells) (x : Idle) (e : x.cells ≡ xs)
    → (take_one xs x e).0 ≡ none
    → cell_clauses x.cells ≡ []
unfolding take_one
take_one-nothing [] x e n = ap cell_clauses e
take_one-nothing ((r, d) ∷ xs) x e n = absurd (ground (arith, n))

abbrev pub handed : Option ClauseExchange → Option (Option ClauseExchange)
handed none = none
handed (some c) = some (some c)

take_one-runs :
    (xs : Cells) (x : Idle) (e : x.cells ≡ xs)
    → get_clause x.buffer ≡ some (handed (take_one xs x e).0, (take_one xs x e).1.buffer)
unfolding take_one
take_one-runs [] x e = get_clause-none x.buffer x.dummy (subst (IsAlone x.buffer x.dummy) e x.alone)
take_one-runs ((r, d) ∷ xs) x e =
    let (b, f, j, s, g) =
      get_clause-some x.buffer x.dummy r d xs (subst (IsAlone x.buffer x.dummy) e x.alone) in
    f

unfoldable pub clause_queue : BufferApi Idle
unfolding new_idle added got take_one
clause_queue = record {
  empty = new_idle;
  add_clause = added;
  get_clause = λ x. take_one x.cells x refl;
  get_clauses = λ x. (cell_clauses x.cells, got x);
  contents = λ x. cell_clauses x.cells;
  contents-empty = refl;
  contents-add = λ x c. cell_clauses-snoc x.cells x.fresh c;
  get_first = λ x. take_one-first x.cells x refl;
  get_nothing = λ x. take_one-nothing x.cells x refl;
  get-contents = λ x. refl;
  contents-get = λ x. ap cell_clauses (leaves-length x.cells);
}

-- Between two calls, and with no other thread at work, `addClause`, `getClause` and `getClauses` run
-- without a fault in a bounded number of accesses, and do to the buffer what the interface says: a
-- clause is added at the end, the first clause is taken, and all clauses are taken in their order.
pub clause_queue-refines :
    (x : Idle) (c : ClauseExchange)
    → (add_clause x.fresh c x.buffer ≡ some (clause_queue.add_clause x c).buffer)
      × (get_clause x.buffer
          ≡ some (handed (clause_queue.get_clause x).0, (clause_queue.get_clause x).1.buffer))
      × (get_clauses x.buffer ≡ some (clauses x.cells, (clause_queue.get_clauses x).1.buffer))
      × (clauses (clause_queue.add_clause x c).cells ≡ clauses x.cells ++ some c ∷ [])
      × ((clause_queue.get_clauses x).1.cells ≡ [])
unfolding clause_queue get_clauses added got take_one
clause_queue-refines x c =
    let (b, e, i, s, g) =
      add_clause-IsAlone x.fresh c x.buffer x.dummy x.cells x.alone
        (x.bound x.fresh (omega arith)) in
    let (d, k, f, j, p, q) = get_wanted-IsAlone (length x.cells) x.buffer x.dummy x.cells x.alone in
    (
      e,
      take_one-runs x.cells x refl,
      ap (λ z. get_wanted (wanted z) x.buffer) x.sized
          ∙ f
          ∙ ap (λ l. some (clauses l, d)) (takes-length x.cells),
      clauses-snoc x.cells x.fresh c,
      leaves-length x.cells,
    )
