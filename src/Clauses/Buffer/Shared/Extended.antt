-- ===== src/Clauses/Buffer/Shared/Extended.antt =====
-- What a new element behind the last one, and a move of the tail, mean for the thread that gets.
use dpainless.Prelude.{
  ℤ, ℕ, ◌≤◌, ◌≢◌, inl, inr, sym, ap, ◌∙◌, [], ◌∷◌, ◌++◌, Option, some, arith, occurrences,
}
use dpainless.Clauses.Exchange.{ClauseExchange}
use dpainless.Clauses.Buffer.Queue.{
  ClauseBuffer, element, store, Consumer, not_getting, asking, has_head, saw_tail, saw_next, sure,
  has_clause, popped, deleted, returned_false, returned_true,
}
use dpainless.Clauses.Buffer.Chain.{
  Cells, addresses, last, occurrences-snoc, first-append, length-append_pos,
}
use dpainless.Clauses.Buffer.Shared.{doomed_of, ConsumerInv, HasRead}

-- The buffer with a new element behind the last one.
abbrev extended : ClauseBuffer → Cells → Option ClauseExchange → ℕ → ClauseBuffer
extended b xs d node = record b {
  elements = store b.elements (last b.head xs) (some (element d (some node)));
}

module _ (b : ClauseBuffer) (xs : Cells) (node : ℕ) (c : ClauseExchange)
    (d : Option ClauseExchange) where
  HasRead-extended :
      (h t : ℕ) (next : Option ℕ)
      → HasRead b xs h t next
      → HasRead (extended b xs d node) (xs ++ (node, c) ∷ []) h t next
  HasRead-extended h t next (e, inl empty) = (e, inl empty)
  HasRead-extended h t next (e, inr (n, pos, far)) = (
    e,
    inr (
      n ∙ sym (first-append xs ((node, c) ∷ []) pos),
      length-append_pos xs ((node, c) ∷ []) pos,
      far,
    ),
  )

  pub ConsumerInv-extended :
      (q : Consumer)
      → ((v : ℕ) → occurrences v (b.head ∷ addresses xs) ≤ 1)
      → doomed_of q ≢ some node
      → ConsumerInv b xs q
      → ConsumerInv (extended b xs d node) (xs ++ (node, c) ∷ []) q
  ConsumerInv-extended not_getting u a i = tt
  ConsumerInv-extended asking u a i = tt
  ConsumerInv-extended (has_head h) u a i = i
  ConsumerInv-extended (saw_tail h t) u a i = i
  ConsumerInv-extended (saw_next h t next) u a i = HasRead-extended h t next i
  ConsumerInv-extended (sure h t next) u a i = HasRead-extended h t next i
  ConsumerInv-extended (has_clause h r cl) u a (e, far, f, ys, eq, g) =
      (e, far, f, ys ++ (node, c) ∷ [], ap (λ l. l ++ (node, c) ∷ []) eq, g)
  ConsumerInv-extended (popped h cl) u a (full, gone) =
      (λ e. ground (arith, full), ground (arith, occurrences-snoc h xs node c))
  ConsumerInv-extended (deleted cl) u a i = tt
  ConsumerInv-extended returned_false u a i = tt
  ConsumerInv-extended (returned_true cl) u a i = tt

-- The size plays no part.
pub ConsumerInv-size :
    (b : ClauseBuffer) (xs : Cells) (n : ℤ) (q : Consumer)
    → ConsumerInv b xs q
    → ConsumerInv (record b { size = n }) xs q
ConsumerInv-size b xs n not_getting i = tt
ConsumerInv-size b xs n asking i = tt
ConsumerInv-size b xs n (has_head h) i = i
ConsumerInv-size b xs n (saw_tail h t) i = i
ConsumerInv-size b xs n (saw_next h t next) i = i
ConsumerInv-size b xs n (sure h t next) i = i
ConsumerInv-size b xs n (has_clause h r cl) i = i
ConsumerInv-size b xs n (popped h cl) i = i
ConsumerInv-size b xs n (deleted cl) i = tt
ConsumerInv-size b xs n returned_false i = tt
ConsumerInv-size b xs n (returned_true cl) i = tt

-- A move of the tail away from the head.
pub ConsumerInv-tail :
    (b : ClauseBuffer) (xs : Cells) (n : ℕ) (q : Consumer)
    → n ≢ b.head
    → ConsumerInv b xs q
    → ConsumerInv (record b { tail = n }) xs q
ConsumerInv-tail b xs n not_getting u i = tt
ConsumerInv-tail b xs n asking u i = tt
ConsumerInv-tail b xs n (has_head h) u i = i
ConsumerInv-tail b xs n (saw_tail h t) u i = (i.0, λ _. u)
ConsumerInv-tail b xs n (saw_next h t next) u (e, inl empty) = (e, inl empty)
ConsumerInv-tail b xs n (saw_next h t next) u (e, inr (f, pos, far)) = (e, inr (f, pos, λ _. u))
ConsumerInv-tail b xs n (sure h t next) u (e, inl empty) = (e, inl empty)
ConsumerInv-tail b xs n (sure h t next) u (e, inr (f, pos, far)) = (e, inr (f, pos, λ _. u))
ConsumerInv-tail b xs n (has_clause h r cl) u (e, far, d, ys, f, g) = (e, u, d, ys, f, g)
ConsumerInv-tail b xs n (popped h cl) u i = i
ConsumerInv-tail b xs n (deleted cl) u i = tt
ConsumerInv-tail b xs n returned_false u i = tt
ConsumerInv-tail b xs n (returned_true cl) u i = tt
