-- ===== src/Clauses/Buffer/Shared/Emptied.antt =====
-- The accesses of the thread that empties the queue.
use mathlib.Core.List.{append-nil}
use dpainless.Prelude.{
  ℕ, ◌≡◌, inl, inr, refl, sym, ap, ◌∙◌, List, [], ◌∷◌, ◌++◌, Option, none, some, arith, ◌==◌,
  ==_iff, Bool-cases, Option-cases, true,
}
use dpainless.Clauses.Exchange.{ClauseExchange}
use dpainless.Clauses.Buffer.Queue.{
  ClauseBuffer, element, store, Producer, swing_tail, decrement, Consumer, not_getting, asking,
  has_head, saw_tail, saw_next, sure, has_clause, popped, deleted, returned_false, returned_true,
  consume, at_end, read_clause,
}
use dpainless.Clauses.Buffer.Chain.{Cells, clauses, Links-store}
use dpainless.Clauses.Buffer.Shared.{consumed, Inv, IsQueue}
use dpainless.Clauses.Buffer.Shared.Filled.{system}
use dpainless.Clauses.Buffer.Shared.Popped.{
  waited, tail-empty, ProducerInv-delete, help-Inv, read_none, read_empty, read_some,
  second-element, popped-Inv, ProducerInv-size,
}

module _ (b : ClauseBuffer) (p : Producer) (added taken : List (Option ClauseExchange))
    (k : Option ClauseExchange) where
  abbrev Consumed : Consumer → Type 0
  Consumed q =
      (r : Consumer × ClauseBuffer × List (Option ClauseExchange)) × (consume q b ≡ some r)
      × IsQueue (consumed (system b p q added taken) r)

  sure-Consumed :
      (h t : ℕ) (next : Option ℕ) (xs : Cells)
      → Inv (system b p (sure h t next) added taken) k xs
      → Consumed (sure h t next)
  unfolding consume at_end read_clause
  sure-Consumed h t none xs i =
      let same : (h == t) ≡ true = ground (arith, read_none b xs h t i.consuming) in
      (
        (returned_false, b, []),
        rw same refl,
        (k, xs, waited b p added taken k xs (sure h t none) returned_false i tt refl),
      )
  sure-Consumed h t (some n) [] i = absurd (read_empty b h t n i.consuming)
  sure-Consumed h t (some n) ((r, d) ∷ ys) i =
      let (f, far) = read_some b r d ys h t n i.consuming in
      elim (Bool-cases (h == t)) [
        | inl same ↦ (
          (asking, swing_tail t n b, []),
          rw same refl,
          (
            k,
            (r, d) ∷ ys,
            help-Inv b p added taken k r d ys h t n ((==_iff h t).0 same) i.consuming.0 f i,
          ),
        )
        | inr other ↦
            let (m, second) = second-element b k r d ys i.links in
            let at : b.elements n ≡ some (element (some d) m) = rw f second in
            (
              (has_clause h n (some d), b, []),
              rw (other, at, read_clause) refl,
              (
                k,
                (r, d) ∷ ys,
                waited b p added taken k ((r, d) ∷ ys) (sure h t (some n)) (has_clause h n (some d))
                    i
                    (i.consuming.0, far (ground arith), d, ys, ap (λ x. (x, d) ∷ ys) (sym f), refl)
                    refl,
              ),
            )
      ]

  pop-Consumed :
      (h n : ℕ) (cl : Option ClauseExchange) (xs : Cells)
      → Inv (system b p (has_clause h n cl) added taken) k xs
      → Consumed (has_clause h n cl)
  unfolding consume
  pop-Consumed h n cl [] i = let (e, far, d, ys, g, f) = i.consuming in absurd (cc (g))
  pop-Consumed h n cl ((r, d) ∷ ys) i =
      let (e, far, d', ys', g, f) = i.consuming in
      let same : (b.head == h) ≡ true = ground arith in
      let z : n ≡ r = cc (g) in
      let w : cl ≡ some d = cc (g, f) in
      (
        (popped h cl, record b { head = n }, cl ∷ []),
        rw same refl,
        (some d, ys, popped-Inv b p added taken k r d ys h n cl e far z w i),
      )

  delete-Consumed :
      (h : ℕ) (cl : Option ClauseExchange) (xs : Cells)
      → Inv (system b p (popped h cl) added taken) k xs
      → Consumed (popped h cl)
  unfolding consume consumed
  delete-Consumed h cl xs i = elim (Option-cases (b.elements h)) [
    | inl e ↦ absurd (i.consuming.0 e)
    | inr (l, e) ↦ (
      (deleted cl, record b { elements = store b.elements h none }, []),
      rw (e, consume) refl,
      (
        k,
        xs,
        record {
          links = Links-store b.elements k b.head xs h none i.consuming.1 i.links;
          distinct = i.distinct;
          fifo = i.fifo ∙ ap (λ l. l ++ clauses xs) (sym (append-nil taken));
          producing =
              ProducerInv-delete b xs h p (λ v f g. i.apart v f (ap some (sym g))) i.producing;
          consuming = tt;
          apart = λ v f g. ground arith;
        },
      ),
    )
  ]

-- The thread that empties the queue never uses an element that is not allocated, nor deletes one
-- twice.
pub consume-IsQueue :
    (b : ClauseBuffer) (p : Producer) (q : Consumer) (added taken : List (Option ClauseExchange))
    → IsQueue (system b p q added taken)
    → (r : Consumer × ClauseBuffer × List (Option ClauseExchange)) × (consume q b ≡ some r)
      × IsQueue (consumed (system b p q added taken) r)
unfolding consume consumed
consume-IsQueue b p not_getting added taken (k, xs, i) =
    (_, refl, (k, xs, waited b p added taken k xs not_getting not_getting i tt refl))
consume-IsQueue b p asking added taken (k, xs, i) =
    (_, refl, (k, xs, waited b p added taken k xs asking (has_head b.head) i refl refl))
consume-IsQueue b p (has_head h) added taken (k, xs, i) = (
  _,
  refl,
  (
    k,
    xs,
    waited b p added taken k xs (has_head h) (saw_tail h b.tail) i
        (i.consuming, λ n e. n (e ∙ sym i.consuming)) refl,
  ),
)
consume-IsQueue b p (saw_tail h t) added taken (k, [], i) =
    let at : b.elements h ≡ some (element k none) = rw i.consuming.0 i.links in
    (
      (saw_next h t none, b, []),
      rw (at, consume) refl,
      (
        k,
        [],
        waited b p added taken k [] (saw_tail h t) (saw_next h t none) i
            (i.consuming.0, inl (refl, ground (arith, i.consuming.1, tail-empty b p i.producing)))
            refl,
      ),
    )
consume-IsQueue b p (saw_tail h t) added taken (k, (r, d) ∷ ys, i) =
    let at : b.elements h ≡ some (element k (some r)) = rw i.consuming.0 i.links.0 in
    (
      (saw_next h t (some r), b, []),
      rw (at, consume) refl,
      (
        k,
        (r, d) ∷ ys,
        waited b p added taken k ((r, d) ∷ ys) (saw_tail h t) (saw_next h t (some r)) i
            (i.consuming.0, inr (refl, omega arith, i.consuming.1)) refl,
      ),
    )
consume-IsQueue b p (saw_next h t next) added taken (k, xs, i) =
    let same : (h == b.head) ≡ true = ground (arith, i.consuming.0) in
    (
      (sure h t next, b, []),
      rw same refl,
      (k, xs, waited b p added taken k xs (saw_next h t next) (sure h t next) i i.consuming refl),
    )
consume-IsQueue b p (sure h t next) added taken (k, xs, i) =
    sure-Consumed b p added taken k h t next xs i
consume-IsQueue b p (has_clause h r cl) added taken (k, xs, i) =
    pop-Consumed b p added taken k h r cl xs i
consume-IsQueue b p (popped h cl) added taken (k, xs, i) =
    delete-Consumed b p added taken k h cl xs i
consume-IsQueue b p (deleted cl) added taken (k, xs, i) = (
  (returned_true cl, record b { size = decrement b.size }, []),
  refl,
  (
    k,
    xs,
    record {
      links = i.links;
      distinct = i.distinct;
      fifo = i.fifo ∙ ap (λ l. l ++ clauses xs) (sym (append-nil taken));
      producing = ProducerInv-size b xs (decrement b.size) p i.producing;
      consuming = tt;
      apart = λ v f g. ground arith;
    },
  ),
)
consume-IsQueue b p returned_false added taken (k, xs, i) =
    (_, refl, (k, xs, waited b p added taken k xs returned_false returned_false i tt refl))
consume-IsQueue b p (returned_true cl) added taken (k, xs, i) =
    (_, refl, (k, xs, waited b p added taken k xs (returned_true cl) (returned_true cl) i tt refl))
