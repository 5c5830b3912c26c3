-- ===== src/Clauses/Buffer/Shared/Filled.antt =====
-- The accesses of the thread that fills the queue.
use mathlib.Core.List.{append_assoc, append-nil}
use dpainless.Prelude.{
  ℕ, ◌≡◌, ◌≢◌, inl, inr, refl, sym, ap, ◌∙◌, List, [], ◌∷◌, ◌++◌, Option, none, some, arith,
  occurrences, ◌==◌, true, false,
}
use dpainless.Clauses.Exchange.{ClauseExchange}
use dpainless.Clauses.Buffer.Queue.{
  ClauseBuffer, element, Producer, not_adding, looping, has_tail, has_next, checked, linked, swung,
  produce, link, swing_tail, increment, Consumer,
}
use dpainless.Clauses.Buffer.Chain.{
  Cells, addresses, clauses, last, clauses-snoc, occurrences-snoc, last-snoc, last-inside,
  Links-last, Links-snoc,
}
use dpainless.Clauses.Buffer.Shared.{System, produced, private_of, ProducerInv, Inv, IsQueue}
use dpainless.Clauses.Buffer.Shared.Extended.{
  ConsumerInv-extended, ConsumerInv-size, ConsumerInv-tail,
}

-- The next state of a system whose threads stand at `p` and `q`.
abbrev pub system :
    ClauseBuffer
    → Producer
    → Consumer
    → List (Option ClauseExchange)
    → List (Option ClauseExchange)
    → System
system b p q added taken = record {
  buffer = b;
  producer = p;
  consumer = q;
  added = added;
  taken = taken;
}

module _ (b : ClauseBuffer) (q : Consumer) (added taken : List (Option ClauseExchange))
    (k : Option ClauseExchange) (xs : Cells) where
  -- An access that writes nothing.
  moved :
      (p p' : Producer)
      → Inv (system b p q added taken) k xs
      → ProducerInv b xs p'
      → ((v : ℕ) → private_of p' ≡ some v → private_of p ≡ some v)
      → Inv (produced (system b p q added taken) (p', b, [])) k xs
  unfolding produced
  moved p p' i j a = record {
    links = i.links;
    distinct = i.distinct;
    fifo = append-nil added ∙ i.fifo;
    producing = j;
    consuming = i.consuming;
    apart = λ v e. i.apart v (a v e);
  }

  -- The write that links the new element.
  link-Inv :
      (node t : ℕ) (c : ClauseExchange) (next : Option ℕ)
      → Inv (system b (checked node c t next) q added taken) k xs
      → (e : Option ClauseExchange) × (b.elements t ≡ some (element e none))
        × Inv
            (produced
              (system b (checked node c t next) q added taken)
              (link node c t (element e none) b))
            k
            (xs ++ (node, c) ∷ [])
  unfolding link produced
  link-Inv node t c next i =
      let ((own, out, at_last), e, n) = i.producing in
      let (d, f) = Links-last b.elements k b.head xs i.links in
      let t_last : t ≡ last b.head xs = e ∙ at_last in
      (
        d,
        rw t_last f,
        record {
          links =
              rw t_last (Links-snoc b.elements k b.head xs node c d i.links i.distinct out own f);
          distinct = λ v. ground (arith, i.distinct v, occurrences-snoc v xs node c);
          fifo =
              ap (λ l. l ++ some c ∷ []) i.fifo
              ∙ append_assoc taken (clauses xs) (some c ∷ [])
              ∙ ap (λ l. taken ++ l) (sym (clauses-snoc xs node c));
          producing = (
            λ g. ground (arith, last-inside b.head xs),
            last-snoc b.head xs node c,
            inr (sym e, xs, refl, sym t_last),
          );
          consuming =
              rw t_last
                (ConsumerInv-extended b xs node c d q i.distinct (i.apart node refl) i.consuming);
          apart = λ v g. ground arith;
        },
      )

  -- The tail moves on to the element that was linked last.
  swing-Inv :
      (node t : ℕ) (c : ClauseExchange)
      → Inv (system b (linked node c t) q added taken) k xs
      → Inv
          (produced (system b (linked node c t) q added taken) (swung, swing_tail t node b, []))
          k
          xs
  unfolding swing_tail produced
  swing-Inv node t c i =
      let (n, l, at) = i.producing in
      elim at [
        | inl e ↦
            let same : (b.tail == t) ≡ false = ground arith in
            rw same (record {
              links = i.links;
              distinct = i.distinct;
              fifo = append-nil added ∙ i.fifo;
              producing = e ∙ sym l;
              consuming = i.consuming;
              apart = λ v g. ground arith;
            })
        | inr lag ↦
            let (e, ys, f, g) = lag in
            let same : (b.tail == t) ≡ true = ground arith in
            let away : node ≢ b.head = λ z. ground (
              arith,
              i.distinct node,
              ap (λ x. occurrences node (addresses x)) f,
              occurrences-snoc node ys node c,
            ) in
            rw same (record {
              links = i.links;
              distinct = i.distinct;
              fifo = append-nil added ∙ i.fifo;
              producing = sym l;
              consuming = ConsumerInv-tail b xs node q away i.consuming;
              apart = λ v h. ground arith;
            })
      ]

-- The thread that fills the queue never uses an element that is not allocated.
pub produce-IsQueue :
    (b : ClauseBuffer) (p : Producer) (q : Consumer) (added taken : List (Option ClauseExchange))
    → IsQueue (system b p q added taken)
    → (r : Producer × ClauseBuffer × List ClauseExchange) × (produce p b ≡ some r)
      × IsQueue (produced (system b p q added taken) r)
unfolding produce produced
produce-IsQueue b not_adding q added taken (k, xs, i) =
    (_, refl, (k, xs, moved b q added taken k xs not_adding not_adding i i.producing (λ v e. e)))
produce-IsQueue b (looping node c) q added taken (k, xs, i) = (
  _,
  refl,
  (
    k,
    xs,
    moved b q added taken k xs (looping node c) (has_tail node c b.tail) i (i.producing, refl)
        (λ v e. e),
  ),
)
produce-IsQueue b (has_tail node c t) q added taken (k, xs, i) =
    let (d, f) = Links-last b.elements k b.head xs i.links in
    let (own, e) = i.producing in
    let l : b.elements t ≡ some (element d none) = rw (e ∙ own.2) f in
    (
      (has_next node c t none, b, []),
      rw (l, produce) refl,
      (
        k,
        xs,
        moved b q added taken k xs (has_tail node c t) (has_next node c t none) i (own, e, refl)
            (λ v e. e),
      ),
    )
produce-IsQueue b (has_next node c t next) q added taken (k, xs, i) =
    let (own, e, n) = i.producing in
    let same : (t == b.tail) ≡ true = ground arith in
    (
      (checked node c t next, b, []),
      rw same refl,
      (
        k,
        xs,
        moved b q added taken k xs (has_next node c t next) (checked node c t next) i i.producing
            (λ v e. e),
      ),
    )
produce-IsQueue b (checked node c t none) q added taken (k, xs, i) =
    let (d, f, j) = link-Inv b q added taken k xs node t c none i in
    (link node c t (element d none) b, rw (f, produce) refl, (k, xs ++ (node, c) ∷ [], j))
produce-IsQueue b (checked node c t (some n)) q added taken (k, xs, i) =
    absurd (ground (arith, i.producing))
produce-IsQueue b (linked node c t) q added taken (k, xs, i) =
    (_, refl, (k, xs, swing-Inv b q added taken k xs node t c i))
produce-IsQueue b swung q added taken (k, xs, i) = (
  (not_adding, record b { size = increment b.size }, []),
  refl,
  (
    k,
    xs,
    record {
      links = i.links;
      distinct = i.distinct;
      fifo = append-nil added ∙ i.fifo;
      producing = i.producing;
      consuming = ConsumerInv-size b xs (increment b.size) q i.consuming;
      apart = λ v e. ground arith;
    },
  ),
)
