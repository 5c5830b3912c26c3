-- ===== src/Clauses/Buffer/Shared/Popped.antt =====
-- What moving the tail on, moving the head on and deleting an element do to the invariant.
use mathlib.Core.List.{append_assoc, append-nil}
use dpainless.Prelude.{
  ℕ, ◌≤◌, ◌≡◌, ◌≢◌, inl, inr, refl, sym, ap, ◌∙◌, List, [], ◌∷◌, ◌++◌, Option, none, some, arith,
  occurrences, ◌==◌, ==_iff, Bool-cases, ℤ,
}
use dpainless.Clauses.Exchange.{ClauseExchange}
use dpainless.Clauses.Buffer.Queue.{
  ClauseBuffer, element, store, Producer, not_adding, looping, has_tail, has_next, checked, linked,
  swung, swing_tail, Consumer, asking, sure, has_clause, popped,
}
use dpainless.Clauses.Buffer.Chain.{
  Cells, addresses, clauses, last, Links, occurrences-snoc, last-occurs,
}
use dpainless.Clauses.Buffer.Shared.{
  consumed, private_of, doomed_of, ProducerInv, ConsumerInv, HasRead, Inv,
}
use dpainless.Clauses.Buffer.Shared.Filled.{system}

-- An access that writes nothing.
module _ (b : ClauseBuffer) (p : Producer) (added taken : List (Option ClauseExchange))
    (k : Option ClauseExchange) (xs : Cells) where
  pub waited :
      (q q' : Consumer)
      → Inv (system b p q added taken) k xs
      → ConsumerInv b xs q'
      → doomed_of q' ≡ none
      → Inv (consumed (system b p q added taken) (q', b, [])) k xs
  unfolding consumed
  waited q q' i j d = record {
    links = i.links;
    distinct = i.distinct;
    fifo = i.fifo ∙ ap (λ l. l ++ clauses xs) (sym (append-nil taken));
    producing = i.producing;
    consuming = j;
    apart = λ v e f. ground (arith, d);
  }

pub tail-empty : (b : ClauseBuffer) (p : Producer) → ProducerInv b [] p → b.tail ≡ b.head
tail-empty b not_adding i = i
tail-empty b (looping node c) i = i.2
tail-empty b (has_tail node c t) i = i.0.2
tail-empty b (has_next node c t n) i = i.0.2
tail-empty b (checked node c t n) i = i.0.2
tail-empty b (linked node c t) (n, l, inl e) = e ∙ sym l
tail-empty b (linked node c t) (n, l, inr (e, [], f, g)) = ground (arith, f)
tail-empty b (linked node c t) (n, l, inr (e, y ∷ ys, f, g)) = ground (arith, f)
tail-empty b swung i = i

-- The last of several elements is not the head.
head-ne-last :
    (h : ℕ) (x : ℕ × ClauseExchange) (xs : Cells)
    → ((v : ℕ) → occurrences v (h ∷ addresses (x ∷ xs)) ≤ 1)
    → h ≢ last h (x ∷ xs)
head-ne-last h x xs u e = ground (arith, u h, last-occurs h x xs)

module _ (b : ClauseBuffer) (r : ℕ) (d : ClauseExchange) (ys : Cells)
    (u : (v : ℕ) → occurrences v (b.head ∷ addresses ((r, d) ∷ ys)) ≤ 1) where
  -- The consumer moves the tail on for the producer.
  ProducerInv-help :
      (p : Producer)
      → b.tail ≡ b.head
      → ProducerInv b ((r, d) ∷ ys) p
      → ProducerInv (record b { tail = r }) ((r, d) ∷ ys) p
  ProducerInv-help not_adding e i = absurd (head-ne-last b.head (r, d) ys u (sym e ∙ i))
  ProducerInv-help (looping node c) e i = absurd (head-ne-last b.head (r, d) ys u (sym e ∙ i.2))
  ProducerInv-help (has_tail node c t) e i =
      absurd (head-ne-last b.head (r, d) ys u (sym e ∙ i.0.2))
  ProducerInv-help (has_next node c t n) e i =
      absurd (head-ne-last b.head (r, d) ys u (sym e ∙ i.0.2))
  ProducerInv-help (checked node c t n) e i =
      absurd (head-ne-last b.head (r, d) ys u (sym e ∙ i.0.2))
  ProducerInv-help (linked node c t) e (n, l, inl f) =
      absurd (head-ne-last b.head (r, d) ys u (sym e ∙ f ∙ sym l))
  ProducerInv-help (linked node c t) e (n, l, inr (f, [], g, m)) = (n, l, inl (cc (g)))
  ProducerInv-help (linked node c t) e (n, l, inr (f, (r', d') ∷ zs, g, m)) = absurd (
      ground (
        arith,
        u b.head,
        ap (λ x. occurrences b.head (addresses x)) g,
        occurrences-snoc b.head ((r', d') ∷ zs) node c,
        last-occurs b.head (r', d') zs,
      ))
  ProducerInv-help swung e i = absurd (head-ne-last b.head (r, d) ys u (sym e ∙ i))

  -- The head moves on.
  ProducerInv-pop :
      (p : Producer)
      → b.tail ≢ b.head
      → ProducerInv b ((r, d) ∷ ys) p
      → ProducerInv (record b { head = r }) ys p
  ProducerInv-pop not_adding e i = i
  ProducerInv-pop (looping node c) e (own, out, at) = (own, omega arith, at)
  ProducerInv-pop (has_tail node c t) e ((own, out, at), f) = ((own, omega arith, at), f)
  ProducerInv-pop (has_next node c t n) e ((own, out, at), f, g) = ((own, omega arith, at), f, g)
  ProducerInv-pop (checked node c t n) e ((own, out, at), f, g) = ((own, omega arith, at), f, g)
  ProducerInv-pop (linked node c t) e (n, l, inl f) = (n, l, inl f)
  ProducerInv-pop (linked node c t) e (n, l, inr (f, [], g, m)) = absurd (e (f ∙ sym m))
  ProducerInv-pop (linked node c t) e (n, l, inr (f, (r', d') ∷ zs, g, m)) =
      (n, l, inr (f, zs, cc (g), cc (g, m)))
  ProducerInv-pop swung e i = i

-- An element is deleted.
pub ProducerInv-delete :
    (b : ClauseBuffer) (xs : Cells) (h : ℕ) (p : Producer)
    → ((v : ℕ) → private_of p ≡ some v → v ≢ h)
    → ProducerInv b xs p
    → ProducerInv (record b { elements = store b.elements h none }) xs p
ProducerInv-delete b xs h not_adding a i = i
ProducerInv-delete b xs h (looping node c) a (own, i, l) = (ground (arith, a node refl), i, l)
ProducerInv-delete b xs h (has_tail node c t) a ((own, i, l), j) =
    ((ground (arith, a node refl), i, l), j)
ProducerInv-delete b xs h (has_next node c t n) a ((own, i, l), j, m) =
    ((ground (arith, a node refl), i, l), j, m)
ProducerInv-delete b xs h (checked node c t n) a ((own, i, l), j, m) =
    ((ground (arith, a node refl), i, l), j, m)
ProducerInv-delete b xs h (linked node c t) a i = i
ProducerInv-delete b xs h swung a i = i

-- The tail is moved on, if it is still where it was.
pub help-Inv :
    (b : ClauseBuffer) (p : Producer) (added taken : List (Option ClauseExchange))
    (k : Option ClauseExchange) (r : ℕ) (d : ClauseExchange) (ys : Cells) (h t n : ℕ)
    → h ≡ t
    → h ≡ b.head
    → n ≡ r
    → Inv (system b p (sure h t (some n)) added taken) k ((r, d) ∷ ys)
    → Inv
        (consumed (system b p (sure h t (some n)) added taken) (asking, swing_tail t n b, []))
        k
        ((r, d) ∷ ys)
unfolding consumed swing_tail
help-Inv b p added taken k r d ys h t n e f g i = elim (Bool-cases (b.tail == t)) [
  | inr other ↦
      rw other (waited b p added taken k ((r, d) ∷ ys) (sure h t (some n)) asking i tt refl)
  | inl same ↦
      let back : b.tail ≡ b.head = (==_iff b.tail t).0 same ∙ sym e ∙ f in
      rw same (record {
        links = i.links;
        distinct = i.distinct;
        fifo = i.fifo ∙ ap (λ l. l ++ clauses ((r, d) ∷ ys)) (sym (append-nil taken));
        producing = rw g (ProducerInv-help b r d ys i.distinct p back i.producing);
        consuming = tt;
        apart = λ v l j. ground arith;
      })
]

pub read_none : (b : ClauseBuffer) (xs : Cells) (h t : ℕ) → HasRead b xs h t none → h ≡ t
read_none b xs h t (e, inl (n, f)) = sym f
read_none b [] h t (e, inr (n, pos, far)) = absurd (omega arith)
read_none b (x ∷ xs) h t (e, inr (n, pos, far)) = absurd (ground (arith, n))

pub read_empty : (b : ClauseBuffer) (h t n : ℕ) → HasRead b [] h t (some n) → ⊥
read_empty b h t n (e, inl (f, g)) = ground (arith, f)
read_empty b h t n (e, inr (f, pos, far)) = omega arith

pub read_some :
    (b : ClauseBuffer) (r : ℕ) (d : ClauseExchange) (ys : Cells) (h t n : ℕ)
    → HasRead b ((r, d) ∷ ys) h t (some n)
    → (n ≡ r) × (t ≢ h → b.tail ≢ b.head)
read_some b r d ys h t n (e, inl (f, g)) = absurd (ground (arith, f))
read_some b r d ys h t n (e, inr (f, pos, far)) = (cc (f), far)

-- The element behind the head holds the clause.
pub second-element :
    (b : ClauseBuffer) (k : Option ClauseExchange) (r : ℕ) (d : ClauseExchange) (ys : Cells)
    → Links b.elements k b.head ((r, d) ∷ ys)
    → (n : Option ℕ) × (b.elements r ≡ some (element (some d) n))
second-element b k r d [] l = (none, l.1)
second-element b k r d ((q, c) ∷ ys) l = (some q, l.1.0)

private-out :
    (b : ClauseBuffer) (xs : Cells) (p : Producer) (v : ℕ)
    → ProducerInv b xs p
    → private_of p ≡ some v
    → occurrences v (b.head ∷ addresses xs) ≡ 0
private-out b xs not_adding v i e = absurd (ground arith)
private-out b xs (looping node c) v i e = ground (arith, i.1)
private-out b xs (has_tail node c t) v i e = ground (arith, i.0.1)
private-out b xs (has_next node c t n) v i e = ground (arith, i.0.1)
private-out b xs (checked node c t n) v i e = ground (arith, i.0.1)
private-out b xs (linked node c t) v i e = absurd (ground arith)
private-out b xs swung v i e = absurd (ground arith)

-- The head moves on, and the old head is left to be deleted.
pub popped-Inv :
    (b : ClauseBuffer) (p : Producer) (added taken : List (Option ClauseExchange))
    (k : Option ClauseExchange) (r : ℕ) (d : ClauseExchange) (ys : Cells) (h n : ℕ)
    (cl : Option ClauseExchange)
    → h ≡ b.head
    → b.tail ≢ b.head
    → n ≡ r
    → cl ≡ some d
    → Inv (system b p (has_clause h n cl) added taken) k ((r, d) ∷ ys)
    → Inv
        (consumed
          (system b p (has_clause h n cl) added taken)
          (popped h cl, record b { head = n }, cl ∷ []))
        (some d)
        ys
unfolding consumed
popped-Inv b p added taken k r d ys h n cl e far z w i = record {
  links = rw z i.links.1;
  distinct = λ v. rw z (omega (arith, i.distinct v));
  fifo = rw w (i.fifo ∙ sym (append_assoc taken (some d ∷ []) (clauses ys)));
  producing = rw z (ProducerInv-pop b r d ys i.distinct p far i.producing);
  consuming = (λ f. ground (arith, i.links.0), rw z (ground (arith, i.distinct h)));
  apart = λ v f g. ground (arith, private-out b ((r, d) ∷ ys) p v i.producing f);
}

-- The size plays no part.
pub ProducerInv-size :
    (b : ClauseBuffer) (xs : Cells) (n : ℤ) (p : Producer)
    → ProducerInv b xs p
    → ProducerInv (record b { size = n }) xs p
ProducerInv-size b xs n not_adding i = i
ProducerInv-size b xs n (looping node c) i = i
ProducerInv-size b xs n (has_tail node c t) i = i
ProducerInv-size b xs n (has_next node c t m) i = i
ProducerInv-size b xs n (checked node c t m) i = i
ProducerInv-size b xs n (linked node c t) i = i
ProducerInv-size b xs n swung i = i
