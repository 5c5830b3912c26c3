-- ===== src/Clauses/Buffer/Alone/Taken.antt =====
-- What one thread adds to a buffer and gets from it.
use dpainless.Prelude.{
  ℕ, zero, suc, ◌+◌, ◌≤◌, ◌≡◌, ◌≢◌, refl, sym, ap, ◌∙◌, [], ◌∷◌, ◌++◌, Option, none, some, ℤ, pos,
  arith, length, occurrences, ◌==◌, true, false,
}
use dpainless.Clauses.Exchange.{ClauseExchange}
use dpainless.Clauses.Buffer.Queue.{
  ClauseBuffer, Elements, element, store, increment, decrement, allocate, produce, consume, looping,
  at_end, read_clause, link, swing_tail,
}
use dpainless.Clauses.Buffer.Chain.{
  Cells, addresses, clauses, last, Links, last-snoc, last-occurs, occurrences-snoc, Links-store,
  Links-last, Links-snoc, Links-free,
}
use dpainless.Clauses.Buffer.Queue.{
  not_adding, looping, has_tail, has_next, checked, linked, swung, sure, has_clause, popped,
  deleted, returned_false, returned_true,
}
use dpainless.Clauses.Buffer.Shared.Popped.{second-element}
use dpainless.Clauses.Buffer.Alone.{add_clause, get_clause, get_wanted}
use dpainless.Clauses.Buffer.Alone.Steps.{
  consume_until-step, produce_until-step, returns_false, returns_added, returns_true, see_tail,
}

-- No call is under way, and the buffer holds `xs`.
pub record IsAlone (b : ClauseBuffer) (k : Option ClauseExchange) (xs : Cells) : Type 0 where
  pub links : Links b.elements k b.head xs
  pub distinct : (v : ℕ) → occurrences v (b.head ∷ addresses xs) ≤ 1
  pub at_tail : b.tail ≡ last b.head xs

-- No element is allocated.
abbrev pub Frees : ClauseBuffer → ClauseBuffer → Type 0
Frees b b' = (v : ℕ) → b.elements v ≡ none → b'.elements v ≡ none

pub get_clause-none :
    (b : ClauseBuffer) (k : Option ClauseExchange) → IsAlone b k [] → get_clause b ≡ some (none, b)
unfolding get_clause consume at_end
get_clause-none b k i =
    see_tail b k none 5 i.links
    ∙ consume_until-step 4 (sure b.head b.tail none) b (returned_false, b, []) refl
        (let same : (b.head == b.tail) ≡ true = ground (arith, i.at_tail) in rw same refl)
    ∙ returns_false 3 b

pub get_clause-some :
    (b : ClauseBuffer) (k : Option ClauseExchange) (r : ℕ) (d : ClauseExchange) (ys : Cells)
    → IsAlone b k ((r, d) ∷ ys)
    → (b' : ClauseBuffer) × (get_clause b ≡ some (some (some d), b'))
      × IsAlone b' (some d) ys
      × (b'.size ≡ decrement b.size)
      × Frees b b'
unfolding get_clause consume read_clause
get_clause-some b k r d ys i =
    let popped_b : ClauseBuffer = record b { head = r } in
    let deleted_b : ClauseBuffer = record popped_b { elements = store b.elements b.head none } in
    let (n, second) = second-element b k r d ys i.links in
    (
      record deleted_b { size = decrement b.size },
      see_tail b k (some r) 5 i.links.0
          ∙ consume_until-step 4 (sure b.head b.tail (some r)) b
              (has_clause b.head r (some d), b, []) refl
              (let other : (b.head == b.tail) ≡ false =
                  ground (arith, i.at_tail, i.distinct b.head, last-occurs b.head (r, d) ys) in
                rw (other, second, read_clause) refl)
          ∙ consume_until-step 3 (has_clause b.head r (some d)) b
              (popped b.head (some d), popped_b, some d ∷ []) refl
              (let self : (b.head == b.head) ≡ true = ground arith in rw self refl)
          ∙ consume_until-step 2 (popped b.head (some d)) popped_b (deleted (some d), deleted_b, [])
              refl (rw (i.links.0, consume) refl)
          ∙ consume_until-step 1 (deleted (some d)) deleted_b
              (returned_true (some d), record deleted_b { size = decrement b.size }, []) refl refl
          ∙ returns_true 0 (some d) (record deleted_b { size = decrement b.size }),
      record {
        links =
            Links-store b.elements (some d) r ys b.head none (ground (arith, i.distinct b.head))
              i.links.1;
        distinct = λ v. omega (arith, i.distinct v);
        at_tail = i.at_tail;
      },
      refl,
      λ v f. ground (arith, f),
    )

-- Whatever the size says, `getClauses` gets so many clauses if there are as many. It then gets one
-- more, if there is one, and drops it.
abbrev pub takes : ℕ → Cells → Cells
takes zero xs = []
takes (suc n) [] = []
takes (suc n) (x ∷ xs) = x ∷ takes n xs

abbrev pub leaves : ℕ → Cells → Cells
leaves n [] = []
leaves zero (x ∷ xs) = xs
leaves (suc n) (x ∷ xs) = leaves n xs

decrement_length : (z : ℤ) (n m : ℕ) → z ≡ pos (suc n + m) → decrement z ≡ pos (n + m)
unfolding decrement
decrement_length z n m e =
    let f : suc n + m ≡ suc (n + m) = omega arith in ap decrement (e ∙ ap pos f)

-- The size stays off by the same number.
abbrev pub KeepsSize : ClauseBuffer → Cells → ClauseBuffer → Cells → Type 0
KeepsSize b xs b' ys = (m : ℕ) → b.size ≡ pos (length xs + m) → b'.size ≡ pos (length ys + m)

-- Between two calls, with no other thread at work, the loop of `getClauses` with n clauses still
-- wanted ends without a fault in a bounded number of accesses. It returns the first n clauses of the
-- buffer, takes one more out of the buffer if there is one, allocates no element, and leaves `size`
-- as far above the number of clauses in the buffer as it was.
pub get_wanted-IsAlone :
    (n : ℕ) (b : ClauseBuffer) (k : Option ClauseExchange) (xs : Cells)
    → IsAlone b k xs
    → (b' : ClauseBuffer) × (j : Option ClauseExchange) × (get_wanted n b
        ≡ some (clauses (takes n xs), b'))
      × IsAlone b' j (leaves n xs)
      × Frees b b'
      × KeepsSize b xs b' (leaves n xs)
unfolding get_wanted
get_wanted-IsAlone zero b k [] i =
    (b, k, rw (get_clause-none b k i, get_wanted) refl, i, λ v f. f, λ m e. e)
get_wanted-IsAlone (suc n) b k [] i =
    (b, k, rw (get_clause-none b k i, get_wanted) refl, i, λ v f. f, λ m e. e)
get_wanted-IsAlone zero b k ((r, d) ∷ xs) i =
    let (b', e, j, s, g) = get_clause-some b k r d xs i in
    (b', some d, rw (e, get_wanted) refl, j, g, λ m h. s ∙ decrement_length b.size (length xs) m h)
get_wanted-IsAlone (suc n) b k ((r, d) ∷ xs) i =
    let (b', e, j, s, g) = get_clause-some b k r d xs i in
    let (b'', l, f, o, p, q) = get_wanted-IsAlone n b' (some d) xs j in
    (
      b'',
      l,
      rw (e, get_wanted) (rw (f, get_wanted) refl),
      o,
      λ v h. p v (g v h),
      λ m h. q m (s ∙ decrement_length b.size (length xs) m h),
    )

pub add_clause-IsAlone :
    (a : ℕ) (c : ClauseExchange) (b : ClauseBuffer) (k : Option ClauseExchange) (xs : Cells)
    → IsAlone b k xs
    → b.elements a ≡ none
    → (b' : ClauseBuffer) × (add_clause a c b ≡ some b')
      × IsAlone b' k (xs ++ (a, c) ∷ [])
      × (b'.size ≡ increment b.size)
      × ((v : ℕ) → v ≢ a → b.elements v ≡ none → b'.elements v ≡ none)
unfolding add_clause allocate produce link swing_tail
add_clause-IsAlone a c b k xs i free =
    let out = Links-free b.elements k b.head xs a free i.links in
    let m : Elements = store b.elements a (some (element (some c) none)) in
    let links : Links m k b.head xs = Links-store b.elements k b.head xs a _ out i.links in
    let (d, at) = Links-last m k b.head xs links in
    let tail_at : m b.tail ≡ some (element d none) = rw i.at_tail at in
    let full : Elements = store m b.tail (some (element d (some a))) in
    let b₁ : ClauseBuffer = record b { elements = m } in
    let b₂ : ClauseBuffer = record b { elements = full } in
    let b₃ : ClauseBuffer = record b₂ { tail = a } in
    let b₄ : ClauseBuffer = record b₃ { size = increment b.size } in
    let self : (b.tail == b.tail) ≡ true = ground arith in
    (
      b₄,
      produce_until-step 6 (looping a c) b₁ (has_tail a c b.tail, b₁, []) refl refl
          ∙ produce_until-step 5 (has_tail a c b.tail) b₁ (has_next a c b.tail none, b₁, []) refl
              (rw (tail_at, produce) refl)
          ∙ produce_until-step 4 (has_next a c b.tail none) b₁ (checked a c b.tail none, b₁, [])
              refl (rw self refl)
          ∙ produce_until-step 3 (checked a c b.tail none) b₁ (linked a c b.tail, b₂, c ∷ []) refl
              (rw (tail_at, produce) refl)
          ∙ produce_until-step 2 (linked a c b.tail) b₂ (swung, b₃, []) refl (rw self refl)
          ∙ produce_until-step 1 swung b₃ (not_adding, b₄, []) refl refl
          ∙ returns_added 0 b₄,
      record {
        links =
            rw i.at_tail (Links-snoc m k b.head xs a c d links i.distinct out (ground arith) at);
        distinct = λ v. ground (arith, i.distinct v, occurrences-snoc v xs a c, out);
        at_tail = sym (last-snoc b.head xs a c);
      },
      refl,
      λ v n f. ground (arith, f, tail_at, n),
    )
