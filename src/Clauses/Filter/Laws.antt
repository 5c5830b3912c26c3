-- ===== src/Clauses/Filter/Laws.antt =====
-- What the filter answers after it was offered other clauses.
use mathlib.Core.List.{Permᴰ}
use dpainless.Prelude.{
  ℕ, ◌≡◌, refl, List, [], ◌∷◌, true, false, ℤ, pos, negsuc, arith, ==_iff, ap, sym, ◌∙◌, ◌≢◌,
}
use dpainless.Clauses.Filter.{
  ClauseFilter, lit_eq, has_unit, commutative_hash, register_clause, register_hashed, register_unit,
  clear,
}
use dpainless.Clauses.Filter.Hash.{commutative_hash-perm}

-- The filter after a clause has been offered, and whether it was refused.
abbrev pub after : ClauseFilter → List ℤ → ClauseFilter
after s cls = (register_clause s cls).1

abbrev pub Refused : ClauseFilter → List ℤ → Type 0
Refused s cls = (register_clause s cls).0 ≡ false

-- A history of offers.
unfoldable pub after_all : ClauseFilter → List (List ℤ) → ClauseFilter
after_all s [] = s
after_all s (cls ∷ rest) = after_all (after s cls) rest

lit_eq_refl : (l : ℤ) → lit_eq l l ≡ true
lit_eq_refl (pos n) = ground arith
lit_eq_refl (negsuc n) = ground arith

register_hashed_twice :
    (s : ClauseFilter) (cls : List ℤ) → (register_hashed (register_hashed s cls).1 cls).0 ≡ false
unfolding register_hashed
register_hashed_twice s cls = ground arith

register_unit_twice : (s : ClauseFilter) (l : ℤ) → (register_unit (register_unit s l).1 l).0 ≡ false
unfolding register_unit has_unit
register_unit_twice s l = ground (arith, lit_eq_refl l)

Refused-after : (s : ClauseFilter) (cls : List ℤ) → Refused (after s cls) cls
unfolding register_clause
Refused-after s [] = register_hashed_twice s []
Refused-after s (l ∷ []) = register_unit_twice s l
Refused-after s (l ∷ l' ∷ ls) = register_hashed_twice s (l ∷ l' ∷ ls)

-- Nothing that the filter holds is taken out by an offer.
record Grows (s t : ClauseFilter) : Type 0 where
  bit : (i : ℕ) → s.bits i ≡ true → t.bits i ≡ true
  unit : (l : ℤ) → has_unit s.units l ≡ true → has_unit t.units l ≡ true

hashed-Grows : (s : ClauseFilter) (cls : List ℤ) → Grows s (register_hashed s cls).1
unfolding register_hashed
hashed-Grows s cls = record { bit = λ i h. ground arith; unit = λ l h. ground arith }

unit-Grows : (s : ClauseFilter) (k : ℤ) → Grows s (register_unit s k).1
unfolding register_unit has_unit
unit-Grows s k = record { bit = λ i h. ground arith; unit = λ l h. ground arith }

after-Grows : (s : ClauseFilter) (cls : List ℤ) → Grows s (after s cls)
unfolding register_clause
after-Grows s [] = hashed-Grows s []
after-Grows s (l ∷ []) = unit-Grows s l
after-Grows s (l ∷ l' ∷ ls) = hashed-Grows s (l ∷ l' ∷ ls)

hashed-refused_mono :
    (s t : ClauseFilter) (cls : List ℤ)
    → Grows s t
    → (register_hashed s cls).0 ≡ false
    → (register_hashed t cls).0 ≡ false
unfolding register_hashed
hashed-refused_mono s t cls g h = ground (
  arith,
  g.bit (commutative_hash 1 cls),
  g.bit (commutative_hash 2 cls),
  g.bit (commutative_hash 3 cls),
  g.bit (commutative_hash 4 cls),
)

unit-refused_mono :
    (s t : ClauseFilter) (l : ℤ)
    → Grows s t
    → (register_unit s l).0 ≡ false
    → (register_unit t l).0 ≡ false
unfolding register_unit
unit-refused_mono s t l g h = ground (arith, g.unit l)

Refused-Grows : (s t : ClauseFilter) (cls : List ℤ) → Grows s t → Refused s cls → Refused t cls
unfolding register_clause
Refused-Grows s t [] g h = hashed-refused_mono s t [] g h
Refused-Grows s t (l ∷ []) g h = unit-refused_mono s t l g h
Refused-Grows s t (l ∷ l' ∷ ls) g h = hashed-refused_mono s t (l ∷ l' ∷ ls) g h

Refused-after_all :
    (s : ClauseFilter) (cls : List ℤ) (rest : List (List ℤ))
    → Refused s cls
    → Refused (after_all s rest) cls
unfolding after_all
Refused-after_all s cls [] h = h
Refused-after_all s cls (c ∷ rest) h =
    Refused-after_all (after s c) cls rest (Refused-Grows s (after s c) cls (after-Grows s c) h)

pub offered-Refused :
    (s : ClauseFilter) (cls : List ℤ) (rest : List (List ℤ))
    → Refused (after_all (after s cls) rest) cls
offered-Refused s cls rest = Refused-after_all (after s cls) cls rest (Refused-after s cls)

hashed-same :
    (s : ClauseFilter) (c d : List ℤ)
    → ((which : ℕ) → commutative_hash which c ≡ commutative_hash which d)
    → (register_hashed s c).0 ≡ (register_hashed s d).0
unfolding register_hashed
hashed-same s c d e = ground (arith, e 1, e 2, e 3, e 4)

-- Two clauses of at least two literals that differ in their first literals, and in the order of
-- the others, are the same clause for the filter: after one has been offered the other is refused.
pub tail_only-Refused :
    (s : ClauseFilter) (a b l m : ℤ) (xs ys : List ℤ)
    → Permᴰ (l ∷ xs) (m ∷ ys)
    → Refused (after s (a ∷ l ∷ xs)) (b ∷ m ∷ ys)
unfolding register_clause
tail_only-Refused s a b l m xs ys p =
    sym (
      hashed-same (register_hashed s (a ∷ l ∷ xs)).1 (a ∷ l ∷ xs) (b ∷ m ∷ ys)
        (λ which. commutative_hash-perm which a b (l ∷ xs) (m ∷ ys) p))
    ∙ register_hashed_twice s (a ∷ l ∷ xs)

-- `clear` forgets every clause of two literals or more, and no unit: a unit clause is refused
-- after it exactly if it was refused before.
pub clear_keeps_units :
    (s : ClauseFilter) (l a b : ℤ) (ls : List ℤ)
    → ((register_clause (clear s) (a ∷ b ∷ ls)).0 ≡ true)
      × ((register_clause (clear s) (l ∷ [])).0 ≡ (register_clause s (l ∷ [])).0)
unfolding register_clause register_hashed register_unit clear
clear_keeps_units s l a b ls = (refl, ground arith)

lit_eq_sound : (k l : ℤ) → lit_eq k l ≡ true → k ≡ l
lit_eq_sound (pos a) (pos b) h = ap pos ((==_iff a b).0 h)
lit_eq_sound (negsuc a) (negsuc b) h = ap negsuc ((==_iff a b).0 h)
lit_eq_sound (pos a) (negsuc b) h = cc
lit_eq_sound (negsuc a) (pos b) h = cc

-- A unit clause is let in exactly once: offering it does not make the filter refuse another unit.
pub unit_exact :
    (s : ClauseFilter) (k l : ℤ)
    → k ≢ l
    → ((register_clause (after s (k ∷ [])) (k ∷ [])).0 ≡ false)
      × ((register_clause (after s (k ∷ [])) (l ∷ [])).0 ≡ (register_clause s (l ∷ [])).0)
unfolding register_clause register_unit has_unit
unit_exact s k l ne = (register_unit_twice s k, ground (arith, lit_eq_sound k l))
