-- ===== src/Comm/Wire/Layout.antt =====
-- What `fill` writes, and when it writes out of bounds.
use dpainless.Prelude.{
  ℕ, ◌+◌, ◌≤◌, ◌<◌, ◌≡◌, refl, ◌∙◌, List, [], ◌∷◌, ◌++◌, none, some, ℤ, pos, arith, length,
  length-set, get_elem?, set, get_elem?-set_self, get_elem?-set_ne, Option-cases, inl, inr,
}
use dpainless.Clauses.Exchange.{ClauseExchange}
use dpainless.Comm.Wire.{Cursor, put, put_lits, put_clauses, seal, fill}

-- What stands behind the length: the literals of each clause, and a 0.
abbrev pub payload : List ClauseExchange → List ℤ
payload [] = []
payload (c ∷ cs) = c.lits ++ pos 0 ∷ payload cs

-- A list written over an array.
abbrev pub overwrite : List ℤ → ℕ → List ℤ → List ℤ
overwrite buf i [] = buf
overwrite buf i (x ∷ xs) = overwrite (set buf i x) (i + 1) xs

put_lits-append :
    (xs ys : List ℤ) (cur : Cursor)
    → put_lits (xs ++ ys) cur ≡ elim (put_lits xs cur) [ none ↦ none | some c ↦ put_lits ys c ]
unfolding put_lits
put_lits-append [] ys cur = refl
put_lits-append (x ∷ xs) ys cur = elim (Option-cases (put x cur)) [
  | inl e ↦ rw (e, put_lits) refl
  | inr (c, e) ↦ rw (e, put_lits) (put_lits-append xs ys c)
]

put_clauses-payload :
    (cs : List ClauseExchange) (cur : Cursor) → put_clauses cs cur ≡ put_lits (payload cs) cur
unfolding put_clauses put_lits
put_clauses-payload [] cur = refl
put_clauses-payload (c ∷ cs) cur =
    rw (put_lits-append c.lits (pos 0 ∷ payload cs) cur)
      (elim (Option-cases (put_lits c.lits cur)) [
        | inl e ↦ rw (e, put_clauses) refl
        | inr (d, e) ↦
            rw (e, put_clauses)
              (elim (Option-cases (put (pos 0) d)) [
                | inl e' ↦ rw (e', put_clauses, put_lits) refl
                | inr (d', e') ↦ rw (e', put_clauses, put_lits) (put_clauses-payload cs d')
              ])
      ])

put_lits-fits :
    (xs : List ℤ) (buf : List ℤ) (i : ℕ)
    → i + length xs ≤ length buf
    → put_lits xs (buf, i) ≡ some (overwrite buf i xs, i + length xs)
unfolding put_lits put
put_lits-fits [] buf i h = ground arith
put_lits-fits (x ∷ xs) buf i h =
    ground (arith, put_lits-fits xs (set buf i x) (i + 1), length-set buf i x)

put_lits-overflow :
    (xs : List ℤ) (buf : List ℤ) (i : ℕ)
    → i ≤ length buf
    → length buf < i + length xs
    → put_lits xs (buf, i) ≡ none
unfolding put_lits put
put_lits-overflow [] buf i k h = absurd (omega arith)
put_lits-overflow (x ∷ xs) buf i k h =
    ground (arith, put_lits-overflow xs (set buf i x) (i + 1), length-set buf i x)

length-overwrite : (xs : List ℤ) (buf : List ℤ) (i : ℕ) → length (overwrite buf i xs) ≡ length buf
length-overwrite [] buf i = refl
length-overwrite (x ∷ xs) buf i = length-overwrite xs (set buf i x) (i + 1) ∙ length-set buf i x

pub message : List ClauseExchange → List ℤ → List ℤ
message cs buf = set (overwrite buf 1 (payload cs)) 0 (pos (length (payload cs)))

-- If the length, the literals and the separators fit, the buffer is filled without a write out of
-- bounds. Then it holds the length, and the payload behind it.
pub fill-fits :
    (cs : List ClauseExchange) (buf : List ℤ)
    → 1 + length (payload cs) ≤ length buf
    → fill cs buf ≡ some (message cs buf)
unfolding fill seal message
fill-fits cs buf h =
    rw (put_clauses-payload cs (buf, 1) ∙ put_lits-fits (payload cs) buf 1 h, fill)
      (ground (arith, length-overwrite (payload cs) buf 1))

-- A buffer with room for the length, but not for the literals and separators of all clauses, is
-- written out of bounds.
pub fill-overflow :
    (cs : List ClauseExchange) (buf : List ℤ)
    → 1 ≤ length buf
    → length buf < 1 + length (payload cs)
    → fill cs buf ≡ none
unfolding fill
fill-overflow cs buf k h =
    rw (put_clauses-payload cs (buf, 1) ∙ put_lits-overflow (payload cs) buf 1 k h, fill) refl

pub length-message :
    (cs : List ClauseExchange) (buf : List ℤ) → length (message cs buf) ≡ length buf
unfolding message
length-message cs buf =
    length-set (overwrite buf 1 (payload cs)) 0 (pos (length (payload cs)))
    ∙ length-overwrite (payload cs) buf 1

-- What can be read from index `i` on.
abbrev pub At : List ℤ → ℕ → List ℤ → Type 0
At buf i [] = Unit
At buf i (x ∷ xs) = (get_elem? buf i ≡ some x) × At buf (i + 1) xs

get_elem?-overwrite :
    (xs : List ℤ) (buf : List ℤ) (i j : ℕ)
    → j < i
    → get_elem? (overwrite buf i xs) j ≡ get_elem? buf j
get_elem?-overwrite [] buf i j h = refl
get_elem?-overwrite (x ∷ xs) buf i j h =
    get_elem?-overwrite xs (set buf i x) (i + 1) j (omega arith)
    ∙ get_elem?-set_ne buf x (omega arith)

At-overwrite :
    (xs : List ℤ) (buf : List ℤ) (i : ℕ) → i + length xs ≤ length buf → At (overwrite buf i xs) i xs
At-overwrite [] buf i h = tt
At-overwrite (x ∷ xs) buf i h = (
  get_elem?-overwrite xs (set buf i x) (i + 1) i (omega arith)
      ∙ get_elem?-set_self buf i x (omega arith),
  At-overwrite xs (set buf i x) (i + 1) (omega (arith, length-set buf i x)),
)

At-set_zero :
    (xs : List ℤ) (buf : List ℤ) (i : ℕ) (v : ℤ) → 0 < i → At buf i xs → At (set buf 0 v) i xs
At-set_zero [] buf i v h a = tt
At-set_zero (x ∷ xs) buf i v h a =
    (get_elem?-set_ne buf v (omega arith) ∙ a.0, At-set_zero xs buf (i + 1) v (omega arith) a.1)

-- The message can be read back, index by index.
pub message-At :
    (cs : List ClauseExchange) (buf : List ℤ)
    → 1 + length (payload cs) ≤ length buf
    → At (message cs buf) 0 (pos (length (payload cs)) ∷ payload cs)
unfolding message
message-At cs buf h = (
  get_elem?-set_self (overwrite buf 1 (payload cs)) 0 (pos (length (payload cs)))
      (omega (arith, length-overwrite (payload cs) buf 1)),
  At-set_zero (payload cs) (overwrite buf 1 (payload cs)) (0 + 1) (pos (length (payload cs)))
      (omega arith) (At-overwrite (payload cs) buf 1 h),
)
