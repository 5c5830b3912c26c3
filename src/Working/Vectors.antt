-- ===== src/Working/Vectors.antt =====
-- The vector helpers of working/DivideAndConquer.cpp, on vectors of worker numbers.
use dpainless.Prelude.{
  ℕ, suc, ◌-◌, ◌<◌, ◌≡◌, refl, List, [], ◌∷◌, ◌++◌, Option, none, some, Bool, true, false, arith,
  length, ◌==◌, if◌then◌else◌, occurrences,
}

-- The head and the rest; on an empty vector the source returns false and writes nothing.
unfoldable pub get_head : List ℕ → Option (ℕ × List ℕ)
get_head [] = none
get_head (w ∷ ws) = some (w, ws)

-- The first occurrence is erased.
unfoldable pub remove_from_vector : List ℕ → ℕ → List ℕ
remove_from_vector [] w = []
remove_from_vector (x ∷ xs) w = if x == w then xs else x ∷ remove_from_vector xs w

unfoldable pub does_vector_contain : List ℕ → ℕ → Bool
does_vector_contain [] w = false
does_vector_contain (x ∷ xs) w = if x == w then true else does_vector_contain xs w

unfoldable pub add_once_to_vector_tail : List ℕ → ℕ → List ℕ
unfolding does_vector_contain
add_once_to_vector_tail xs w = if does_vector_contain xs w then xs else xs ++ w ∷ []

unfoldable pub add_once_to_vector_head : List ℕ → ℕ → List ℕ
unfolding does_vector_contain
add_once_to_vector_head xs w = if does_vector_contain xs w then xs else w ∷ xs

abbrev pub is_one : ℕ → ℕ → ℕ
is_one v w = if v == w then 1 else 0

pub occurrences-remove :
    (v w : ℕ) (xs : List ℕ)
    → occurrences v (remove_from_vector xs w) ≡ occurrences v xs - is_one v w
unfolding remove_from_vector
occurrences-remove v w [] = ground arith
occurrences-remove v w (x ∷ xs) = ground (arith, occurrences-remove v w xs)

pub length-remove :
    (w : ℕ) (xs : List ℕ)
    → 0 < occurrences w xs
    → suc (length (remove_from_vector xs w)) ≡ length xs
unfolding remove_from_vector
length-remove w [] h = absurd (omega arith)
length-remove w (x ∷ xs) h = ground (arith, length-remove w xs)

pub contains_iff :
    (w : ℕ) (xs : List ℕ)
    → does_vector_contain xs w ≡ (if occurrences w xs == 0 then false else true)
unfolding does_vector_contain
contains_iff w [] = refl
contains_iff w (x ∷ xs) = ground (arith, contains_iff w xs)

pub add_tail-new :
    (w : ℕ) (xs : List ℕ) → occurrences w xs ≡ 0 → add_once_to_vector_tail xs w ≡ xs ++ w ∷ []
unfolding add_once_to_vector_tail
add_tail-new w xs h = ground (arith, contains_iff w xs)

pub add_head-new :
    (w : ℕ) (xs : List ℕ) → occurrences w xs ≡ 0 → add_once_to_vector_head xs w ≡ w ∷ xs
unfolding add_once_to_vector_head
add_head-new w xs h = ground (arith, contains_iff w xs)
