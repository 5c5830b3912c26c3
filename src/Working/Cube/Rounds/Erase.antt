-- ===== src/Working/Cube/Rounds/Erase.antt =====
-- How often a worker stands in the vectors of cube and conquer, once workers are erased from them.
use dpainless.Prelude.{
  ℕ, suc, ◌+◌, ◌≤◌, ◌<◌, ◌≡◌, refl, ◌∙◌, List, [], ◌∷◌, arith, length, ◌==◌, if◌then◌else◌,
  occurrences,
}
use dpainless.Working.Cube.Rounds.{erase_worker}

pub occurrences-erase :
    (v w : ℕ) (xs : List ℕ)
    → occurrences v (erase_worker w xs) ≡ (if v == w then 0 else occurrences v xs)
unfolding erase_worker
occurrences-erase v w [] = ground arith
occurrences-erase v w (x ∷ xs) = ground (arith, occurrences-erase v w xs)

pub length-erase : (w : ℕ) (xs : List ℕ) → length (erase_worker w xs) + occurrences w xs ≡ length xs
unfolding erase_worker
length-erase w [] = omega arith
length-erase w (x ∷ xs) = ground (arith, length-erase w xs)

-- Erasing one after the other.
abbrev pub erase_all : List ℕ → List ℕ → List ℕ
erase_all [] xs = xs
erase_all (w ∷ ws) xs = erase_all ws (erase_worker w xs)

pub occurrences-erase_all_le :
    (v : ℕ) (ws xs : List ℕ) → occurrences v (erase_all ws xs) ≤ occurrences v xs
occurrences-erase_all_le v [] xs = omega arith
occurrences-erase_all_le v (w ∷ ws) xs =
    ground (arith, occurrences-erase_all_le v ws (erase_worker w xs), occurrences-erase v w xs)

pub occurrences-erase_all_other :
    (v : ℕ) (ws xs : List ℕ)
    → occurrences v ws ≡ 0
    → occurrences v (erase_all ws xs) ≡ occurrences v xs
occurrences-erase_all_other v [] xs h = refl
occurrences-erase_all_other v (w ∷ ws) xs h =
    occurrences-erase_all_other v ws (erase_worker w xs) (ground (arith, h))
    ∙ ground (arith, h, occurrences-erase v w xs)

pub occurrences-head_self : (w : ℕ) (ws : List ℕ) → 0 < occurrences w (w ∷ ws)
occurrences-head_self w ws = ground arith

-- Workers that stand in a vector once, and in another: what is true of one round of a loop.
abbrev pub IsWithin : List ℕ → List ℕ → Type 0
IsWithin ws xs = (v : ℕ) → occurrences v ws ≤ occurrences v xs

abbrev pub IsOnce : List ℕ → Type 0
IsOnce xs = (v : ℕ) → occurrences v xs ≤ 1

pub erase-IsOnce : (w : ℕ) (xs : List ℕ) → IsOnce xs → IsOnce (erase_worker w xs)
erase-IsOnce w xs o v = ground (arith, occurrences-erase v w xs, o v)

pub erase-IsWithin :
    (w : ℕ) (ws xs : List ℕ) → IsOnce xs → IsWithin (w ∷ ws) xs → IsWithin ws (erase_worker w xs)
erase-IsWithin w ws xs o i v = ground (arith, occurrences-erase v w xs, i v, o v)

length-erase_head :
    (w : ℕ) (ws xs : List ℕ)
    → IsOnce xs
    → IsWithin (w ∷ ws) xs
    → suc (length (erase_worker w xs)) ≡ length xs
length-erase_head w ws xs o i =
    omega (arith, length-erase w xs, o w, i w, occurrences-head_self w ws)

pub length-erase_all :
    (ws xs : List ℕ) → IsOnce xs → IsWithin ws xs → length (erase_all ws xs) + length ws ≡ length xs
length-erase_all [] xs o i = omega arith
length-erase_all (w ∷ ws) xs o i = omega (
  arith,
  length-erase_all ws (erase_worker w xs) (erase-IsOnce w xs o) (erase-IsWithin w ws xs o i),
  length-erase_head w ws xs o i,
)

-- Distinct workers of a vector are no more than the vector is long.
pub length-le_of_IsWithin : (ws xs : List ℕ) → IsOnce xs → IsWithin ws xs → length ws ≤ length xs
length-le_of_IsWithin ws xs o i = omega (arith, length-erase_all ws xs o i)
