-- ===== src/Clauses/Buffer/Chain.antt =====
-- The elements behind the head of a queue, as a list of addresses and clauses.
use dpainless.Prelude.{
  ℕ, ◌+◌, ◌≤◌, ◌<◌, ◌≡◌, refl, ap, List, [], ◌∷◌, ◌++◌, Option, none, some, arith, length,
  occurrences, ◌==◌, if◌then◌else◌,
}
use dpainless.Clauses.Exchange.{ClauseExchange}
use dpainless.Clauses.Buffer.Queue.{ListElement, Elements, element, store}

abbrev pub Cells : Type 0
Cells = List (ℕ × ClauseExchange)

abbrev pub addresses : Cells → List ℕ
addresses [] = []
addresses ((p, c) ∷ xs) = p ∷ addresses xs

abbrev pub clauses : Cells → List (Option ClauseExchange)
clauses [] = []
clauses ((p, c) ∷ xs) = some c ∷ clauses xs

abbrev pub first : Cells → Option ℕ
first [] = none
first ((q, c) ∷ xs) = some q

-- The address of the last element.
abbrev pub last : ℕ → Cells → ℕ
last p [] = p
last p ((q, c) ∷ xs) = last q xs

-- From `p`, whose element holds `k`, the elements are linked in this order.
abbrev pub Links : Elements → Option ClauseExchange → ℕ → Cells → Type 0
Links m k p [] = m p ≡ some (element k none)
Links m k p ((q, c) ∷ xs) = (m p ≡ some (element k (some q))) × Links m (some c) q xs

pub clauses-snoc :
    (xs : Cells) (p : ℕ) (c : ClauseExchange)
    → clauses (xs ++ (p, c) ∷ []) ≡ clauses xs ++ some c ∷ []
clauses-snoc [] p c = refl
clauses-snoc ((q, d) ∷ xs) p c = ap (λ l. some d ∷ l) (clauses-snoc xs p c)

pub occurrences-snoc :
    (v : ℕ) (xs : Cells) (p : ℕ) (c : ClauseExchange)
    → occurrences v (addresses (xs ++ (p, c) ∷ []))
      ≡ occurrences v (addresses xs) + (if v == p then 1 else 0)
occurrences-snoc v [] p c = omega arith
occurrences-snoc v ((q, d) ∷ xs) p c = omega (arith, occurrences-snoc v xs p c)

pub last-snoc : (h : ℕ) (xs : Cells) (p : ℕ) (c : ClauseExchange) → last h (xs ++ (p, c) ∷ []) ≡ p
last-snoc h [] p c = refl
last-snoc h ((q, d) ∷ xs) p c = last-snoc q xs p c

pub last-occurs :
    (h : ℕ) (x : ℕ × ClauseExchange) (xs : Cells)
    → 0 < occurrences (last h (x ∷ xs)) (addresses (x ∷ xs))
last-occurs h (q, c) [] = ground arith
last-occurs h (q, c) (y ∷ xs) = ground (arith, last-occurs q y xs)

pub last-inside : (h : ℕ) (xs : Cells) → 0 < occurrences (last h xs) (h ∷ addresses xs)
last-inside h [] = ground arith
last-inside h (x ∷ xs) = omega (arith, last-occurs h x xs)

-- A write elsewhere.
pub Links-store :
    (m : Elements) (k : Option ClauseExchange) (p : ℕ) (xs : Cells) (v : ℕ) (e : Option ListElement)
    → occurrences v (p ∷ addresses xs) ≡ 0
    → Links m k p xs
    → Links (store m v e) k p xs
Links-store m k p [] v e n l = ground (arith, l)
Links-store m k p ((q, c) ∷ xs) v e n l =
    (ground (arith, l.0), Links-store m (some c) q xs v e (omega arith) l.1)

-- The element of the last address.
pub Links-last :
    (m : Elements) (k : Option ClauseExchange) (p : ℕ) (xs : Cells)
    → Links m k p xs
    → (d : Option ClauseExchange) × (m (last p xs) ≡ some (element d none))
Links-last m k p [] l = (k, l)
Links-last m k p ((q, c) ∷ xs) l = Links-last m (some c) q xs l.1

-- The write that links a new element behind the last one.
pub Links-snoc :
    (m : Elements) (k : Option ClauseExchange) (p : ℕ) (xs : Cells) (node : ℕ) (c : ClauseExchange)
    (d : Option ClauseExchange)
    → Links m k p xs
    → ((v : ℕ) → occurrences v (p ∷ addresses xs) ≤ 1)
    → occurrences node (p ∷ addresses xs) ≡ 0
    → m node ≡ some (element (some c) none)
    → m (last p xs) ≡ some (element d none)
    → Links (store m (last p xs) (some (element d (some node)))) k p (xs ++ (node, c) ∷ [])
Links-snoc m k p [] node c d l u n e f = (ground (arith, l, f), ground (arith, e))
Links-snoc m k p ((q, b) ∷ xs) node c d l u n e f = (
  ground (arith, l.0, u (last q xs), last-occurs p (q, b) xs),
  Links-snoc m (some b) q xs node c d l.1 (λ v. omega (arith, u v)) (omega arith) e f,
)

pub first-append : (xs ys : Cells) → 0 < length xs → first (xs ++ ys) ≡ first xs
first-append [] ys h = absurd (omega arith)
first-append (x ∷ xs) ys h = refl

pub length-append_pos : (xs ys : Cells) → 0 < length xs → 0 < length (xs ++ ys)
length-append_pos [] ys h = absurd (omega arith)
length-append_pos (x ∷ xs) ys h = omega arith

-- An address without an element is not linked.
pub Links-free :
    (m : Elements) (k : Option ClauseExchange) (p : ℕ) (xs : Cells) (v : ℕ)
    → m v ≡ none
    → Links m k p xs
    → occurrences v (p ∷ addresses xs) ≡ 0
Links-free m k p [] v e l = ground (arith, l)
Links-free m k p ((q, c) ∷ xs) v e l = ground (arith, Links-free m (some c) q xs v e l.1, l.0)
