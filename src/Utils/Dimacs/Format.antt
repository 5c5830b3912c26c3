-- ===== src/Utils/Dimacs/Format.antt =====
-- Files in the DIMACS format: what they are made of, and the formula that they state.
use dpainless.Prelude.{
  ℕ, ◌+◌, ◌*◌, ◌<◌, ◌≡◌, List, [], ◌∷◌, ◌++◌, ℤ, pos, neg, Bool, true, false, All, ◌==◌,
  if◌then◌else◌, map,
}
use dpainless.Utils.Dimacs.{is_space}

-- A literal as it is written, with any number of digits.
pub record Numeral : Type 0 where
  pub minus : Bool
  pub first : ℕ
  pub more : List ℕ

abbrev pub value_from : ℕ → List ℕ → ℕ
value_from n [] = n
value_from n (d ∷ ds) = value_from (n * 10 + d) ds

abbrev pub magnitude : Numeral → ℕ
magnitude t = value_from t.first t.more

abbrev pub literal : Numeral → ℤ
literal t = if t.minus then neg (pos (magnitude t)) else pos (magnitude t)

abbrev pub IsLiteral : Numeral → Type 0
IsLiteral t = (t.first < 10) × All (λ d. d < 10) t.more × (0 < magnitude t)

abbrev pub digit_text : List ℕ → List ℕ
digit_text = map (λ d. b'0' + d)

abbrev pub numeral_text : Numeral → List ℕ
numeral_text t = (if t.minus then b'-' ∷ [] else []) ++ (b'0' + t.first) ∷ digit_text t.more

-- A literal and the white space behind it.
abbrev pub Word : Type 0
Word = Numeral × ℕ

abbrev pub IsWord : Word → Type 0
IsWord (t, space) = IsLiteral t × (is_space space ≡ true)

abbrev pub words_text : List Word → List ℕ
words_text [] = []
words_text ((t, space) ∷ ws) = numeral_text t ++ space ∷ words_text ws

-- A comment or the line of the problem, or a clause up to the end of its line.
pub data Line : Type 0 where
  remark : Bool → List ℕ → Line
  clause : List Word → Line

abbrev pub IsLine : Line → Type 0
IsLine (remark p text) = All (λ c. (c == b'\n') ≡ false) text
IsLine (clause ws) = All IsWord ws

abbrev pub line_text : Line → List ℕ
line_text (remark p text) = (if p then b'p' else b'c') ∷ text ++ b'\n' ∷ []
line_text (clause ws) = words_text ws ++ b'0' ∷ b'\n' ∷ []

abbrev pub file_text : List Line → List ℕ
file_text [] = []
file_text (l ∷ ls) = line_text l ++ file_text ls

-- The clauses that the file states.
abbrev pub formula : List Line → List (List ℤ)
formula [] = []
formula (remark p text ∷ ls) = formula ls
formula (clause ws ∷ ls) = map (λ w. literal w.0) ws ∷ formula ls
