-- ===== src/Utils/Dimacs.antt =====
-- utils/SatUtils.cpp, loadFormulaToSolvers: the loop over the characters of a file. A number is taken to
-- fit into an `int`.
pub mod Format
pub mod Formula
pub mod Load
use dpainless.Prelude.{
  ℕ, ◌+◌, ◌-◌, ◌*◌, List, [], ◌∷◌, ◌++◌, Option, none, some, ℤ, pos, neg, Bool, true, false, ◌&&◌,
  ◌||◌, ◌==◌, leb, if◌then◌else◌,
}

-- Where the loop stands before the next `fgetc`: at its head, in the line of a comment or of the problem,
-- or behind a digit of a number.
pub data Mode : Type 0 where
  at_head skipping : Mode
  in_number : ℕ → Mode

pub record Reader : Type 0 where
  pub mode : Mode
  pub negative : Bool
  pub cls : List ℤ
  pub clauses : List (List ℤ)

abbrev pub new_reader : Reader
new_reader = record { mode = at_head; negative = false; cls = []; clauses = [] }

-- `isspace` and `isdigit` in the C locale.
abbrev pub is_space : ℕ → Bool
is_space c = c == b' ' || (leb 9 c && leb c 13)

abbrev pub is_digit : ℕ → Bool
is_digit c = leb b'0' c && leb c b'9'

-- The head of the loop, at a character.
unfoldable pub read_head : ℕ → Reader → Reader
read_head c r =
    if c == b'c' || c == b'p'
    then record r { mode = skipping }
    else if is_space c
    then r
    else if c == b'-'
    then record r { negative = true }
    else if is_digit c
    then record r { mode = in_number (c - b'0') }
    else r

-- The end of a number: 0 ends the clause.
unfoldable pub end_number : ℕ → Reader → Reader
end_number num r =
    if num == 0
    then record r { mode = at_head; negative = false; cls = []; clauses = r.clauses ++ r.cls ∷ [] }
    else record r {
      mode = at_head;
      negative = false;
      cls = r.cls ++ (if r.negative then neg (pos num) else pos num) ∷ [];
    }

-- The character behind a number is read with it.
unfoldable pub read_char : Mode → ℕ → Reader → Reader
unfolding read_head end_number
read_char at_head c r = read_head c r
read_char skipping c r = if c == b'\n' then record r { mode = at_head } else r
read_char (in_number num) c r =
    if is_digit c then record r { mode = in_number (num * 10 + (c - b'0')) } else end_number num r

unfoldable pub read_chars : List ℕ → Reader → Reader
unfolding read_char
read_chars [] r = r
read_chars (c ∷ cs) r = read_chars cs (read_char r.mode c r)

-- At the end of the file. `none`: the loop that looks for the end of the line goes on for ever.
unfoldable pub at_end : Mode → Reader → Option Reader
unfolding end_number
at_end at_head r = some r
at_end skipping r = none
at_end (in_number num) r = some (end_number num r)

-- The clauses of a file, in the order in which they are loaded.
unfoldable pub read_file : List ℕ → Option (List (List ℤ))
unfolding read_chars at_end
read_file cs =
    let r = read_chars cs new_reader in
    elim (at_end r.mode r) [ none ↦ none | some r' ↦ some r'.clauses ]
