-- ===== src/Utils/Dimacs/Formula.antt =====
-- What is read from a file in the DIMACS format.
use mathlib.Core.List.{append-nil, append_assoc}
use dpainless.Prelude.{
  ℕ, ◌+◌, ◌*◌, ◌<◌, ◌≡◌, refl, sym, ap, ◌∙◌, List, [], ◌∷◌, ◌++◌, Option, none, some, ℤ, pos, neg,
  Bool, true, false, All, ◌==◌, if◌then◌else◌, arith, map,
}
use dpainless.Utils.Dimacs.{
  Mode, at_head, skipping, in_number, Reader, new_reader, is_space, read_head, end_number,
  read_char, read_chars, at_end, read_file,
}
use dpainless.Utils.Dimacs.Format.{
  value_from, literal, digit_text, numeral_text, Word, IsWord, words_text, Line, remark, clause,
  IsLine, line_text, file_text, formula,
}

abbrev with_cls : List ℤ → List (List ℤ) → Reader
with_cls cls done = record { mode = at_head; negative = false; cls = cls; clauses = done }

read_chars-append :
    (xs ys : List ℕ) (r : Reader) → read_chars (xs ++ ys) r ≡ read_chars ys (read_chars xs r)
unfolding read_chars
read_chars-append [] ys r = refl
read_chars-append (x ∷ xs) ys r = read_chars-append xs ys (read_char r.mode x r)

read_digit :
    (d n : ℕ) (r : Reader)
    → d < 10
    → read_char (in_number n) (b'0' + d) r ≡ record r { mode = in_number (n * 10 + d) }
unfolding read_char
read_digit d n r h = ground (arith, h)

read_behind :
    (space n : ℕ) (minus : Bool) (cls : List ℤ) (done : List (List ℤ))
    → is_space space ≡ true
    → 0 < n
    → read_char
        (in_number n)
        space
        (record { mode = in_number n; negative = minus; cls = cls; clauses = done })
      ≡ with_cls (cls ++ (if minus then neg (pos n) else pos n) ∷ []) done
unfolding read_char end_number
read_behind space n minus cls done s p = ground (arith, s, p)

read_digits :
    (ds : List ℕ) (n space : ℕ) (minus : Bool) (cls : List ℤ) (done : List (List ℤ)) (rest : List ℕ)
    → All (λ d. d < 10) ds
    → is_space space ≡ true
    → 0 < value_from n ds
    → read_chars
        (digit_text ds ++ space ∷ rest)
        (record { mode = in_number n; negative = minus; cls = cls; clauses = done })
      ≡ read_chars rest (
          with_cls
            (cls ++ (if minus then neg (pos (value_from n ds)) else pos (value_from n ds)) ∷ [])
            done)
unfolding read_chars
read_digits [] n space minus cls done rest h s p =
    ap (read_chars rest) (read_behind space n minus cls done s p)
read_digits (d ∷ ds) n space minus cls done rest h s p =
    ap (read_chars (digit_text ds ++ space ∷ rest)) (
      read_digit d n (record { mode = in_number n; negative = minus; cls = cls; clauses = done })
        h.0)
    ∙ read_digits ds (n * 10 + d) space minus cls done rest h.1 s p

read_first :
    (d : ℕ) (r : Reader) → d < 10 → read_char at_head (b'0' + d) r ≡ record r { mode = in_number d }
unfolding read_char read_head
read_first d r h = ground (arith, h)

read_minus :
    (cls : List ℤ) (done : List (List ℤ))
    → read_char at_head b'-' (with_cls cls done)
      ≡ record { mode = at_head; negative = true; cls = cls; clauses = done }
unfolding read_char read_head
read_minus cls done = refl

-- A literal with the white space behind it, and whatever follows.
read_literal :
    (minus : Bool) (d : ℕ) (ds : List ℕ) (space : ℕ) (cls : List ℤ) (done : List (List ℤ))
    (rest : List ℕ)
    → IsWord (record { minus = minus; first = d; more = ds }, space)
    → read_chars
        (numeral_text (record { minus = minus; first = d; more = ds }) ++ space ∷ rest)
        (with_cls cls done)
      ≡ read_chars rest
          (with_cls (cls ++ literal (record { minus = minus; first = d; more = ds }) ∷ []) done)
unfolding read_chars
read_literal false d ds space cls done rest ((h, hs, p), s) =
    ap (read_chars (digit_text ds ++ space ∷ rest)) (read_first d (with_cls cls done) h)
    ∙ read_digits ds d space false cls done rest hs s p
read_literal true d ds space cls done rest ((h, hs, p), s) =
    ap (read_chars ((b'0' + d) ∷ digit_text ds ++ space ∷ rest)) (read_minus cls done)
    ∙ ap (read_chars (digit_text ds ++ space ∷ rest))
        (read_first d (record { mode = at_head; negative = true; cls = cls; clauses = done }) h)
    ∙ read_digits ds d space true cls done rest hs s p

read_words :
    (ws : List Word) (cls : List ℤ) (done : List (List ℤ)) (rest : List ℕ)
    → All IsWord ws
    → read_chars (words_text ws ++ rest) (with_cls cls done)
      ≡ read_chars rest (with_cls (cls ++ map (λ w. literal w.0) ws) done)
read_words [] cls done rest h = ap (λ x. read_chars rest (with_cls x done)) (sym (append-nil cls))
read_words ((t, space) ∷ ws) cls done rest h =
    ap (λ x. read_chars x (with_cls cls done))
      (append_assoc (numeral_text t) (space ∷ words_text ws) rest)
    ∙ read_literal t.minus t.first t.more space cls done (words_text ws ++ rest) h.0
    ∙ read_words ws (cls ++ literal t ∷ []) done rest h.1
    ∙ ap (λ x. read_chars rest (with_cls x done))
        (append_assoc cls (literal t ∷ []) (map (λ w. literal w.0) ws))

read_zero :
    (cls : List ℤ) (done : List (List ℤ)) (rest : List ℕ)
    → read_chars (b'0' ∷ b'\n' ∷ rest) (with_cls cls done)
      ≡ read_chars rest (with_cls [] (done ++ cls ∷ []))
unfolding read_chars read_char read_head end_number
read_zero cls done rest = refl

read_skipped : (c : ℕ) (r : Reader) → (c == b'\n') ≡ false → read_char skipping c r ≡ r
unfolding read_char
read_skipped c r h = ground (arith, h)

-- A line that is skipped, up to its end.
skip :
    (text : List ℕ) (r : Reader) (rest : List ℕ)
    → r.mode ≡ skipping
    → All (λ c. (c == b'\n') ≡ false) text
    → read_chars (text ++ rest) r ≡ read_chars rest r
unfolding read_chars
skip [] r rest m h = refl
skip (c ∷ text) r rest m h =
    ap (λ k. read_chars (text ++ rest) (read_char k c r)) m
    ∙ ap (read_chars (text ++ rest)) (read_skipped c r h.0)
    ∙ skip text r rest m h.1

abbrev in_remark : List (List ℤ) → Reader
in_remark done = record { mode = skipping; negative = false; cls = []; clauses = done }

read_remark_start :
    (p : Bool) (done : List (List ℤ))
    → read_char at_head (if p then b'p' else b'c') (with_cls [] done) ≡ in_remark done
unfolding read_char read_head
read_remark_start true done = refl
read_remark_start false done = refl

read_newline : (done : List (List ℤ)) → read_char skipping b'\n' (in_remark done) ≡ with_cls [] done
unfolding read_char
read_newline done = refl

read_line :
    (l : Line) (done : List (List ℤ)) (rest : List ℕ)
    → IsLine l
    → read_chars (line_text l ++ rest) (with_cls [] done)
      ≡ read_chars rest (with_cls [] (done ++ formula (l ∷ [])))
unfolding read_chars
read_line (remark p text) done rest h =
    ap (read_chars ((text ++ b'\n' ∷ []) ++ rest)) (read_remark_start p done)
    ∙ ap (λ x. read_chars x (in_remark done)) (append_assoc text (b'\n' ∷ []) rest)
    ∙ skip text (in_remark done) (b'\n' ∷ rest) refl h
    ∙ ap (read_chars rest) (read_newline done)
    ∙ ap (λ x. read_chars rest (with_cls [] x)) (sym (append-nil done))
read_line (clause ws) done rest h =
    ap (λ x. read_chars x (with_cls [] done))
      (append_assoc (words_text ws) (b'0' ∷ b'\n' ∷ []) rest)
    ∙ read_words ws [] done (b'0' ∷ b'\n' ∷ rest) h
    ∙ read_zero (map (λ w. literal w.0) ws) done rest

formula-cons : (l : Line) (ls : List Line) → formula (l ∷ []) ++ formula ls ≡ formula (l ∷ ls)
formula-cons (remark p text) ls = refl
formula-cons (clause ws) ls = refl

read_lines :
    (ls : List Line) (done : List (List ℤ)) (rest : List ℕ)
    → All IsLine ls
    → read_chars (file_text ls ++ rest) (with_cls [] done)
      ≡ read_chars rest (with_cls [] (done ++ formula ls))
read_lines [] done rest h = ap (λ x. read_chars rest (with_cls [] x)) (sym (append-nil done))
read_lines (l ∷ ls) done rest h =
    ap (λ x. read_chars x (with_cls [] done)) (append_assoc (line_text l) (file_text ls) rest)
    ∙ read_line l done (file_text ls ++ rest) h.0
    ∙ read_lines ls (done ++ formula (l ∷ [])) rest h.1
    ∙ ap (λ x. read_chars rest (with_cls [] x))
        (append_assoc done (formula (l ∷ [])) (formula ls) ∙ ap (◌++◌ done) (formula-cons l ls))

read_file_rest :
    (ls : List Line) (rest : List ℕ) (r : Reader)
    → All IsLine ls
    → read_chars rest (with_cls [] (formula ls)) ≡ r
    → read_file (file_text ls ++ rest)
      ≡ (elim (at_end r.mode r) [ none ↦ none | some r' ↦ some r'.clauses ])
unfolding read_file
read_file_rest ls rest r h e =
    ap
      (λ x. elim (at_end x.mode x) as (λ _. Option (List (List ℤ))) [
        | none ↦ none
        | some r' ↦ some r'.clauses
      ])
      (read_lines ls [] rest h ∙ e)

pub read_file-formula :
    (ls : List Line) → All IsLine ls → read_file (file_text ls) ≡ some (formula ls)
unfolding at_end read_chars
read_file-formula ls h =
    ap read_file (sym (append-nil (file_text ls)))
    ∙ read_file_rest ls [] (with_cls [] (formula ls)) h refl

pub read_file-unfinished :
    (ls : List Line) (ws : List Word) (p : Bool) (text : List ℕ)
    → All IsLine ls
    → All IsWord ws
    → IsLine (remark p text)
    → (read_file (file_text ls ++ words_text ws) ≡ some (formula ls))
      × (read_file (file_text ls ++ (if p then b'p' else b'c') ∷ text) ≡ none)
unfolding at_end read_chars
read_file-unfinished ls ws p text h k t = (
  read_file_rest ls (words_text ws) (with_cls (map (λ w. literal w.0) ws) (formula ls)) h (
      ap (λ x. read_chars x (with_cls [] (formula ls))) (sym (append-nil (words_text ws)))
      ∙ read_words ws [] (formula ls) [] k),
  read_file_rest ls ((if p then b'p' else b'c') ∷ text) (in_remark (formula ls)) h (
      ap (read_chars text) (read_remark_start p (formula ls))
      ∙ ap (λ x. read_chars x (in_remark (formula ls))) (sym (append-nil text))
      ∙ skip text (in_remark (formula ls)) [] refl t),
)

read_newline-mode : (m : Mode) (r : Reader) → r.mode ≡ m → (read_char m b'\n' r).mode ≡ at_head
unfolding read_char read_head end_number
read_newline-mode at_head r e = e
read_newline-mode skipping r e = refl
read_newline-mode (in_number num) r e = ground arith

-- The loop ends on every text, in the format or not, whose last character ends a line.
pub read_file-ends :
    (cs : List ℕ) → (clauses : List (List ℤ)) × (read_file (cs ++ b'\n' ∷ []) ≡ some clauses)
unfolding read_file at_end read_chars
read_file-ends cs =
    let r = read_chars cs new_reader in
    let r' = read_char r.mode b'\n' r in
    (
      r'.clauses,
      ap
            (λ x. elim (at_end x.mode x) as (λ _. Option (List (List ℤ))) [
              | none ↦ none
              | some q ↦ some q.clauses
            ])
            (read_chars-append cs (b'\n' ∷ []) new_reader)
          ∙ ap
              (λ m. elim (at_end m r') as (λ _. Option (List (List ℤ))) [
                | none ↦ none
                | some q ↦ some q.clauses
              ])
              (read_newline-mode r.mode r refl),
    )
