-- ===== src/Utils/Model.antt =====
-- utils/SatUtils.cpp: intWidth and printModel. `log10`, and the number of digits that `printf` writes,
-- are parameters.
pub mod Width
pub mod Lines
use mathlib.Core.List.{append-nil, append_assoc}
use mathlib.Core.Path.{subst}
use native.Mathlib.Numerals.{towards_suc}
use dpainless.Prelude.{
  ℕ, zero, suc, ◌+◌, ◌-◌, ◌*◌, ◌^◌, ◌≤◌, ◌<◌, ◌≡◌, refl, ap, sym, ◌∙◌, List, [], ◌∷◌, ◌++◌, ℤ, pos,
  negsuc, abs, All, All-append, ltb, ltb→lt, le_of_ltb, ◌==◌, if◌then◌else◌, arith, branch,
  Bool-cases, inl, inr,
}

-- Two counts of decimal digits: `log10(n)`, cut off, and what `%d` writes of n.
pub record Decimal : Type 0 where
  pub log10 : ℕ → ℕ
  pub digits : ℕ → ℕ

-- The logarithm is cut off to its integer part, and `printf` writes no leading zeros.
pub record IsDecimal (d : Decimal) : Type 0 where
  pub log10_lem : (n : ℕ) → 0 < n → (10 ^ d.log10 n ≤ n) × (n < 10 ^ suc (d.log10 n))
  pub digits_lem : (n k : ℕ) → 0 < n → d.digits n ≡ suc k → (10 ^ k ≤ n) × (n < 10 ^ suc k)
  pub digits_zero : d.digits 0 ≡ 1
  pub digits_pos : (n : ℕ) → 0 < d.digits n

abbrev pub sign : ℤ → ℕ
sign (pos n) = 0
sign (negsuc n) = 1

module _ (d : Decimal) where
  unfoldable pub int_width : ℤ → ℕ
  int_width i = if abs i == 0 then 1 else sign i + 1 + d.log10 (abs i)

  -- What `printf("%d", i)` returns.
  abbrev pub printed : ℤ → ℕ
  printed i = sign i + d.digits (abs i)

  -- The lines are the numbers behind their `v`; the last one is open, and `used` is its width.
  pub record Page : Type 0 where
    pub lines : List (List ℤ)
    pub last : List ℤ
    pub used : ℕ

  abbrev pub new_line : Page → Page
  new_line p = record { lines = p.lines ++ p.last ∷ []; last = []; used = 0 }

  abbrev pub print_int : ℤ → Page → Page
  print_int i p = record p {
    last = p.last ++ i ∷ [];
    used = (if p.used == 0 then 1 else p.used) + (1 + printed i);
  }

  unfoldable pub print_one : ℤ → Page → Page
  unfolding int_width
  print_one i p = print_int i (if ltb 80 (p.used + 1 + int_width i) then new_line p else p)

  unfoldable pub print_from : List ℤ → Page → Page
  unfolding print_one
  print_from [] p = p
  print_from (i ∷ is) p = print_from is (print_one i p)

  -- The lines of a model, which a 0 ends.
  unfoldable pub print_model : List ℤ → List (List ℤ)
  unfolding print_from
  print_model model =
      let p = print_from (model ++ pos 0 ∷ []) (record { lines = []; last = []; used = 0 }) in
      p.lines ++ p.last ∷ []

  -- The characters of a line: `v`, and a space before each number.
  abbrev pub numbers_width : List ℤ → ℕ
  numbers_width [] = 0
  numbers_width (i ∷ is) = 1 + printed i + numbers_width is

  abbrev pub line_width : List ℤ → ℕ
  line_width is = 1 + numbers_width is
