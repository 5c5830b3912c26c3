-- ===== src/Solvers/Literals.antt =====
-- The macros of solvers/Maple.cpp between the literals of the program and those of the solver.
use mathlib.Core.Path.{subst}
use dpainless.Prelude.{
  ℕ, zero, suc, ◌<◌, ◌≡◌, refl, ap, ap₂, ◌∙◌, sym, ℤ, pos, negsuc, neg, Bool, true, false,
  if◌then◌else◌, arith,
}
use dpainless.Solvers.Native.{SimpSolver}

-- a - 1 and a + 1
abbrev pub pred : ℤ → ℤ
pred (pos zero) = negsuc zero
pred (pos (suc n)) = pos n
pred (negsuc n) = negsuc (suc n)

abbrev pub succ : ℤ → ℤ
succ (pos n) = pos (suc n)
succ (negsuc zero) = pos zero
succ (negsuc (suc n)) = negsuc n

-- A literal of the program: not 0.
abbrev pub IsLit : ℤ → Type 0
IsLit (pos n) = 0 < n
IsLit (negsuc n) = Unit

module _ {T L : Type 0} (solver : SimpSolver T L) where
  -- MINI_LIT: `lit - 1`, or `-lit - 1` with the sign.
  unfoldable pub mini_lit : ℤ → L
  mini_lit (pos zero) = solver.mk_lit (pred (neg (pos zero))) true
  mini_lit (pos (suc n)) = solver.mk_lit (pred (pos (suc n))) false
  mini_lit (negsuc n) = solver.mk_lit (pred (neg (negsuc n))) true

  -- INT_LIT
  unfoldable pub int_lit : L → ℤ
  int_lit l = if solver.sign l then neg (succ (solver.var l)) else succ (solver.var l)

  -- A literal of the solver with a variable.
  abbrev pub HasVar : L → Type 0
  HasVar l = (n : ℕ) × (solver.var l ≡ pos n)

  pub int_lit-mini_lit : (l : ℤ) → IsLit l → int_lit (mini_lit l) ≡ l
  unfolding int_lit mini_lit
  int_lit-mini_lit (pos zero) h = absurd (omega arith)
  int_lit-mini_lit (pos (suc n)) h =
      rw (solver.sign-mk_lit (pos n) false) (ap succ (solver.var-mk_lit (pos n) false))
  int_lit-mini_lit (negsuc n) h =
      rw (solver.sign-mk_lit (pos n) true) (ap (λ v. neg (succ v)) (solver.var-mk_lit (pos n) true))

  -- By the sign of the literal.
  mini_lit-signed :
      (l : L) (n : ℕ) (s : Bool)
      → solver.var l ≡ pos n
      → solver.sign l ≡ s
      → mini_lit (if s then neg (pos (suc n)) else pos (suc n))
        ≡ solver.mk_lit (solver.var l) (solver.sign l)
  unfolding mini_lit
  mini_lit-signed l n true v s = ap₂ solver.mk_lit (sym v) (sym s)
  mini_lit-signed l n false v s = ap₂ solver.mk_lit (sym v) (sym s)

  pub mini_lit-int_lit : (l : L) → HasVar l → mini_lit (int_lit l) ≡ l
  unfolding int_lit
  mini_lit-int_lit l (n, v) =
      ap (λ x. mini_lit (if solver.sign l then neg (succ x) else succ x)) v
      ∙ mini_lit-signed l n (solver.sign l) v refl
      ∙ solver.mk_lit-var l

  signed-IsLit : (n : ℕ) (s : Bool) → IsLit (if s then neg (pos (suc n)) else pos (suc n))
  signed-IsLit n true = tt
  signed-IsLit n false = omega arith

  pub IsLit-int_lit : (l : L) → HasVar l → IsLit (int_lit l)
  unfolding int_lit
  IsLit-int_lit l (n, v) =
      subst (λ x. IsLit (if solver.sign l then neg (succ x) else succ x)) (sym v)
        (signed-IsLit n (solver.sign l))
