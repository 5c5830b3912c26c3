-- ===== src/Utils/Model/Width.antt =====
-- The widths that printModel foresees.
use dpainless.Prelude.{
  ℕ, zero, suc, ◌+◌, ◌*◌, ◌^◌, ◌≤◌, ◌<◌, ◌≡◌, refl, ℤ, pos, negsuc, ltb, ltb→lt, le_of_ltb, arith,
  Bool-cases, inl, inr,
}
use dpainless.Utils.Model.{Decimal, IsDecimal, int_width, printed}

pub pow_step : (k : ℕ) → 10 ^ suc k ≡ 10 * 10 ^ k
pow_step k = grind arith

pow_mono : (a b : ℕ) → a ≤ b → 10 ^ a ≤ 10 ^ b
pow_mono zero zero h = omega arith
pow_mono zero (suc b) h = omega (arith, pow_mono zero b (omega arith), pow_step b)
pow_mono (suc a) zero h = absurd (omega arith)
pow_mono (suc a) (suc b) h = omega (arith, pow_mono a b (omega arith), pow_step a, pow_step b)

-- A number lies between two neighbouring powers of ten in one way.
same_power : (n a b : ℕ) → 10 ^ a ≤ n → n < 10 ^ suc a → 10 ^ b ≤ n → n < 10 ^ suc b → a ≡ b
same_power n a b p q r s = elim (Bool-cases (ltb a b)) [
  | inl lt ↦ absurd (omega (arith, pow_mono (suc a) b (ltb→lt a b lt)))
  | inr ge ↦ elim (Bool-cases (ltb b a)) [
    | inl lt ↦ absurd (omega (arith, pow_mono (suc b) a (ltb→lt b a lt)))
    | inr le ↦ omega (arith, le_of_ltb a b ge, le_of_ltb b a le)
  ]
]

module _ (d : Decimal) (law : IsDecimal d) where
  digits-log10 : (n : ℕ) → 0 < n → (k : ℕ) → d.digits n ≡ k → d.digits n ≡ 1 + d.log10 n
  digits-log10 n h zero e = absurd (omega (arith, law.digits_pos n, e))
  digits-log10 n h (suc k) e =
      let (p, q) = law.log10_lem n h in
      let (r, s) = law.digits_lem n k h e in omega (arith, same_power n (d.log10 n) k p q r s, e)

  -- `intWidth` foresees what is printed.
  pub int_width-printed : (i : ℤ) → int_width d i ≡ printed d i
  unfolding int_width
  int_width-printed (pos zero) = omega (arith, law.digits_zero)
  int_width-printed (pos (suc n)) =
      ground (arith, digits-log10 (suc n) (omega arith) (d.digits (suc n)) refl)
  int_width-printed (negsuc n) =
      ground (arith, digits-log10 (suc n) (omega arith) (d.digits (suc n)) refl)
