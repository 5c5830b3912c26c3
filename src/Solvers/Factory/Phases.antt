-- ===== src/Solvers/Factory/Phases.antt =====
-- The phases that the diversifications give.
use native.Mathlib.Nat.{mul-le-mul_right, mul_assoc}
use dpainless.Prelude.{
  map, ℕ, zero, suc, ◌+◌, ◌*◌, ◌/◌, ◌%◌, ◌^◌, ◌≤◌, ◌<◌, ◌≡◌, ◌≢◌, refl, ap, sym, ◌∙◌, true,
  Bool-cases, inl, inr, ltb, ltb→lt, le_of_ltb, ◌==◌, ==_iff, arith, occurrences,
}
use dpainless.Solvers.Factory.{
  sparse_random_from, sparse_random_diversification, sparse_from, sparse_diversification, log_of,
  bit_of, bin_value_phase,
}

-- A variable that is set lies `shift` behind a step of the loop, below the end.
sparse_from-step :
    (fuel total vars shift var v : ℕ)
    → shift < total
    → 0 < occurrences v (sparse_from fuel total vars shift var)
    → (k : ℕ) × (v ≡ var + k * total + shift) × (v < vars)
unfolding sparse_from
sparse_from-step zero total vars shift var v s h = absurd (omega (arith, h))
sparse_from-step (suc fuel) total vars shift var v s h =
    elim (Bool-cases (ltb (var + total) vars)) [
      | inr over ↦ absurd (ground (arith, h, over))
      | inl more ↦
          let room = ltb→lt (var + total) vars more in
          elim (Bool-cases (v == var + shift)) [
            | inl here ↦ (
              0,
              omega (arith, (==_iff v (var + shift)).0 here),
              omega (arith, room, (==_iff v (var + shift)).0 here),
            )
            | inr later ↦
                let (k, e, l) =
                  sparse_from-step fuel total vars shift (var + total) v s
                    (ground (arith, h, more, later)) in
                (suc k, grind (arith, e), l)
          ]
    ]

-- The same remainder below the divisor.
same_shift : (total k s l t : ℕ) → s < total → t < total → k * total + s ≡ l * total + t → s ≡ t
same_shift total zero s zero t p q e = omega (arith, e)
same_shift total zero s (suc l) t p q e = absurd (grind (arith, e))
same_shift total (suc k) s zero t p q e = absurd (grind (arith, e))
same_shift total (suc k) s (suc l) t p q e = same_shift total k s l t p q (grind (arith, e))

same_rank : (n rank rank' : ℕ) → 0 < n → rank * n ≡ rank' * n → rank ≡ rank'
same_rank n zero zero h e = refl
same_rank n zero (suc r) h e = absurd (grind (arith, e))
same_rank n (suc r) zero h e = absurd (grind (arith, e))
same_rank n (suc r) (suc r') h e = ap suc (same_rank n r r' h (grind (arith, e)))

shift_fits : (n rank size sid : ℕ) → rank < size → sid < n → rank * n + sid < size * n
shift_fits n rank size sid r s = grind arith

-- In the group of `size` processes with n solvers each, sparse diversification sets only variables
-- between 1 and the last but one, and no variable in two solvers of the group.
pub sparse_apart :
    (vars n size rank sid rank' sid' v : ℕ)
    → rank < size
    → sid < n
    → rank' < size
    → sid' < n
    → 0 < occurrences v (sparse_diversification vars n rank size sid)
    → 0 < occurrences v (sparse_diversification vars n rank' size sid')
    → (0 < v) × (v < vars) × (rank ≡ rank') × (sid ≡ sid')
unfolding sparse_diversification
sparse_apart vars n size rank sid rank' sid' v r s r' s' h h' =
    let fits = shift_fits n rank size sid r s in
    let fits' = shift_fits n rank' size sid' r' s' in
    let (k, e, l) = sparse_from-step vars (size * n) vars (rank * n + sid) 1 v fits h in
    let (k', e', l') = sparse_from-step vars (size * n) vars (rank' * n + sid') 1 v fits' h' in
    let same =
      same_shift (size * n) k (rank * n + sid) k' (rank' * n + sid') fits fits'
        (omega (arith, e, e')) in
    let same_sid = same_shift n rank sid rank' sid' s s' same in
    (
      omega (arith, e),
      l,
      same_rank n rank rank' (omega (arith, s)) (omega (arith, same, same_sid)),
      same_sid,
    )

-- The fuel is enough: every step below the end is made.
sparse_from-made :
    (fuel total vars shift var k : ℕ)
    → k < fuel
    → var + k * total + total < vars
    → 0 < occurrences (var + k * total + shift) (sparse_from fuel total vars shift var)
unfolding sparse_from
sparse_from-made zero total vars shift var k h l = absurd (omega (arith, h))
sparse_from-made (suc fuel) total vars shift var zero h l = grind (arith, l)
sparse_from-made (suc fuel) total vars shift var (suc k) h l =
    let more : ltb (var + total) vars ≡ true = grind (arith, l) in
    let same : var + total + k * total + shift ≡ var + suc k * total + shift = grind arith in
    let rest =
      sparse_from-made fuel total vars shift (var + total) k (omega (arith, h))
        (grind (arith, l)) in
    ground (
      arith,
      more,
      ap (λ v. occurrences v (sparse_from fuel total vars shift (var + total))) same,
      rest,
    )

-- The random variant sets no other variables.
sparse_random_from-le :
    (fuel n total vars shift var : ℕ) (draws : ℕ → ℕ) (i v : ℕ)
    → occurrences v (map (λ r. r.0) (sparse_random_from fuel n total vars shift var draws i))
      ≤ occurrences v (sparse_from fuel total vars shift var)
unfolding sparse_random_from sparse_from
sparse_random_from-le zero n total vars shift var draws i v = omega arith
sparse_random_from-le (suc fuel) n total vars shift var draws i v = ground (
  arith,
  sparse_random_from-le fuel n total vars shift (var + total) draws (i + 2) v,
  sparse_random_from-le fuel n total vars shift (var + total) draws (i + 1) v,
)

-- So it sets no variable in two solvers of the group either.
pub sparse_random_apart :
    (vars n size rank sid rank' sid' v : ℕ) (draws draws' : ℕ → ℕ)
    → rank < size
    → sid < n
    → rank' < size
    → sid' < n
    → 0 < occurrences v (map (λ r. r.0) (sparse_random_diversification vars n rank size sid draws))
    → 0
      < occurrences v (map (λ r. r.0) (sparse_random_diversification vars n rank' size sid' draws'))
    → (0 < v) × (v < vars) × (rank ≡ rank') × (sid ≡ sid')
unfolding sparse_random_diversification sparse_diversification
sparse_random_apart vars n size rank sid rank' sid' v draws draws' r s r' s' h h' =
    sparse_apart vars n size rank sid rank' sid' v r s r' s'
      (omega (arith, h, sparse_random_from-le vars n (size * n) vars (rank * n + sid) 1 draws 0 v))
      (omega
        (arith, h', sparse_random_from-le vars n (size * n) vars (rank' * n + sid') 1 draws' 0 v))

double_pow : (k : ℕ) → 2 ^ suc k ≡ 2 * 2 ^ k
double_pow k = grind arith

halved : (tmp log m : ℕ) → suc (tmp / 2) * 2 ^ (log + 1) ≤ m → suc tmp * 2 ^ log ≤ m
halved tmp log m h =
    let one_more : log + 1 ≡ suc log = omega arith in
    let two : 2 ^ (log + 1) ≡ 2 * 2 ^ log = ap (λ k. 2 ^ k) one_more ∙ double_pow log in
    let fewer : suc tmp * 2 ^ log ≤ suc (tmp / 2) * 2 * 2 ^ log =
      mul-le-mul_right (2 ^ log) (omega arith) in
    omega (arith, h, fewer, ap (λ x. suc (tmp / 2) * x) two, mul_assoc (suc (tmp / 2)) 2 (2 ^ log))

log_of-bound : (fuel tmp log : ℕ) → tmp ≤ fuel → suc tmp * 2 ^ log ≤ 2 ^ log_of fuel tmp log
unfolding log_of
log_of-bound zero zero log h = omega arith
log_of-bound zero (suc tmp) log h = absurd (omega (arith, h))
log_of-bound (suc fuel) tmp log h = elim (Bool-cases (ltb 0 tmp)) [
  | inr none_left ↦ rw (none_left, log_of) (grind (arith, le_of_ltb 0 tmp none_left))
  | inl more ↦
      rw (more, log_of)
        (halved tmp log (2 ^ log_of fuel (tmp / 2) (log + 1))
          (log_of-bound fuel (tmp / 2) (log + 1) (omega (arith, h, ltb→lt 0 tmp more))))
]

bit_of-lt : (x k : ℕ) → bit_of x k < 2
unfolding bit_of
bit_of-lt x zero = omega arith
bit_of-lt x (suc k) = bit_of-lt (x / 2) k

-- Two numbers of b bits differ in a bit.
differing_bit :
    (b x y : ℕ) → x < 2 ^ b → y < 2 ^ b → x ≢ y → (k : ℕ) × (k < b) × (bit_of x k ≢ bit_of y k)
unfolding bit_of
differing_bit zero x y p q n = absurd (n (omega (arith, p, q)))
differing_bit (suc b) x y p q n = elim (Bool-cases (x % 2 == y % 2)) [
  | inr odd ↦ (0, omega arith, λ e. ground (arith, odd, e))
  | inl even ↦
      let (k, l, d) =
        differing_bit b (x / 2) (y / 2) (omega (arith, p, double_pow b))
          (omega (arith, q, double_pow b))
          (λ e. n (omega (arith, e, (==_iff (x % 2) (y % 2)).0 even))) in
      (suc k, omega (arith, l), d)
]

phase_of-bit :
    (n x y v : ℕ)
    → bin_value_phase n x v ≡ bin_value_phase n y v
    → bit_of x (v % log_of n n 0) ≡ bit_of y (v % log_of n n 0)
unfolding bin_value_phase
phase_of-bit n x y v e =
    ground (arith, e, bit_of-lt x (v % log_of n n 0), bit_of-lt y (v % log_of n n 0))

-- If there are more variables than the number of solvers has bits, and one over, binary diversification
-- gives any two solvers different phases for some variable.
pub bin_value_apart :
    (vars n sid sid' : ℕ)
    → log_of n n 0 < vars
    → sid < n
    → sid' < n
    → sid ≢ sid'
    → (v : ℕ) × (0 < v) × (v < vars) × (bin_value_phase n sid v ≢ bin_value_phase n sid' v)
bin_value_apart vars n sid sid' h s s' d =
    let bound = log_of-bound n n 0 (omega arith) in
    let (k, l, e) =
      differing_bit (log_of n n 0) sid sid' (omega (arith, bound, s)) (omega (arith, bound, s'))
        d in
    elim (Bool-cases (k == 0)) [
      | inl first ↦
          let at0 : log_of n n 0 % log_of n n 0 ≡ k = grind (arith, first, l) in
          (
            log_of n n 0,
            omega (arith, l),
            h,
            λ same. e (
                ap (bit_of sid) (sym at0)
                ∙ phase_of-bit n sid sid' (log_of n n 0) same
                ∙ ap (bit_of sid') at0),
          )
      | inr other ↦
          let at_k : k % log_of n n 0 ≡ k = grind (arith, l) in
          (
            k,
            ground (arith, other),
            omega (arith, l, h),
            λ same. e (
                ap (bit_of sid) (sym at_k)
                ∙ phase_of-bit n sid sid' k same
                ∙ ap (bit_of sid') at_k),
          )
    ]
