-- ===== src/Comm/Group.antt =====
-- `MpiComm::init`: which ranks a process shares its clauses with, and the loop that sends to them.
use Prim.Native.Nat.{◌/◌, ◌*◌}
use dpainless.Prelude.{
  ℕ, zero, suc, ◌+◌, ◌-◌, ◌≤◌, ◌<◌, ◌≡◌, List, [], ◌∷◌, arith, ltb, leb, ◌&&◌, occurrences, ◌==◌,
  if◌then◌else◌,
}

pub record ShareRange : Type 0 where
  pub lower : ℕ
  pub upper : ℕ

-- `sharingGroupSize` 0 stands for one group of all ranks.
unfoldable pub init_range : ℕ → ℕ → ℕ → ShareRange
init_range rank size group =
    let upper = rank / group * group + group in
    if group == 0
    then record { lower = 0; upper = size }
    else record { lower = rank / group * group; upper = if ltb size upper then size else upper }

-- The targets of the loop `for (i = clsShrLowerRank; i < clsShrUpperRank; i++)`, with the rounds
-- that are left.
unfoldable pub targets_from : ℕ → ℕ → ℕ → List ℕ
targets_from zero i rank = []
targets_from (suc rounds) i rank =
    let rest = targets_from rounds (i + 1) rank in if i == rank then rest else i ∷ rest

unfoldable pub targets : ShareRange → ℕ → List ℕ
unfolding targets_from
targets r rank = targets_from (r.upper - r.lower) r.lower rank

abbrev pub InRange : ℕ → ShareRange → Type 0
InRange i r = (r.lower ≤ i) × (i < r.upper)

quotient_bounds : (n g : ℕ) → 0 < g → (n / g * g ≤ n) × (n < n / g * g + g)
quotient_bounds n g h = omega arith

-- The block of `g` numbers that starts at `q * g` holds exactly the numbers with quotient `q`.
quotient_unique : (n q g : ℕ) → 0 < g → q * g ≤ n → n < q * g + g → n / g ≡ q
quotient_unique n q g h l u = grind (arith, quotient_bounds n g h)

-- A rank lies in its own range, and the range holds ranks only.
pub own-InRange :
    (rank size group : ℕ)
    → rank < size
    → InRange rank (init_range rank size group) × ((init_range rank size group).upper ≤ size)
unfolding init_range
own-InRange rank size group h = grind (arith, quotient_bounds rank group)

-- The ranges are groups: a rank in the range of another has the same range.
pub init_range-same :
    (rank other size group : ℕ)
    → other < size
    → InRange other (init_range rank size group)
    → init_range other size group ≡ init_range rank size group
unfolding init_range
init_range-same rank other size group h r =
    ground (arith, quotient_unique other (rank / group) group)

occurrences-targets_from :
    (i rounds start rank : ℕ)
    → occurrences i (targets_from rounds start rank)
      ≡ (if i == rank then 0 else if leb start i && ltb i (start + rounds) then 1 else 0)
unfolding targets_from
occurrences-targets_from i zero start rank = ground arith
occurrences-targets_from i (suc rounds) start rank =
    ground (arith, occurrences-targets_from i rounds (start + 1) rank)

-- A message goes to every other rank of the group exactly once, and to nobody else.
pub occurrences-targets :
    (i rank size group : ℕ)
    → rank < size
    → occurrences i (targets (init_range rank size group) rank) ≡ (
        if i == rank
        then 0
        else if leb (init_range rank size group).lower i && ltb i (init_range rank size group).upper
        then 1
        else 0)
unfolding targets
occurrences-targets i rank size group h = ground (
  arith,
  own-InRange rank size group h,
  occurrences-targets_from i
      ((init_range rank size group).upper - (init_range rank size group).lower)
      (init_range rank size group).lower rank,
)
