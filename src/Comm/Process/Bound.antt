-- ===== src/Comm/Process/Bound.antt =====
-- The export buffer of `2 * shr-lit` numbers against a selection of at most `shr-lit` literals.
use dpainless.Prelude.{
  ℕ, ◌+◌, ◌*◌, ◌^◌, ◌≤◌, ◌<◌, ◌≡◌, refl, List, [], ◌∷◌, none, some, ℤ, pos, arith, length,
  length-append, ◌==◌, if◌then◌else◌, All,
}
use dpainless.Clauses.Exchange.{ClauseExchange}
use dpainless.Clauses.Exchange.Accounts.{weigh}
use dpainless.Clauses.Database.{ClauseDatabase, Selection, give_selection}
use dpainless.Clauses.Database.Bounds.{HasSize, IsSorted, weigh_db}
use dpainless.Clauses.Database.Take.{literals}
use dpainless.Clauses.Database.Greedy.{IsOutcome, give_selection-Outcome}
use dpainless.Comm.Wire.{fill}
use dpainless.Comm.Wire.Layout.{payload, fill-overflow}

-- 1 for a unit clause.
abbrev pub unit_weight : ClauseExchange → ℕ
unit_weight c = if c.size == 1 then 1 else 0

-- 0 for a clause with as many literals as its size says, and at least one.
abbrev pub defect : ClauseExchange → ℕ
defect c = if c.size == length c.lits then (if c.size == 0 then 1 else 0) else 1

length-payload :
    (cs : List ClauseExchange) → weigh defect cs ≡ 0 → length (payload cs) ≡ literals cs + length cs
length-payload [] d = omega arith
length-payload (c ∷ cs) d =
    ground (arith, length-payload cs, length-append c.lits (pos 0 ∷ payload cs))

-- Two literals for each clause that is no unit.
clauses_bound :
    (cs : List ClauseExchange)
    → weigh defect cs ≡ 0
    → 2 * length cs ≤ literals cs + weigh unit_weight cs
clauses_bound [] d = omega arith
clauses_bound (c ∷ cs) d = ground (arith, clauses_bound cs)

no_units : (n : ℕ) (b : List ClauseExchange) → All (HasSize n) b → 1 < n → weigh unit_weight b ≡ 0
no_units n [] s h = refl
no_units n (c ∷ b) s h = ground (arith, no_units n b s.1 h)

no_units_db : (i : ℕ) (db : ClauseDatabase) → IsSorted i db → 0 < i → weigh_db unit_weight db ≡ 0
no_units_db i [] s h = refl
no_units_db i (b ∷ db) s h =
    omega (arith, no_units (i + 1) b s.0 (omega arith), no_units_db (i + 1) db s.2 (omega arith))

units_le_length : (b : List ClauseExchange) → weigh unit_weight b ≤ length b
units_le_length [] = omega arith
units_le_length (c ∷ b) = ground (arith, units_le_length b)

-- The first bucket is bounded, and the others hold no units.
units_bound : (db : ClauseDatabase) → IsSorted 0 db → weigh_db unit_weight db < 1000
units_bound [] s = omega arith
units_bound (b ∷ db) s =
    omega (arith, units_le_length b, no_units_db (0 + 1) db s.2 (omega arith), s.1)

pub outcome_fits :
    (db : ClauseDatabase) (shr_lit : ℕ) (db' : ClauseDatabase) (sel : Selection)
    → IsSorted 0 db
    → weigh_db defect db ≡ 0
    → 1000 ≤ shr_lit
    → IsOutcome 0 shr_lit db (record { selected = []; used = 0; select_count = 0 }) db' sel
    → 1 + length (payload sel.selected) ≤ 2 * shr_lit
outcome_fits db shr_lit db' sel s d large o =
    let sound : weigh defect sel.selected ≡ 0 = omega (arith, o.counted defect) in
    omega (
      arith,
      o.budget,
      o.volume,
      o.counted unit_weight,
      units_bound db s,
      length-payload sel.selected sound,
      clauses_bound sel.selected sound,
    )

-- From 1000 literals a round on, every selection from a sorted database, whose clauses have as many
-- literals as their size says, fits into the export buffer: the length, the literals and the separators take at most `2 * shr_lit` numbers.
pub selection_fits :
    (db : ClauseDatabase) (shr_lit : ℕ)
    → IsSorted 0 db
    → weigh_db defect db ≡ 0
    → 1000 ≤ shr_lit
    → shr_lit < 2 ^ 31
    → (db' : ClauseDatabase) × (sel : Selection) × (give_selection db [] shr_lit ≡ some (db', sel))
      × (1 + length (payload sel.selected) ≤ 2 * shr_lit)
selection_fits db shr_lit s d large small =
    let (db', sel, e, o) = give_selection-Outcome db [] shr_lit s small in
    (db', sel, e, outcome_fits db shr_lit db' sel s d large o)

literals_of_units : (cs : List ClauseExchange) → All (HasSize 1) cs → literals cs ≡ length cs
literals_of_units [] s = refl
literals_of_units (c ∷ cs) s = omega (arith, literals_of_units cs s.1)

-- As many unit clauses as the literals of a round overflow the buffer: the last 0 is written behind
-- its end.
pub units_overflow :
    (cs : List ClauseExchange) (buf : List ℤ) (shr_lit : ℕ)
    → 0 < shr_lit
    → length buf ≡ 2 * shr_lit
    → length cs ≡ shr_lit
    → weigh defect cs ≡ 0
    → All (HasSize 1) cs
    → fill cs buf ≡ none
units_overflow cs buf shr_lit h b n d s =
    fill-overflow cs buf (omega arith) (omega (arith, length-payload cs d, literals_of_units cs s))
