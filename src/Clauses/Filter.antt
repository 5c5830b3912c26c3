-- ===== src/Clauses/Filter.antt =====
-- clauses/ClauseFilter.cpp: a Bloom filter with four hash functions, and a set of units.
pub mod Hash
pub mod Laws
use Prim.Native.Nat.{bit_xor}
use dpainless.Prelude.{
  ℕ, zero, suc, ◌+◌, ◌-◌, ◌*◌, ◌%◌, ◌^◌, Bool, true, false, ◌&&◌, ◌||◌, List, [], ◌∷◌, Option, none,
  some, ℤ, pos, negsuc, abs, ◌==◌, if◌then◌else◌,
}

abbrev pub num_primes : ℕ
num_primes = 12

abbrev pub num_bits : ℕ
num_bits = 26843543

-- `primes[i]`; the index is always below `num_primes`.
unfoldable pub prime_at : ℕ → ℕ
prime_at zero = 2038072819
prime_at (suc zero) = 2038073287
prime_at (suc (suc zero)) = 2038073761
prime_at (suc (suc (suc zero))) = 2038074317
prime_at (suc (suc (suc (suc zero)))) = 2038072823
prime_at (suc (suc (suc (suc (suc zero))))) = 2038073321
prime_at (suc (suc (suc (suc (suc (suc zero)))))) = 2038073767
prime_at (suc (suc (suc (suc (suc (suc (suc zero))))))) = 2038074319
prime_at (suc (suc (suc (suc (suc (suc (suc (suc zero)))))))) = 2038072847
prime_at (suc (suc (suc (suc (suc (suc (suc (suc (suc zero))))))))) = 2038073341
prime_at (suc (suc (suc (suc (suc (suc (suc (suc (suc (suc zero)))))))))) = 2038073789
prime_at (suc (suc (suc (suc (suc (suc (suc (suc (suc (suc (suc rest))))))))))) = 2038074329

-- An `int` converted to `unsigned`.
abbrev pub to_unsigned : ℤ → ℕ
to_unsigned (pos n) = n % 2 ^ 32
to_unsigned (negsuc n) = 2 ^ 32 - 1 - n % 2 ^ 32

-- `lit * primes[abs((which * lit) % NUM_PRIMES)]`, an `unsigned`. The C remainder takes the sign of
-- its operand, so its absolute value is the remainder of the absolute value.
unfoldable pub lit_hash : ℕ → ℤ → ℕ
unfolding prime_at
lit_hash which lit = to_unsigned lit * prime_at ((which * abs lit) % num_primes) % 2 ^ 32

-- The loop of `commutativeHashFunction`, from the literal at hand on.
unfoldable pub hash_from : ℕ → List ℤ → ℕ → ℕ
unfolding lit_hash
hash_from which [] res = res
hash_from which (lit ∷ lits) res = hash_from which lits (bit_xor res (lit_hash which lit))

-- The loop starts at index 1.
unfoldable pub commutative_hash : ℕ → List ℤ → ℕ
unfolding hash_from
commutative_hash which [] = 0 % num_bits
commutative_hash which (glue ∷ lits) = hash_from which lits 0 % num_bits

-- `bits` is the bitset, `units` the set of unit clauses.
pub record ClauseFilter : Type 0 where
  pub bits : ℕ → Bool
  pub units : List ℤ

unfoldable pub new_filter : ClauseFilter
new_filter = record { bits = λ _. false; units = [] }

abbrev pub lit_eq : ℤ → ℤ → Bool
lit_eq (pos a) (pos b) = a == b
lit_eq (negsuc a) (negsuc b) = a == b
lit_eq (pos a) (negsuc b) = false
lit_eq (negsuc a) (pos b) = false

-- `unitSet.count`
unfoldable pub has_unit : List ℤ → ℤ → Bool
has_unit [] l = false
has_unit (k ∷ ks) l = lit_eq k l || has_unit ks l

abbrev pub set_bit : (ℕ → Bool) → ℕ → ℕ → Bool
set_bit bits i j = if i == j then true else bits j

abbrev pub test_all : ClauseFilter → List ℤ → Bool
test_all s cls =
    s.bits (commutative_hash 1 cls)
    && s.bits (commutative_hash 2 cls)
    && s.bits (commutative_hash 3 cls)
    && s.bits (commutative_hash 4 cls)

abbrev pub set_all : (ℕ → Bool) → List ℤ → ℕ → Bool
set_all bits cls =
    set_bit
      (set_bit (set_bit (set_bit bits (commutative_hash 1 cls)) (commutative_hash 2 cls))
        (commutative_hash 3 cls))
      (commutative_hash 4 cls)

-- The branch for clauses that are no units.
unfoldable pub register_hashed : ClauseFilter → List ℤ → Bool × ClauseFilter
register_hashed s cls =
    if test_all s cls then (false, s) else (true, record s { bits = set_all s.bits cls })

unfoldable pub register_unit : ClauseFilter → ℤ → Bool × ClauseFilter
unfolding has_unit
register_unit s lit =
    if has_unit s.units lit then (false, s) else (true, record s { units = lit ∷ s.units })

-- The size of the array is the length of the list.
unfoldable pub register_clause : ClauseFilter → List ℤ → Bool × ClauseFilter
unfolding register_hashed register_unit
register_clause s (lit ∷ []) = register_unit s lit
register_clause s [] = register_hashed s []
register_clause s (lit ∷ lit' ∷ lits) = register_hashed s (lit ∷ lit' ∷ lits)

-- `s1->reset()`
unfoldable pub clear : ClauseFilter → ClauseFilter
clear s = record s { bits = λ _. false }
