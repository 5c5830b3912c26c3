-- ===== src/Clauses/Filter/Hash.antt =====
-- The hash functions: what they read of a clause.
use Prim.Native.Nat.{bit_xor}
use mathlib.Core.List.{Permᴰ}
use dpainless.Prelude.{ℕ, ◌%◌, ◌≡◌, refl, ap, ap₂, ◌∙◌, sym, List, ◌∷◌, ℤ}
use dpainless.Prelude.Bits.{bit_xor_comm, bit_xor_assoc}
use dpainless.Clauses.Filter.{num_bits, lit_hash, hash_from, commutative_hash}

xor_swap : (r x y : ℕ) → bit_xor (bit_xor r x) y ≡ bit_xor (bit_xor r y) x
xor_swap r x y = bit_xor_assoc r x y ∙ ap (bit_xor r) (bit_xor_comm x y) ∙ sym (bit_xor_assoc r y x)

hash_from-perm :
    (which : ℕ) (xs ys : List ℤ) (res : ℕ)
    → Permᴰ xs ys
    → hash_from which xs res ≡ hash_from which ys res
unfolding hash_from
hash_from-perm which xs ys res p = go p res
  where
    go : {xs ys : List ℤ} → Permᴰ xs ys → (r : ℕ) → hash_from which xs r ≡ hash_from which ys r
    go Permᴰ.nil r = refl
    go (Permᴰ.cons {a = a} {l₂ = l₂} e p) r =
        go p (bit_xor r (lit_hash which a))
        ∙ ap (λ x. hash_from which l₂ (bit_xor r (lit_hash which x))) e
    go (Permᴰ.swap {a = a} {b = b} {l = l} e k) r =
        ap (hash_from which l) (xor_swap r (lit_hash which a) (lit_hash which b))
        ∙ ap₂ (λ x y. hash_from which l (bit_xor (bit_xor r (lit_hash which x)) (lit_hash which y)))
            k e
    go (Permᴰ.trans p q) r = go p r ∙ go q r

-- The hash depends on neither the first literal nor the order of the others.
pub commutative_hash-perm :
    (which : ℕ) (a b : ℤ) (xs ys : List ℤ)
    → Permᴰ xs ys
    → commutative_hash which (a ∷ xs) ≡ commutative_hash which (b ∷ ys)
unfolding commutative_hash
commutative_hash-perm which a b xs ys p = ap (λ h. h % num_bits) (hash_from-perm which xs ys 0 p)
