-- ===== src/Working/Divide/Balance.antt =====
-- The four vectors as a partition of the workers, and the counters that go with them.
use dpainless.Prelude.{
  ℕ, ◌+◌, ◌<◌, ◌≤◌, ◌≡◌, refl, List, [], ◌∷◌, Option, some, ℤ, arith, length, length-append,
  occurrences, occurrences-append, ap,
}
use dpainless.Working.Strategy.{Call}
use dpainless.Working.Vectors.{get_head, is_one, occurrences-remove, length-remove, add_tail-new}
use dpainless.Working.Divide.{DivideAndConquer, interrupt_worker, split_with}

pub record IsBalanced (dc : DivideAndConquer) : Type 0 where
  pub placed :
      (v : ℕ)
      → occurrences v dc.overs
          + occurrences v dc.workers
          + (occurrences v dc.workers_splitting + occurrences v dc.overs_splitting)
        ≡ occurrences v dc.slaves
  pub once : (v : ℕ) → occurrences v dc.slaves ≤ 1
  pub counted : dc.n_workers ≡ length dc.workers + length dc.workers_splitting
  pub paired : length dc.workers_splitting ≡ length dc.overs_splitting

-- A worker that has a cube to solve.
abbrev pub IsActive : DivideAndConquer → ℕ → Type 0
IsActive dc w = 0 < occurrences w dc.workers + occurrences w dc.workers_splitting

pub get_head-some :
    (xs : List ℕ)
    → 0 < length xs
    → (x : ℕ) × (rest : List ℕ) × (get_head xs ≡ some (x, rest)) × (xs ≡ x ∷ rest)
unfolding get_head
get_head-some [] h = absurd (omega arith)
get_head-some (x ∷ rest) h = (x, rest, refl, refl)

pub positive_length : (v : ℕ) (xs : List ℕ) → 0 < occurrences v xs → 0 < length xs
positive_length v [] h = absurd (omega arith)
positive_length v (x ∷ xs) h = omega arith

-- What remains of a vector of which `x` is the head.
pub occurrences-head :
    (v x : ℕ) (xs rest : List ℕ)
    → xs ≡ x ∷ rest
    → occurrences v xs ≡ is_one v x + occurrences v rest
occurrences-head v x xs rest e = ap (occurrences v) e

module _ (dc : DivideAndConquer) (b : IsBalanced dc) where
  pub split_with-IsBalanced :
      (current over : ℕ) (rest : List ℕ) (var : ℤ) (cloned : Option ℕ) (calls : List Call)
      → 0 < occurrences current dc.workers_splitting
      → dc.overs_splitting ≡ over ∷ rest
      → IsBalanced (split_with current over rest var cloned calls dc).0
  unfolding split_with
  split_with-IsBalanced current over rest var cloned calls a e = record {
    placed = λ v. ground (
      arith,
      b.placed v,
      occurrences-head v over dc.overs_splitting rest e,
      occurrences-append v dc.workers (current ∷ over ∷ []),
      occurrences-remove v current dc.workers_splitting,
    );
    once = b.once;
    counted = omega (
      arith,
      b.counted,
      length-append dc.workers (current ∷ over ∷ []),
      length-remove current dc.workers_splitting a,
    );
    paired = omega (arith, b.paired, ap length e, length-remove current dc.workers_splitting a);
  }

  pub interrupt_worker-IsBalanced :
      (w o : ℕ) (workers overs : List ℕ)
      → dc.workers ≡ w ∷ workers
      → dc.overs ≡ o ∷ overs
      → IsBalanced (interrupt_worker w workers o overs dc).0
  unfolding interrupt_worker
  interrupt_worker-IsBalanced w o workers overs e k =
      let new_w : occurrences w dc.workers_splitting ≡ 0 =
        ground (arith, b.placed w, b.once w, occurrences-head w w dc.workers workers e) in
      let new_o : occurrences o dc.overs_splitting ≡ 0 =
        ground (arith, b.placed o, b.once o, occurrences-head o o dc.overs overs k) in
      rw (add_tail-new w dc.workers_splitting new_w, add_tail-new o dc.overs_splitting new_o)
        (record {
          placed = λ v. omega (
            arith,
            b.placed v,
            occurrences-head v w dc.workers workers e,
            occurrences-head v o dc.overs overs k,
            occurrences-append v dc.workers_splitting (w ∷ []),
            occurrences-append v dc.overs_splitting (o ∷ []),
          );
          once = b.once;
          counted =
              omega (arith, b.counted, ap length e, length-append dc.workers_splitting (w ∷ []));
          paired = omega (
            arith,
            b.paired,
            length-append dc.workers_splitting (w ∷ []),
            length-append dc.overs_splitting (o ∷ []),
          );
        })
