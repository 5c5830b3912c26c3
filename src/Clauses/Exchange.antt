-- ===== src/Clauses/Exchange.antt =====
-- clauses/ClauseExchange.h and clauses/ClauseManager.h: a shared clause and its reference count.
-- A clause is written before it is shared and only its count changes afterwards. So a value of
-- `ClauseExchange` is the pointer together with the fields, and the heap holds the counts.
pub mod Accounts
use dpainless.Prelude.{
  ℕ, suc, ◌+◌, ◌-◌, List, [], ◌∷◌, Option, none, some, ℤ, leb, ◌==◌, if◌then◌else◌,
}

-- `lbd` is `none` as long as no code has written it.
pub record ClauseExchange : Type 0 where
  pub addr : ℕ
  pub lbd : Option ℕ
  pub from : ℤ
  pub size : ℕ
  pub lits : List ℤ

-- `nb_refs a` is `none` where no clause is allocated; `malloc` hands out `next`.
pub record Heap : Type 0 where
  pub nb_refs : ℕ → Option ℕ
  pub next : ℕ

-- `none` is a fault: a clause is used after it was freed, or an index is out of range.
abbrev pub M {ℓ} : Type ℓ → Type ℓ
M A = Heap → Option (A × Heap)

abbrev pub pure {ℓ} : {A : Type ℓ} → A → M A
pure a h = some (a, h)

abbrev pub fault {ℓ} : {A : Type ℓ} → M A
fault h = none

infixl 5 ◌>>=◌ ◌>>◌
abbrev pub ◌>>=◌ {ℓ κ} : {A : Type ℓ} {B : Type κ} → M A → (A → M B) → M B
◌>>=◌ m f h = elim (m h) [ none ↦ none | some (a, h') ↦ f a h' ]

abbrev pub ◌>>◌ {ℓ} : {B : Type ℓ} → M (Unit {0}) → M B → M B
m >> k = m >>= λ _. k

abbrev pub update : (ℕ → Option ℕ) → ℕ → Option ℕ → ℕ → Option ℕ
update f p v q = if p == q then v else f q

-- What may fault, in the monad.
abbrev pub lift {ℓ} : {A : Type ℓ} → Option A → M A
lift none = fault
lift (some a) = pure a

-- A read of a field of `cls`: a fault if `cls` is freed.
unfoldable pub live : ClauseExchange → M (Unit {0})
live cls h = elim (h.nb_refs cls.addr) [ none ↦ none | some n ↦ some (tt, h) ]

-- The caller writes the other fields next; they are arguments here.
unfoldable pub alloc_clause : Option ℕ → ℤ → ℕ → List ℤ → M ClauseExchange
alloc_clause lbd from size lits h = some (
  record { addr = h.next; lbd = lbd; from = from; size = size; lits = lits },
  record { nb_refs = update h.nb_refs h.next (some 1); next = suc h.next },
)

unfoldable pub increase_clause : ClauseExchange → ℕ → M (Unit {0})
increase_clause cls refs h = elim (h.nb_refs cls.addr) [
  | none ↦ none
  | some n ↦ some (tt, record h { nb_refs = update h.nb_refs cls.addr (some (n + refs)) })
]

-- `fetch_sub` returns the old value; the clause is freed when nobody is left.
unfoldable pub release_clause : ClauseExchange → M (Unit {0})
release_clause cls h = elim (h.nb_refs cls.addr) [
  | none ↦ none
  | some old ↦ some (
    tt,
    record h {
      nb_refs = update h.nb_refs cls.addr (if leb (old - 1) 0 then none else some (old - 1));
    },
  )
]

-- The loops that release, or increase by one, each clause of a vector.
unfoldable pub release_all : List ClauseExchange → M (Unit {0})
release_all [] = pure tt
release_all (c ∷ cs) = do release_clause c; release_all cs

unfoldable pub increase_all : List ClauseExchange → M (Unit {0})
increase_all [] = pure tt
increase_all (c ∷ cs) = do increase_clause c 1; increase_all cs
