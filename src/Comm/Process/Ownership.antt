-- ===== src/Comm/Process/Ownership.antt =====
-- The references that a process holds for the others, and for what came from them.
use dpainless.Prelude.{ℕ, ◌+◌, ◌≤◌, ◌<◌, ◌≡◌, refl, List, [], ◌∷◌, arith, All, ◌==◌}
use dpainless.Clauses.Exchange.{ClauseExchange, Heap, pure, increase_clause}
use dpainless.Clauses.Exchange.Accounts.{
  count, IsAccounted, IsAccounted-cong, Runs, Runs-if, Runs-bind, increase_clause-Runs, HasLits,
  count-append,
}
use dpainless.Clauses.Filter.{ClauseFilter, register_clause}
use dpainless.Clauses.Database.{add_clause}
use dpainless.Clauses.Database.Bounds.{IsSorted, count_db}
use dpainless.Clauses.Database.Ownership.{add_clause-Runs}
use dpainless.Clauses.Buffer.{BufferApi}
use dpainless.Comm.Process.{
  MpiComm, store_to_export, add_to_external, add_each_to_external, add_clauses_to_external,
  get_clauses_from_external,
}

module _ {B : Type 0} (api : BufferApi B) where
  -- The references of the process to the clauses that wait for export, or that came in.
  abbrev pub count_comm : ℕ → MpiComm api → ℕ
  count_comm a comm =
      count a (api.contents comm.inbox.clauses_to_import) + count_db a comm.clauses_to_export

  -- With `f` the references of all others.
  abbrev pub OwnedComm : (ℕ → ℕ) → MpiComm api → Heap → Type 0
  OwnedComm f comm h =
      IsSorted 0 comm.clauses_to_export × IsAccounted h (λ a. count_comm a comm + f a)

  module _ (c : ClauseExchange) (f : ℕ → ℕ) (held : 0 < f c.addr) (lits : HasLits c) where
    store_to_export-Runs :
        (comm : MpiComm api) (h : Heap)
        → OwnedComm f comm h
        → Runs (store_to_export api c comm) h (OwnedComm f)
    unfolding store_to_export
    store_to_export-Runs comm h o =
        Runs-bind (increase_clause c 1) _ h _ _ (increase_clause-Runs c 1 h _ o.1 (omega arith))
          (λ _ h' v.
            Runs-bind (add_clause comm.clauses_to_export c) _ h' _ _
              (add_clause-Runs comm.clauses_to_export c h'
                (λ a. count a (api.contents comm.inbox.clauses_to_import) + f a) _ v
                (λ a. omega arith) o.0 lits.0 lits.1)
              (λ db h'' k. (
                record comm { clauses_to_export = db },
                h'',
                refl,
                (k.0, IsAccounted-cong (λ a. omega arith) k.1),
              )))

    add_to_external-Runs :
        (comm : MpiComm api) (h : Heap)
        → OwnedComm f comm h
        → Runs (add_to_external api c comm) h (OwnedComm f)
    unfolding add_to_external
    add_to_external-Runs comm h o =
        let filter : ClauseFilter = (register_clause comm.inbox.external_filter c.lits).1 in
        let comm' : MpiComm api = record comm {
          inbox = record comm.inbox { external_filter = filter };
        } in
        Runs-if (register_clause comm.inbox.external_filter c.lits).0 (store_to_export api c comm')
          (pure comm') h (OwnedComm f) (store_to_export-Runs comm' h o) (comm', h, refl, o)

  add_each_to_external-Runs :
      (cs : List ClauseExchange) (f : ℕ → ℕ) (comm : MpiComm api) (h : Heap)
      → OwnedComm f comm h
      → ((a : ℕ) → count a cs ≤ f a)
      → All HasLits cs
      → Runs (add_each_to_external api cs comm) h (OwnedComm f)
  unfolding add_each_to_external
  add_each_to_external-Runs [] f comm h o held lits = (comm, h, refl, o)
  add_each_to_external-Runs (c ∷ cs) f comm h o held lits =
      Runs-bind (add_to_external api c comm) _ h _ _
        (add_to_external-Runs c f (ground (arith, held c.addr)) lits.0 comm h o)
        (λ comm' h' o'.
          add_each_to_external-Runs cs f comm' h' o' (λ a. omega (arith, held a)) lits.1)

  -- Clauses that the caller holds are offered to the other processes without a fault. The process takes a reference
  -- of its own to each that it keeps, and to no other.
  pub add_clauses_to_external-Runs :
      (cs : List ClauseExchange) (f : ℕ → ℕ) (comm : MpiComm api) (h : Heap)
      → OwnedComm f comm h
      → ((a : ℕ) → count a cs ≤ f a)
      → All HasLits cs
      → Runs (add_clauses_to_external api cs comm) h (OwnedComm f)
  unfolding add_clauses_to_external
  add_clauses_to_external-Runs cs f comm h o held lits =
      Runs-if (comm.size == 1) (pure comm) (add_each_to_external api cs comm) h (OwnedComm f)
        (comm, h, refl, o) (add_each_to_external-Runs cs f comm h o held lits)

  -- What came from outside is handed on: the vector gets the references that the process gives up.
  pub get_clauses_from_external-count :
      (cs : List ClauseExchange) (comm : MpiComm api) (a : ℕ)
      → count a (get_clauses_from_external api cs comm).0
          + count_comm a (get_clauses_from_external api cs comm).1
        ≡ count a cs + count_comm a comm
  unfolding get_clauses_from_external
  get_clauses_from_external-count cs comm a =
      rw
        (
          api.get-contents comm.inbox.clauses_to_import,
          api.contents-get comm.inbox.clauses_to_import,
        )
        (omega (arith, count-append a cs (api.contents comm.inbox.clauses_to_import)))
