-- ===== src/Comm/Process.antt =====
-- The clause sharing of `MpiComm`: what goes out to the other processes and what came in.
pub mod Bound
pub mod Ownership
pub mod Export
use dpainless.Prelude.{
  ℕ, zero, suc, ◌+◌, ◌*◌, List, [], ◌∷◌, ◌++◌, Option, none, some, ℤ, Bool, true, false, map,
  length, ◌==◌, if◌then◌else◌,
}
use dpainless.Clauses.Exchange.{
  ClauseExchange, M, pure, lift, ◌>>=◌, ◌>>◌, increase_clause, release_all,
}
use dpainless.Clauses.Filter.{ClauseFilter, register_clause, new_filter}
use dpainless.Clauses.Database.{ClauseDatabase, Selection, add_clause, give_selection}
use dpainless.Clauses.Buffer.{BufferApi}
use dpainless.Comm.Group.{ShareRange, targets}
use dpainless.Comm.Wire.{Inbox, fill, handle_received_clauses}

-- A message and the rank that it goes to.
abbrev pub Sent : Type 0
Sent = ℕ × List ℤ

module _ {B : Type 0} (api : BufferApi B) where
  pub record MpiComm : Type 0 where
    pub rank : ℕ
    pub size : ℕ
    pub cls_shr : ShareRange
    pub inbox : Inbox api
    pub clauses_to_export : ClauseDatabase
    pub export_buf : List ℤ

  unfoldable pub store_to_export : ClauseExchange → MpiComm → M MpiComm
  store_to_export c comm = do
    increase_clause c 1
    db ← add_clause comm.clauses_to_export c
    pure (record comm { clauses_to_export = db })

  -- One clause of `addClausesToExternal`.
  unfoldable pub add_to_external : ClauseExchange → MpiComm → M MpiComm
  unfolding store_to_export
  add_to_external c comm =
      let (fresh, filter) = register_clause comm.inbox.external_filter c.lits in
      let comm' = record comm { inbox = record comm.inbox { external_filter = filter } } in
      if fresh then store_to_export c comm' else pure comm'

  unfoldable pub add_each_to_external : List ClauseExchange → MpiComm → M MpiComm
  unfolding add_to_external
  add_each_to_external [] comm = pure comm
  add_each_to_external (c ∷ cs) comm = add_to_external c comm >>= add_each_to_external cs

  unfoldable pub add_clauses_to_external : List ClauseExchange → MpiComm → M MpiComm
  unfolding add_each_to_external
  add_clauses_to_external cs comm =
      if comm.size == 1 then pure comm else add_each_to_external cs comm

  -- The clauses are appended to the vector.
  unfoldable pub get_clauses_from_external :
      List ClauseExchange → MpiComm → List ClauseExchange × MpiComm
  get_clauses_from_external cs comm =
      let (imported, rest) = api.get_clauses comm.inbox.clauses_to_import in
      (cs ++ imported, record comm { inbox = record comm.inbox { clauses_to_import = rest } })

  -- What is sent, and the clauses that are then released.
  unfoldable pub send_selection : Selection → MpiComm → M (MpiComm × List Sent)
  send_selection sel comm = do
    msg ← lift (fill sel.selected comm.export_buf)
    release_all sel.selected
    pure (record comm { export_buf = msg }, map (λ i. (i, msg)) (targets comm.cls_shr comm.rank))

  -- Nothing is sent if nothing was selected.
  unfoldable pub send_unless_empty :
      List ClauseExchange → Selection → MpiComm → M (MpiComm × List Sent)
  unfolding send_selection
  send_unless_empty [] sel comm = pure (comm, [])
  send_unless_empty (c ∷ cs) sel comm = send_selection sel comm

  unfoldable pub export_learned_clauses : ℕ → MpiComm → M (MpiComm × List Sent)
  unfolding send_unless_empty
  export_learned_clauses shr_lit comm = do
    (db, sel) ← lift (give_selection comm.clauses_to_export [] shr_lit)
    send_unless_empty sel.selected sel (record comm { clauses_to_export = db })
