-- ===== src/Comm/Process/Export.antt =====
-- A whole `exportLearnedClauses`: the references, the buffer and the messages.
use dpainless.Prelude.{
  ℕ, ◌+◌, ◌*◌, ◌^◌, ◌≤◌, ◌<◌, ◌≡◌, ◌⊎◌, inl, inr, refl, ap, List, [], ◌∷◌, arith, length, map,
}
use dpainless.Clauses.Exchange.{ClauseExchange, Heap, lift, release_all}
use dpainless.Clauses.Exchange.Accounts.{
  count, IsAccounted-cong, Runs, Runs-bind, release_all-Runs, one_at,
}
use dpainless.Clauses.Database.{Selection}
use dpainless.Clauses.Database.Bounds.{weigh_db}
use dpainless.Clauses.Database.Greedy.{give_selection-Outcome}
use dpainless.Clauses.Buffer.{BufferApi}
use dpainless.Comm.Group.{targets}
use dpainless.Comm.Wire.Layout.{payload, message, fill-fits, length-message}
use dpainless.Comm.Process.{
  MpiComm, Sent, send_selection, send_unless_empty, export_learned_clauses,
}
use dpainless.Comm.Process.Bound.{defect, outcome_fits}
use dpainless.Comm.Process.Ownership.{OwnedComm, count_comm}

module _ {B : Type 0} (api : BufferApi B) where
  -- Nothing was sent, or the buffer was, to every target.
  abbrev pub IsSent : MpiComm api → List Sent → Type 0
  IsSent comm sent =
      (sent ≡ []) ⊎ (sent ≡ map (λ i. (i, comm.export_buf)) (targets comm.cls_shr comm.rank))

  -- The process owns its references besides `f`, and its clauses and its buffer have the lengths that
  -- are expected of them.
  abbrev pub Exported : ℕ → (ℕ → ℕ) → MpiComm api → Heap → Type 0
  Exported room f comm h =
      OwnedComm api f comm h
      × (weigh_db defect comm.clauses_to_export ≡ 0)
      × (length comm.export_buf ≡ room)

  send_unless_empty-Runs :
      (cs : List ClauseExchange) (sel : Selection) (comm : MpiComm api) (h : Heap) (f : ℕ → ℕ)
      (room : ℕ)
      → sel.selected ≡ cs
      → Exported room (λ a. count a sel.selected + f a) comm h
      → 1 + length (payload sel.selected) ≤ length comm.export_buf
      → Runs (send_unless_empty api cs sel comm) h (λ r h'. Exported room f r.0 h' × IsSent r.0 r.1)
  unfolding send_unless_empty send_selection
  send_unless_empty-Runs [] sel comm h f room e o fits = (
    (comm, []),
    h,
    refl,
    (((o.0.0, IsAccounted-cong (λ a. ground (arith, ap (count a) e)) o.0.1), o.1, o.2), inl refl),
  )
  send_unless_empty-Runs (c ∷ cs) sel comm h f room e o fits =
      rw (fill-fits sel.selected comm.export_buf fits, lift)
        (Runs-bind (release_all sel.selected) _ h _ _
          (release_all-Runs sel.selected h (λ a. count_comm api a comm + f a) _ o.0.1
            (λ a. omega arith))
          (λ _ h' v. (
            (
              record comm { export_buf = message sel.selected comm.export_buf },
              map (λ i. (i, message sel.selected comm.export_buf)) (targets comm.cls_shr comm.rank),
            ),
            h',
            refl,
            (
              ((o.0.0, v), o.1, omega (arith, length-message sel.selected comm.export_buf, o.2)),
              inr refl,
            ),
          )))

  pub export_learned_clauses-Runs :
      (shr_lit : ℕ) (comm : MpiComm api) (h : Heap) (f : ℕ → ℕ)
      → Exported (2 * shr_lit) f comm h
      → 1000 ≤ shr_lit
      → shr_lit < 2 ^ 31
      → Runs
          (export_learned_clauses api shr_lit comm)
          h
          (λ r h'. Exported (2 * shr_lit) f r.0 h' × IsSent r.0 r.1)
  unfolding export_learned_clauses
  export_learned_clauses-Runs shr_lit comm h f o large small =
      let (db', sel, e, p) = give_selection-Outcome comm.clauses_to_export [] shr_lit o.0.0 small in
      rw (e, lift)
        (send_unless_empty-Runs sel.selected sel (record comm { clauses_to_export = db' }) h f
          (2 * shr_lit) refl
          (
            (p.sorted, IsAccounted-cong (λ a. omega (arith, p.counted (λ c. one_at c a))) o.0.1),
            omega (arith, p.counted defect, o.1),
            o.2,
          )
          (omega
            (arith, outcome_fits comm.clauses_to_export shr_lit db' sel o.0.0 o.1 large p, o.2)))
