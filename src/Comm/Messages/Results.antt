-- ===== src/Comm/Messages/Results.antt =====
-- How an answer gets from a worker to rank 0.
use mathlib.Core.List.{append-nil}
use dpainless.Prelude.{
  ℕ, ◌≡◌, refl, ap, ◌∙◌, ◌⊎◌, inl, inr, List, [], ◌∷◌, ◌++◌, Option, none, some, ℤ, pos, Bool, true,
  false, map, if◌then◌else◌, get_elem?, arith, Bool-cases,
}
use dpainless.Clauses.Exchange.{Heap, pure}
use dpainless.Clauses.Buffer.{BufferApi}
use dpainless.Comm.Messages.{report_tag, Message, message, code, send_interrupt, Process}
use dpainless.Comm.Messages.Ends.{arrives, sat_result-code, receive-last}
use dpainless.Comm.Messages.Receive.{
  ending, local_join, dispatch_all, dispatcher_join, take_report, receive_report, receive_one,
  receive_incoming_msg, new_model, Received,
}
use dpainless.Working.Strategy.{SatResult, Call, set_interrupt, join_parent}
use dpainless.Working.Portfolio.{Portfolio, is_unknown, join, set_result}
use dpainless.Working.Portfolio.First.{first_answer, answered, join-answered}

dispatch_all-interrupts :
    (stack : ℕ → ℤ) (ws : List ℕ)
    → dispatch_all stack (map set_interrupt ws) ≡ map (send_interrupt (pos 1)) ws
unfolding dispatch_all
dispatch_all-interrupts stack [] = refl
dispatch_all-interrupts stack (w ∷ ws) =
    ap (λ l. send_interrupt (pos 1) w ∷ l) (dispatch_all-interrupts stack ws)

new_model-first : (result model : List ℤ) → model ≡ [] → new_model result model ≡ result
new_model-first [] model e = e
new_model-first (x ∷ xs) model e = refl

abbrev interrupts_of : Bool → SatResult → List ℤ → List ℕ → List Call
interrupts_of b res model ws =
    if b then map set_interrupt ws ++ join_parent res model ∷ [] else map set_interrupt ws

module _ {B : Type 0} (api : BufferApi B) where
  -- What rank 0 becomes with an answer.
  abbrev pub told : SatResult → List ℤ → Process api → Process api
  told res model p = record p {
    res = res;
    model = model;
    working = answered p.working (res, model);
  }

  local_join-reports :
      (res : SatResult) (model : List ℤ) (q : Process api)
      → ending api q ≡ false
      → is_unknown q.res ≡ true
      → is_unknown res ≡ false
      → local_join api res model q
        ≡ some (record q { res = res }, message 0 report_tag (code res ∷ model) ∷ [])
  unfolding local_join
  local_join-reports res model q e u known = ground (arith, e, u, known)

module _ {B : Type 0} (api : BufferApi B) (stack : ℕ → ℤ) where
  receive_one-report :
      (source : ℕ) (content : List ℤ) (p : Process api) (h : Heap)
      → ending api p ≡ false
      → receive_one api stack (message source report_tag content) p h
        ≡ receive_report api stack source content p h
  unfolding receive_one
  receive_one-report source content p h e =
      ap (λ b. (if b then pure (p, [], []) else receive_report api stack source content p) h) e

  receive_report-taken :
      (source : ℕ) (n : ℤ) (result : List ℤ) (p : Process api) (h : Heap)
      → p.comm.rank ≡ 0
      → (is_unknown p.res ≡ true) ⊎ (source ≡ 0)
      → receive_report api stack source (n ∷ result) p h ≡ take_report api stack source n result p h
  unfolding receive_report
  receive_report-taken source n result p h r first = ground (arith, r, first)

  told-globals :
      (res : SatResult) (model : List ℤ) (p : Process api)
      → p.working.has_parent ≡ false
      → (told api res model p).working.globals ≡ set_result res model p.working.globals
  told-globals res model p top =
      ap (λ b. if b then p.working.globals else set_result res model p.working.globals) top

  told-ending :
      (res : SatResult) (model : List ℤ) (p : Process api)
      → p.working.has_parent ≡ false
      → ending api (told api res model p) ≡ true
  unfolding set_result
  told-ending res model p top = ap (λ g. g.global_ending) (told-globals res model p top)

  -- What a dispatcher makes of what the portfolio does.
  abbrev passed_on : SatResult → List ℤ → Process api → Portfolio × List Call → Received api stack
  passed_on res model p (w, calls) =
      (record p { res = res; model = model; working = w }, dispatch_all stack calls, [])

  dispatcher_join-answered :
      (res : SatResult) (model : List ℤ) (p : Process api)
      → ending api p ≡ false
      → is_unknown res ≡ false
      → p.working.strategy_ending ≡ false
      → p.working.has_parent ≡ false
      → dispatcher_join api stack res model (record p { res = res; model = model })
        ≡ (told api res model p, map (send_interrupt (pos 1)) p.working.slaves, [])
  unfolding dispatcher_join
  dispatcher_join-answered res model p e known running top =
      ap
        (λ b.
          if b
          then (record p { res = res; model = model }, [], [])
          else passed_on res model p (join res model p.working))
        e
      ∙ ap (passed_on res model p) (join-answered res model p.working known running e)
      ∙ ap (λ calls. (told api res model p, calls, []))
          (ap (λ b. dispatch_all stack (interrupts_of b res model p.working.slaves)) top
            ∙ dispatch_all-interrupts stack p.working.slaves)

  -- The report of a process that is registered, as long as rank 0 has no answer from another.
  receive_report-answered :
      (source d : ℕ) (res : SatResult) (result : List ℤ) (p : Process api) (h : Heap)
      → ending api p ≡ false
      → p.comm.rank ≡ 0
      → (is_unknown p.res ≡ true) ⊎ (source ≡ 0)
      → is_unknown res ≡ false
      → get_elem? p.parents source ≡ some d
      → p.working.strategy_ending ≡ false
      → p.working.has_parent ≡ false
      → receive_one api stack (message source report_tag (code res ∷ result)) p h
        ≡ some (
          (
            told api res (new_model result p.model) p,
            map (send_interrupt (pos 1)) p.working.slaves,
            [],
          ),
          h,
        )
  unfolding take_report
  receive_report-answered source d res result p h e r first known reg running top =
      receive_one-report source (code res ∷ result) p h e
      ∙ receive_report-taken source (code res) result p h r first
      ∙ rw (sat_result-code res, reg)
          (ap (λ o. some (o, h))
            (dispatcher_join-answered res (new_model result p.model) p e known running top))

  -- A worker of one process joins with an answer, while its process has reported none. Then the process
  -- sends one message, to rank 0, and keeps quiet from now on. If rank 0 has heard of no other answer,
  -- or is that process, and its portfolio waits for one, then with that message rank 0 has the answer
  -- as its final result, with the model where it is SAT, tells all processes to interrupt their
  -- workers, and ignores whatever comes in behind it.
  pub local_join-wins :
      (d : ℕ) (res : SatResult) (model : List ℤ) (q p : Process api) (ms : List Message) (h : Heap)
      → ending api q ≡ false
      → is_unknown q.res ≡ true
      → is_unknown res ≡ false
      → ending api p ≡ false
      → p.comm.rank ≡ 0
      → (is_unknown p.res ≡ true) ⊎ (q.comm.rank ≡ 0)
      → p.model ≡ []
      → get_elem? p.parents q.comm.rank ≡ some d
      → p.working.strategy_ending ≡ false
      → p.working.has_parent ≡ false
      → (q' : Process api) × (sent : Message) × (local_join api res model q ≡ some (q', sent ∷ []))
        × (is_unknown q'.res ≡ false)
        × (sent.peer ≡ 0)
        × (receive_incoming_msg api stack (arrives q.comm.rank sent ∷ ms) p h
            ≡ some ((told api res model p, map (send_interrupt (pos 1)) p.working.slaves, []), h))
        × ((told api res model p).working.globals ≡ set_result res model p.working.globals)
  local_join-wins d res model q p ms h qe qu known e r first m reg running top = (
    record q { res = res },
    message 0 report_tag (code res ∷ model),
    local_join-reports api res model q qe qu known,
    known,
    refl,
    receive-last api stack (message q.comm.rank report_tag (code res ∷ model)) ms p
          (told api res model p) (map (send_interrupt (pos 1)) p.working.slaves) h
          (receive_report-answered q.comm.rank d res model p h e r first known reg running top
            ∙ ap
                (λ l.
                  some ((told api res l p, map (send_interrupt (pos 1)) p.working.slaves, []), h))
                (new_model-first model p.model m))
          (told-ending res model p top)
        ∙ ap (λ l. some ((told api res model p, l, []), h))
            (append-nil (map (send_interrupt (pos 1)) p.working.slaves)),
    told-globals res model p top,
  )

module _ {B : Type 0} (api : BufferApi B) where
  -- Joins of the slaves of a local worker, one after the other.
  abbrev pub local_join_all :
      List (SatResult × List ℤ) → Process api → Option (Process api × List Message)
  local_join_all [] q = some (q, [])
  local_join_all ((res, model) ∷ answers) q = elim (local_join api res model q) [
    | none ↦ none
    | some (q', out) ↦ elim (local_join_all answers q') [
      | none ↦ none
      | some (q'', more) ↦ some (q'', out ++ more)
    ]
  ]

  local_join-silent :
      (res : SatResult) (model : List ℤ) (q : Process api)
      → (is_unknown res ≡ true) ⊎ (is_unknown q.res ≡ false)
      → local_join api res model q ≡ some (q, [])
  unfolding local_join
  local_join-silent res model q s = ground (arith, s)

  local_join_all-silent :
      (answers : List (SatResult × List ℤ)) (q : Process api)
      → is_unknown q.res ≡ false
      → local_join_all answers q ≡ some (q, [])
  local_join_all-silent [] q k = refl
  local_join_all-silent ((res, model) ∷ answers) q k =
      rw (local_join-silent res model q (inr k), local_join_all)
        (rw (local_join_all-silent answers q k) refl)

  -- What a process reports.
  abbrev pub reported : Option (SatResult × List ℤ) → Process api → Process api × List Message
  reported none q = (q, [])
  reported (some (res, model)) q =
      (record q { res = res }, message 0 report_tag (code res ∷ model) ∷ [])

  -- However the slaves of a local worker join, as long as the program runs and the process has not
  -- reported: it reports at most once, and then the first answer that is not UNKNOWN. No assertion
  -- fails.
  pub local_join_all-first :
      (answers : List (SatResult × List ℤ)) (q : Process api)
      → ending api q ≡ false
      → is_unknown q.res ≡ true
      → local_join_all answers q ≡ some (reported (first_answer answers) q)
  local_join_all-first [] q e u = refl
  local_join_all-first ((res, model) ∷ answers) q e u = elim (Bool-cases (is_unknown res)) [
    | inl k ↦
        rw (local_join-silent res model q (inl k), local_join_all)
          (rw (local_join_all-first answers q e u, k) refl)
    | inr k ↦
        rw (local_join-reports api res model q e u k, local_join_all)
          (rw (local_join_all-silent answers (record q { res = res }) k, k) refl)
  ]
