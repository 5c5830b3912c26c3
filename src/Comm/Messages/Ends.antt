-- ===== src/Comm/Messages/Ends.antt =====
-- The end of a process: what rank 0 broadcasts, and the garbage behind it.
use dpainless.Prelude.{
  ℕ, zero, suc, ◌+◌, ◌-◌, ◌<◌, ◌≡◌, refl, ap, ◌∙◌, List, [], ◌∷◌, ◌++◌, Option, none, some, ℤ, ◌==◌,
  leb, ltb, ◌&&◌, true, false, map, if◌then◌else◌, arith,
}
use dpainless.Clauses.Exchange.{Heap, pure}
use dpainless.Clauses.Buffer.{BufferApi}
use dpainless.Comm.Messages.{
  stop_tag, Message, message, code, sat_result, stops_from, update_working_status, Process,
}
use dpainless.Comm.Messages.Receive.{
  ending, receive_stop, receive_one, receive_incoming_msg, receive_int, Received,
}
use dpainless.Working.Strategy.{SatResult, sat, unsat, unknown}

-- A message that was sent, as it arrives.
abbrev pub arrives : ℕ → Message → Message
arrives source m = message source m.tag m.content

pub sat_result-code : (r : SatResult) → sat_result (code r) ≡ some r
unfolding sat_result
sat_result-code sat = refl
sat_result-code unsat = refl
sat_result-code unknown = refl

module _ {B : Type 0} (api : BufferApi B) where
  -- What the process becomes with the message to stop.
  abbrev pub stopped : SatResult → Process api → Process api
  stopped res p = record p {
    res = res;
    working = record p.working { globals = record p.working.globals { global_ending = true } };
  }

module _ {B : Type 0} (api : BufferApi B) (stack : ℕ → ℤ) where
  receive_one-ended :
      (m : Message) (p : Process api) (h : Heap)
      → ending api p ≡ true
      → receive_one api stack m p h ≡ some ((p, [], []), h)
  unfolding receive_one
  receive_one-ended m p h e = ground (arith, e)

  -- The messages behind the first.
  abbrev pub later :
      List Message → Option (Received api stack × Heap) → Option (Received api stack × Heap)
  later ms o = elim o [
    | none ↦ none
    | some ((p, out, calls), h) ↦ elim (receive_incoming_msg api stack ms p h) [
      | none ↦ none
      | some ((p', more, after), h') ↦ some ((p', out ++ more, calls ++ after), h')
    ]
  ]

  receive-step :
      (m : Message) (ms : List Message) (p : Process api) (h : Heap)
      → receive_incoming_msg api stack (m ∷ ms) p h ≡ later ms (receive_one api stack m p h)
  unfolding receive_incoming_msg
  receive-step m ms p h = refl

  receive_incoming_msg-ended :
      (ms : List Message) (p : Process api) (h : Heap)
      → ending api p ≡ true
      → receive_incoming_msg api stack ms p h ≡ some ((p, [], []), h)
  unfolding receive_incoming_msg
  receive_incoming_msg-ended [] p h e = refl
  receive_incoming_msg-ended (m ∷ ms) p h e =
      receive-step m ms p h
      ∙ ap (later ms) (receive_one-ended m p h e)
      ∙ rw (receive_incoming_msg-ended ms p h e, later) refl

  -- A message that ends the program, and the garbage behind it.
  pub receive-last :
      (m : Message) (ms : List Message) (p p' : Process api) (out : List Message) (h : Heap)
      → receive_one api stack m p h ≡ some ((p', out, []), h)
      → ending api p' ≡ true
      → receive_incoming_msg api stack (m ∷ ms) p h ≡ some ((p', out ++ [], []), h)
  receive-last m ms p p' out h e f =
      receive-step m ms p h
      ∙ ap (later ms) e
      ∙ rw (receive_incoming_msg-ended ms p' h f, later) refl

  receive_stop-stopped :
      (res : SatResult) (q : Process api) (h : Heap)
      → ending api q ≡ false
      → receive_one api stack (message 0 stop_tag (code res ∷ [])) q h
        ≡ some ((stopped api res q, [], []), h)
  unfolding receive_one receive_stop receive_int
  receive_stop-stopped res q h e =
      ap (λ b. (if b then pure (q, [], []) else receive_stop api stack 0 (code res ∷ []) q) h) e
      ∙ rw (sat_result-code res) refl

-- What a rank finds among messages that were sent.
abbrev pub for_rank : ℕ → List Message → List Message
for_rank i [] = []
for_rank i (m ∷ ms) = let rest = for_rank i ms in if m.peer == i then m ∷ rest else rest

for_rank-stops_from :
    (i rounds start : ℕ) (res : SatResult)
    → for_rank i (stops_from rounds start res) ≡ (
        if leb start i && ltb i (start + rounds)
        then message i stop_tag (code res ∷ []) ∷ []
        else [])
unfolding stops_from
for_rank-stops_from i zero start res = ground arith
for_rank-stops_from i (suc rounds) start res =
    ground (arith, for_rank-stops_from i rounds (start + 1) res)

module _ {B : Type 0} (api : BufferApi B) (stack : ℕ → ℤ) where
  -- Rank 0 sends its result to every other rank exactly once and not to itself. A process that runs
  -- and receives it has the same result, ends, and ignores whatever comes in behind it.
  pub update_working_status-stops :
      (i : ℕ) (p q : Process api) (ms : List Message) (h : Heap)
      → p.comm.rank ≡ 0
      → i < p.comm.size
      → ending api q ≡ false
      → (out : List Message) × (update_working_status api p ≡ some out)
        × (for_rank i out ≡ (if i == 0 then [] else message i stop_tag (code p.res ∷ []) ∷ []))
        × (receive_incoming_msg api stack
              (map (arrives 0) (message i stop_tag (code p.res ∷ []) ∷ []) ++ ms)
              q
              h
            ≡ some ((stopped api p.res q, [], []), h))
  unfolding update_working_status
  update_working_status-stops i p q ms h r l e = (
    stops_from (p.comm.size - 1) 1 p.res,
    ground (arith, r),
    for_rank-stops_from i (p.comm.size - 1) 1 p.res ∙ ground (arith, l),
    receive-last api stack (message 0 stop_tag (code p.res ∷ [])) ms q (stopped api p.res q) [] h
        (receive_stop-stopped api stack p.res q h e) refl,
  )
