-- ===== src/Comm/Messages/Receive.antt =====
-- `MpiComm::receiveIncomingMsg`, with working/LocalWorker.cpp and working/Dispatcher.cpp, which it
-- calls. A dispatcher is known by its rank.
use dpainless.Prelude.{
  ℕ, zero, suc, ◌+◌, List, [], ◌∷◌, ◌++◌, Option, none, some, ℤ, pos, negsuc, length, get_elem?,
  ◌==◌, Bool, true, not, ◌&&◌, map, if◌then◌else◌,
}
use dpainless.Clauses.Exchange.{M, pure, fault, lift, ◌>>=◌}
use dpainless.Clauses.Buffer.{BufferApi}
use dpainless.Comm.Wire.{handle_received_clauses, is_zero}
use dpainless.Comm.Messages.{
  report_tag, cube_tag, clause_tag, stop_tag, interrupt_tag, Message, sat_result, send_interrupt,
  send_assumption, Process, report_result,
}
use dpainless.Working.Strategy.{
  SatResult, Call, solve, set_interrupt, unset_interrupt, add_consumer, add_producer,
  remove_consumer, remove_producer, release_solver, signal_lists, join_parent,
}
use dpainless.Working.Portfolio.{is_unknown, join}

-- `Dispatcher::solve` and `Dispatcher::setInterrupt`; a portfolio makes no other call on a slave.
unfoldable pub dispatch : (ℕ → ℤ) → Call → List Message
unfolding send_assumption send_interrupt
dispatch stack (solve d cube) = send_assumption stack cube d ∷ []
dispatch stack (set_interrupt d) = send_interrupt (pos 1) d ∷ []
dispatch stack (unset_interrupt d) = send_interrupt (pos 0) d ∷ []
dispatch stack (join_parent res model) = []
dispatch stack (add_consumer a b) = []
dispatch stack (add_producer a b) = []
dispatch stack (remove_consumer a b) = []
dispatch stack (remove_producer a b) = []
dispatch stack (release_solver a) = []
dispatch stack signal_lists = []

unfoldable pub dispatch_all : (ℕ → ℤ) → List Call → List Message
unfolding dispatch
dispatch_all stack [] = []
dispatch_all stack (c ∷ cs) = dispatch stack c ++ dispatch_all stack cs

-- The loop over `branchBuf`, with the rounds that are left. `none` reads behind its end.
unfoldable pub read_lits : ℕ → ℕ → List ℤ → Option (List ℤ)
read_lits zero i buf = some []
read_lits (suc rounds) i buf = elim (get_elem? buf i) [
  | none ↦ none
  | some x ↦ elim (read_lits rounds (i + 1) buf) [ none ↦ none | some xs ↦ some (x ∷ xs) ]
]

unfoldable pub read_cube : List ℤ → Option (List ℤ)
unfolding read_lits
read_cube [] = some []
read_cube (x ∷ []) = some []
read_cube (pos n ∷ y ∷ ys) = read_lits n 1 (pos n ∷ y ∷ ys)
read_cube (negsuc n ∷ y ∷ ys) = some []

-- `MPI_Recv` into a longer or equally long buffer.
unfoldable pub receive_into : List ℤ → List ℤ → Option (List ℤ)
receive_into [] buf = some buf
receive_into (x ∷ xs) [] = none
receive_into (x ∷ xs) (y ∷ ys) = elim (receive_into xs ys) [
  | none ↦ none
  | some buf ↦ some (x ∷ buf)
]

-- `MPI_Recv` into one `int`.
unfoldable pub receive_int : List ℤ → Option ℤ
receive_int [] = none
receive_int (x ∷ []) = some x
receive_int (x ∷ y ∷ ys) = none

-- A report of `length` 1 leaves the model as it was.
abbrev pub new_model : List ℤ → List ℤ → List ℤ
new_model [] model = model
new_model (x ∷ xs) model = x ∷ xs

module _ {B : Type 0} (api : BufferApi B) where
  abbrev pub ending : Process api → Bool
  ending p = p.working.globals.global_ending

  -- `LocalWorker::join`
  unfoldable pub local_join : SatResult → List ℤ → Process api → Option (Process api × List Message)
  unfolding report_result
  local_join res model p =
      if ending p
      then some (p, [])
      else if is_unknown res
      then some (p, [])
      else report_result api res model p

module _ {B : Type 0} (api : BufferApi B) (stack : ℕ → ℤ) where
  -- The process, what it sends, and the calls on the slaves of the local worker.
  abbrev pub Received : Type 0
  Received = Process api × List Message × List Call

  -- `Dispatcher::join`; the parent is the portfolio.
  unfoldable pub dispatcher_join : SatResult → List ℤ → Process api → Received
  unfolding join dispatch_all
  dispatcher_join res model p =
      if ending api p
      then (p, [], [])
      else let (working, calls) = join res model p.working in
        (record p { working = working }, dispatch_all stack calls, [])

  unfoldable pub take_report : ℕ → ℤ → List ℤ → Process api → M Received
  unfolding sat_result dispatcher_join
  take_report source n result p = do
    res ← lift (sat_result n)
    dispatcher ← lift (get_elem? p.parents source)
    let model = new_model result p.model
    pure (dispatcher_join res model (record p { res = res; model = model }))

  unfoldable pub receive_report : ℕ → List ℤ → Process api → M Received
  unfolding take_report
  receive_report source [] p = fault
  receive_report source (n ∷ result) p =
      if not (p.comm.rank == 0)
      then fault
      else if not (is_unknown p.res) && not (source == 0)
      then pure (p, [], [])
      else take_report source n result p

  unfoldable pub receive_cube : List ℤ → Process api → M Received
  unfolding read_cube
  receive_cube content p = do
    cube ← lift (read_cube content)
    pure (p, [], map (λ w. solve w cube) p.slaves)

  unfoldable pub receive_clauses : List ℤ → Process api → M Received
  unfolding receive_into handle_received_clauses
  receive_clauses content p = do
    buf ← lift (receive_into content p.import_buf)
    inbox ← handle_received_clauses api buf (length buf) p.comm.inbox
    pure (record p { import_buf = buf; comm = record p.comm { inbox = inbox } }, [], [])

  unfoldable pub receive_stop : ℕ → List ℤ → Process api → M Received
  unfolding receive_int sat_result
  receive_stop source content p = if not (source == 0) then fault else do
    ret ← lift (receive_int content)
    res ← lift (sat_result ret)
    pure (
      record p {
        res = res;
        working = record p.working { globals = record p.working.globals { global_ending = true } };
      },
      [],
      [],
    )

  unfoldable pub receive_interrupt : ℕ → List ℤ → Process api → M Received
  unfolding receive_int
  receive_interrupt source content p = if not (source == 0) then fault else do
    ret ← lift (receive_int content)
    pure (p, [], map (if is_zero ret then unset_interrupt else set_interrupt) p.slaves)

  -- One message. At the end every message is garbage.
  unfoldable pub receive_one : Message → Process api → M Received
  unfolding receive_report receive_cube receive_clauses receive_stop receive_interrupt
  receive_one m p = if ending api p then pure (p, [], []) else elim m.tag [
    | report_tag ↦ receive_report m.peer m.content p
    | cube_tag ↦ receive_cube m.content p
    | clause_tag ↦ receive_clauses m.content p
    | stop_tag ↦ receive_stop m.peer m.content p
    | interrupt_tag ↦ receive_interrupt m.peer m.content p
  ]

  -- The loop, over the messages that are there. The result is left in `res`.
  unfoldable pub receive_incoming_msg : List Message → Process api → M Received
  unfolding receive_one
  receive_incoming_msg [] p = pure (p, [], [])
  receive_incoming_msg (m ∷ ms) p = do
    (p', out, calls) ← receive_one m p
    (p'', more, later) ← receive_incoming_msg ms p'
    pure (p'', out ++ more, calls ++ later)
