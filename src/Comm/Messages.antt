-- ===== src/Comm/Messages.antt =====
-- The messages of comm/MpiComm.cpp other than clauses: what `reportResult`, `updateWorkingStatus`,
-- `sendAssumption` and `sendInterrupt` send.
pub mod Receive
pub mod Ends
pub mod Results
pub mod Cubes
use dpainless.Prelude.{
  ℕ, zero, suc, ◌+◌, ◌-◌, List, [], ◌∷◌, Option, none, some, ℤ, pos, negsuc, length, ◌==◌, Bool,
  not, if◌then◌else◌,
}
use dpainless.Clauses.Buffer.{BufferApi}
use dpainless.Comm.Process.{MpiComm}
use dpainless.Working.Strategy.{SatResult, sat, unsat, unknown}
use dpainless.Working.Portfolio.{Portfolio, is_unknown}

pub data Tag : Type 0 where
  report_tag cube_tag clause_tag stop_tag interrupt_tag : Tag

-- `peer` is the target where a message is sent, and the source where it is received.
pub record Message : Type 0 where
  pub peer : ℕ
  pub tag : Tag
  pub content : List ℤ

abbrev pub message : ℕ → Tag → List ℤ → Message
message peer tag content = record { peer = peer; tag = tag; content = content }

abbrev pub code : SatResult → ℤ
code sat = pos 10
code unsat = pos 20
code unknown = pos 0

-- `SatResult(n)`; no other number is a result.
unfoldable pub sat_result : ℤ → Option SatResult
sat_result (negsuc n) = none
sat_result (pos n) =
    if n == 0
    then some unknown
    else if n == 10
    then some sat
    else if n == 20
    then some unsat
    else none

-- `MPI_Isend` of the result to the ranks from `i` on, with the rounds that are left.
unfoldable pub stops_from : ℕ → ℕ → SatResult → List Message
stops_from zero i res = []
stops_from (suc rounds) i res = message i stop_tag (code res ∷ []) ∷ stops_from rounds (i + 1) res

-- 0 to unset the interrupt, 1 to set it. The number is read when the message goes out.
unfoldable pub send_interrupt : ℤ → ℕ → Message
send_interrupt interrupt target = message target interrupt_tag (interrupt ∷ [])

-- The buffer that `sendAssumption` fills.
abbrev pub cube_buf : List ℤ → List ℤ
cube_buf cube = pos (length cube) ∷ cube

-- `rounds` numbers of a memory from `i` on.
unfoldable pub read_memory : (ℕ → ℤ) → ℕ → ℕ → List ℤ
read_memory memory zero i = []
read_memory memory (suc rounds) i = memory i ∷ read_memory memory rounds (i + 1)

-- `MPI_Ibsend` gets the address of the variable that points to the buffer: `stack` is what stands
-- from there on.
unfoldable pub send_assumption : (ℕ → ℤ) → List ℤ → ℕ → Message
unfolding read_memory
send_assumption stack cube target =
    message target cube_tag (read_memory stack (length (cube_buf cube)) 0)

-- The messages that wait are received and freed; what is left.
unfoldable pub clean_receiving_buffer : List Message → List Message
clean_receiving_buffer [] = []
clean_receiving_buffer (m ∷ ms) = clean_receiving_buffer ms

module _ {B : Type 0} (api : BufferApi B) where
  -- A process under the distributed portfolio: the communicator, the dispatchers that are registered
  -- with it (`parentStrategy`, at rank 0), the portfolio above them with the globals of the process,
  -- and the slaves of the local worker (`childStrategy`).
  pub record Process : Type 0 where
    pub comm : MpiComm api
    pub import_buf : List ℤ
    pub model : List ℤ
    pub res : SatResult
    pub parents : List ℕ
    pub working : Portfolio
    pub slaves : List ℕ

  unfoldable pub update_working_status : Process → Option (List Message)
  unfolding stops_from
  update_working_status p =
      if p.comm.rank == 0 then some (stops_from (p.comm.size - 1) 1 p.res) else none

  -- `none` is the assertion.
  unfoldable pub report_result : SatResult → List ℤ → Process → Option (Process × List Message)
  report_result curr model p =
      if not (is_unknown p.res)
      then some (p, [])
      else if is_unknown curr
      then none
      else some (record p { res = curr }, message 0 report_tag (code curr ∷ model) ∷ [])
