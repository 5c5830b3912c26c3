-- ===== src/Tests/Comm.antt =====
-- The theorems on the communication of processes, at concrete inputs.
use dpainless.Prelude.{
  inl, ℕ, negsuc, false, ◌++◌, ◌*◌, ◌≡◌, refl, List, [], ◌∷◌, none, some, ℤ, pos, arith, ◌==◌,
  if◌then◌else◌, map, length,
}
use dpainless.Clauses.Exchange.{ClauseExchange}
use dpainless.Clauses.Exchange.Accounts.{Runs}
use dpainless.Clauses.Filter.{new_filter}
use dpainless.Clauses.Database.{ClauseDatabase}
use dpainless.Comm.Wire.{Inbox, fill, handle_received_clauses}
use dpainless.Comm.Wire.Roundtrip.{receive_all, received-eq-sent}
use dpainless.Comm.Process.{MpiComm}
use dpainless.Comm.Process.Bound.{units_overflow}
use dpainless.Comm.Process.{export_learned_clauses}
use dpainless.Comm.Process.Export.{Exported, IsSent, export_learned_clauses-Runs}
use dpainless.Comm.Messages.{
  Message, report_tag, stop_tag, code, cube_buf, send_assumption, send_interrupt,
  update_working_status, Process,
}
use dpainless.Comm.Messages
use dpainless.Comm.Messages.Receive.{local_join, receive_incoming_msg, read_cube}
use dpainless.Comm.Messages.Ends.{arrives, for_rank, stopped, update_working_status-stops}
use dpainless.Comm.Messages.Results.{told, local_join-wins}
use dpainless.Comm.Messages.Cubes.{send_assumption-blind}
use dpainless.Working.Strategy.{sat, unsat, unknown}
use dpainless.Working.Portfolio.{is_unknown, set_result}
use dpainless.Tests.Values.{
  zeros, length-zeros, pair, unit_clause, one_clause, one_clause-IsAccounted, list_buffer,
}

-- Ranks 3 and 4 of 5, in groups of 3.

abbrev two_clauses : List ClauseExchange
two_clauses = pair ∷ unit_clause ∷ []

abbrev room : List ℤ
room = pos 0 ∷ pos 0 ∷ pos 0 ∷ pos 0 ∷ pos 0 ∷ pos 0 ∷ pos 0 ∷ []

abbrev inbox : Inbox list_buffer
inbox = record { external_filter = new_filter; clauses_to_import = [] }

received-eq-sent_example :
    (msg : List ℤ) × (fill two_clauses room ≡ some msg)
    × (handle_received_clauses list_buffer msg (length room) inbox one_clause
        ≡ receive_all list_buffer (map (λ c. c.lits) two_clauses) inbox one_clause)
received-eq-sent_example =
    received-eq-sent list_buffer two_clauses room inbox one_clause (omega arith) (ground arith)

units_overflow_example : fill (unit_clause ∷ []) (pos 0 ∷ pos 0 ∷ []) ≡ none
units_overflow_example =
    units_overflow (unit_clause ∷ []) (pos 0 ∷ pos 0 ∷ []) 1 (omega arith) refl refl refl (refl, tt)

abbrev pair_db : ClauseDatabase
pair_db = [] ∷ (pair ∷ []) ∷ []

abbrev process : MpiComm list_buffer
process = record {
  rank = 0;
  size = 2;
  cls_shr = record { lower = 0; upper = 2 };
  inbox = inbox;
  clauses_to_export = [];
  export_buf = room;
}

-- A process that holds the only reference to a clause of two literals.
abbrev exporting : MpiComm list_buffer
exporting = record process { clauses_to_export = pair_db; export_buf = zeros (2 * 1000) }

export_learned_clauses-Runs_example :
    Runs
      (export_learned_clauses list_buffer 1000 exporting)
      one_clause
      (λ r h'. Exported list_buffer (2 * 1000) (λ a. 0) r.0 h' × IsSent list_buffer r.0 r.1)
export_learned_clauses-Runs_example =
    export_learned_clauses-Runs list_buffer 1000 exporting one_clause (λ a. 0)
      (
        ((ground arith), one_clause-IsAccounted _ (λ a. ground arith)),
        refl,
        length-zeros (2 * 1000),
      )
      (omega arith) (omega arith)

-- Two processes: rank 0 with two dispatchers under its portfolio, and rank 1 with two workers.
abbrev root : Process list_buffer
root = record {
  comm = process;
  import_buf = room;
  model = [];
  res = unknown;
  parents = 0 ∷ 1 ∷ [];
  working = record {
    slaves = 0 ∷ 1 ∷ [];
    strategy_ending = false;
    has_parent = false;
    globals = record { global_ending = false; final_result = unknown; final_model = [] };
  };
  slaves = 5 ∷ 6 ∷ [];
}

abbrev other : Process list_buffer
other = record root {
  comm = record process { rank = 1 };
  parents = [];
  working = record root.working { slaves = [] };
}

abbrev stack : ℕ → ℤ
stack i = pos 7

abbrev sat_model : List ℤ
sat_model = pos 1 ∷ negsuc 1 ∷ []

local_join-wins_example :
    (q' : Process list_buffer) × (sent : Message) × (local_join list_buffer sat sat_model other
      ≡ some (q', sent ∷ []))
    × (is_unknown q'.res ≡ false)
    × (sent.peer ≡ 0)
    × (receive_incoming_msg list_buffer stack
          (arrives 1 sent ∷ Messages.message 1 report_tag (pos 10 ∷ sat_model) ∷ [])
          root
          one_clause
        ≡ some (
          (
            told list_buffer sat sat_model root,
            map (send_interrupt (pos 1)) root.working.slaves,
            [],
          ),
          one_clause,
        ))
    × ((told list_buffer sat sat_model root).working.globals
        ≡ set_result sat sat_model root.working.globals)
local_join-wins_example =
    local_join-wins list_buffer stack 1 sat sat_model other root
      (Messages.message 1 report_tag (pos 10 ∷ sat_model) ∷ []) one_clause refl refl refl refl refl
      (inl refl) refl refl refl refl

update_working_status-stops_example :
    (out : List Message) × (update_working_status list_buffer (record root { res = unsat })
      ≡ some out)
    × (for_rank 1 out ≡ (if 1 == 0 then [] else Messages.message 1 stop_tag (code unsat ∷ []) ∷ []))
    × (receive_incoming_msg list_buffer stack
          (map (arrives 0) (Messages.message 1 stop_tag (code unsat ∷ []) ∷ []) ++ [])
          other
          one_clause
        ≡ some ((stopped list_buffer unsat other, [], []), one_clause))
update_working_status-stops_example =
    update_working_status-stops list_buffer stack 1 (record root { res = unsat }) other []
      one_clause refl (omega arith) refl

send_assumption-blind_example :
    (read_cube (cube_buf (pos 1 ∷ [])) ≡ some (pos 1 ∷ []))
    × (send_assumption stack (pos 1 ∷ []) 1 ≡ send_assumption stack (negsuc 4 ∷ []) 1)
send_assumption-blind_example = send_assumption-blind stack (pos 1 ∷ []) (negsuc 4 ∷ []) 1 refl
