-- ===== src/Lib.antt =====
-- dpainless: a distributed parallel SAT solver. Each process runs several sequential solvers under
-- a working strategy, sharers move learned clauses between the solvers, and MpiComm moves them
-- between the processes. Paths below are from painless-v2/painless-src.
--
-- Clauses models clauses/. `Clauses.Exchange` is ClauseExchange.h and ClauseManager.h: a clause is
-- a value with an address, and a heap maps addresses to reference counts. The monad `M` passes the
-- heap on and is `none` where the code would use a clause that was freed, access a vector out of
-- range, or fail an assertion. `Clauses.Database` is ClauseDatabase.cpp (addClause, giveSelection)
-- with the wrap-around of `unsigned` and `size_t`; `Clauses.Filter` is ClauseFilter.cpp
-- (registerClause, clear, the hash functions). `Clauses.Buffer` is ClauseBuffer.cpp:
-- `Clauses.Buffer.Queue` has the states of a thread in addClause and in getClause, with one access
-- to shared memory a step, on elements at addresses; `Clauses.Buffer.Shared` interleaves the steps
-- of a thread that adds and one that gets; `Clauses.Buffer.Alone` runs the calls of one thread,
-- and fills the interface `BufferApi` that the rest uses.
--
-- Sharing models sharing/: `Sharing.Simple`, `Sharing.Horde` and `Sharing.Distribution` are the
-- doSharing of SimpleSharing.cpp, HordeSatSharing.cpp and DistributionSharing.cpp. The solvers are
-- a store behind the interface `SolverInterface` of `Sharing.Interface`, whose laws say that a
-- solver passes references on and drops or doubles none; the vectors of producers and consumers
-- are indices into the store, so that they may share solvers. `Sharing.Sharer` is Sharer.cpp: the
-- constructor, the registration of solvers, the two critical sections of a round and the
-- destructor, on the reference counts of solvers.
--
-- Comm models comm/MpiComm.cpp: `Comm.Group` is init and the targets of a message, `Comm.Wire` the
-- array that exportLearnedClauses writes and handleReceivedClauses reads, `Comm.Process`
-- addClausesToExternal, getClausesFromExternal and exportLearnedClauses. A message is the array
-- and the rank that it goes to; MPI itself is left out. `Comm.Messages` has the messages of
-- results, cubes, stops and interrupts: what is sent, receiveIncomingMsg over the messages that
-- wait, and the two strategies at its ends, LocalWorker.cpp and Dispatcher.cpp.
--
-- Solvers models Maple.cpp, Lingeling.cpp and SolverFactory.cpp of solvers/. `Solvers.Native` is
-- what it uses of MapleCOMSPS, as a parameter: a search is a tree of calls of the callbacks, and
-- ends. `Solvers.Literals` are the macros between the literals, `Solvers.Maple` the adapter, which
-- fills the interface of the sharing strategies. `Solvers.Lingeling` are the callbacks of
-- Lingeling.cpp. `Solvers.Factory` makes the solvers, numbers them and gives them phases; how many
-- fit into the memory and what `rand` returns are arguments.
--
-- Working models working/: `Working.Strategy` is the interface of WorkingStrategy.h, with the
-- calls that a strategy makes as values, and the globals of painless.h. `Working.Divide` is
-- DivideAndConquer.cpp: a round of the master's thread and join, which run under one mutex and are
-- the steps of `Working.Divide.Search`, in any order. The division variable, the copied solver and
-- the workers' results are arguments. Times decide only when a round of the master runs, and are
-- left out. `Working.Portfolio` is Portfolio.cpp. `Working.Sequential` is SequentialWorker.cpp:
-- the thread of a worker and the thread that starts, interrupts or deletes it, one access a step,
-- with the lock and the condition between them. `Working.Cube` is CubeAndConquer.cpp: solve and
-- join, and in `Working.Cube.Rounds` the start and the rounds of the master, which come in any
-- order with the joins. The workers have stopped when a round begins, and the solvers can be
-- cloned; the division variables, what a clone takes over and the order that the sort gives are
-- arguments. `Working.Cube.Rounds.Again` runs the thread of a worker below the strategy.
--
-- Utils models utils/: `Utils.Dimacs` is the reader of formulas in SatUtils.cpp, with one state
-- for each kind of place where it reads a character, `Utils.Model` its printer of models, on lines
-- of numbers, and `Utils.Parameters` is Parameters.h. Main models painless.cpp from the settings
-- to the start: the solvers, the sharers and the working strategy. An index past the end is
-- `none`.
--
-- Loops are structural recursion, on the vector or on the rounds that are left (`grow`,
-- `receive_from`, `targets_from`, `read_chars`); the number of rounds is the one that the loop's
-- condition gives, so no fuel runs out. An `int` that holds a literal, a size or a rank is not
-- wrapped; sizes and the number of literals a round are assumed below 2^31 where that matters.
--
-- The fuel of a call on a buffer is one more than the accesses that it makes alone. That of
-- `sparse_from` is the number of variables, which a step of at least 1 does not exceed, and that
-- of `log_of` is the number that is halved. A search that never ends is not a tree, and is left
-- out.
--
-- Not modelled: the sequential solvers (glucose, lingeling, mapleCOMSPS, minisat), which are
-- copies of other projects; the adapters GlucoseSyrup.cpp and MiniSat.cpp of solvers/, and of
-- Lingeling.cpp all but the callbacks; SimpleWorkingQueue.cpp of working/, which nothing uses; the
-- logger, the clocks and the threads of utils/; MPI, the wait for the end and the output in
-- painless.cpp. Several threads that add to one buffer, or get from it, at once are not in the
-- theorems.
pub mod Prelude
pub mod Clauses
pub mod Sharing
pub mod Comm
pub mod Working
pub mod Solvers
pub mod Utils
pub mod Main
pub mod Tests
