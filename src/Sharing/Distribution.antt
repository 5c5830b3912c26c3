-- ===== src/Sharing/Distribution.antt =====
-- sharing/DistributionSharing.cpp: sharing inside a process and, through `MpiComm`, with others.
pub mod Ownership
pub mod Rounds
use dpainless.Prelude.{
  ℕ, zero, suc, ◌+◌, List, [], ◌∷◌, ◌++◌, Option, none, some, ℤ, pos, negsuc, Bool, true, false,
  not, length, get_elem?, set, ◌==◌, if◌then◌else◌,
}
use dpainless.Clauses.Exchange.{
  ClauseExchange, M, pure, fault, lift, ◌>>=◌, ◌>>◌, release_clause, release_all, increase_all,
}
use dpainless.Clauses.Database.{u64, ClauseDatabase, Selection, add_clause, give_selection}
use dpainless.Clauses.Filter.{ClauseFilter, new_filter, register_clause}
use dpainless.Clauses.Buffer.{BufferApi}
use dpainless.Comm.Process.{MpiComm, add_clauses_to_external, get_clauses_from_external}
use dpainless.Sharing.Interface.{SolverInterface, SharingStatistics, deref}

-- `filters_made` is the `once_flag`.
pub record DistributionSharing : Type 0 where
  pub literal_per_round : ℕ
  pub database : ClauseDatabase
  pub solver_filters : List ClauseFilter
  pub local_filter : ClauseFilter
  pub filters_made : Bool
  pub stats : SharingStatistics

-- What the loop over the learned clauses of one solver changes.
pub record Intake : Type 0 where
  pub own : ClauseFilter
  pub shared : ClauseFilter
  pub kept : ClauseDatabase

unfoldable pub keep_if_new : ClauseExchange → Intake → M Intake
keep_if_new c t =
    let (fresh, filter) = register_clause t.shared c.lits in
    if fresh
    then (add_clause t.kept c >>= λ db. pure (record t { shared = filter; kept = db }))
    else (release_clause c >> pure (record t { shared = filter }))

-- The second filter is asked only if the first one lets the clause in.
unfoldable pub keep_one : ClauseExchange → Intake → M Intake
unfolding keep_if_new
keep_one c t =
    let (fresh, filter) = register_clause t.own c.lits in
    if fresh
    then keep_if_new c (record t { own = filter })
    else (release_clause c >> pure (record t { own = filter }))

unfoldable pub keep_all : List ClauseExchange → Intake → M Intake
unfolding keep_one
keep_all [] t = pure t
keep_all (c ∷ cs) t = keep_one c t >>= keep_all cs

-- `cls->from == i`
abbrev pub is_from : ClauseExchange → ℕ → Bool
is_from c i = elim c.from [ pos n ↦ n == i | negsuc n ↦ false ]

unfoldable pub offer : ℕ → ClauseExchange → ClauseFilter → Bool × ClauseFilter
offer i c filter = if is_from c i then (false, filter) else register_clause filter c.lits

-- The clauses for solver `i`.
unfoldable pub choose : ℕ → List ClauseExchange → ClauseFilter → List ClauseExchange × ClauseFilter
unfolding offer
choose i [] filter = ([], filter)
choose i (c ∷ cs) filter =
    let (fresh, filter') = offer i c filter in
    let (rest, filter'') = choose i cs filter' in (if fresh then c ∷ rest else rest, filter'')

unfoldable pub fresh_filters : ℕ → List ClauseFilter
fresh_filters zero = []
fresh_filters (suc n) = new_filter ∷ fresh_filters n

-- `n` empty filters, pushed once.
unfoldable pub make_filters : ℕ → DistributionSharing → DistributionSharing
unfolding fresh_filters
make_filters n dist = if dist.filters_made then dist else record dist {
  solver_filters = dist.solver_filters ++ fresh_filters n;
  filters_made = true;
}

module _ {S B : Type 0} (api : SolverInterface S) (buf : BufferApi B) where
  -- One producer, the `i`-th.
  unfoldable pub collect_one : ℕ → List ClauseExchange → DistributionSharing → M DistributionSharing
  unfolding keep_all
  collect_one i learned dist = do
    own ← deref dist.solver_filters i
    t ← keep_all learned (record { own = own; shared = dist.local_filter; kept = dist.database })
    pure (record dist {
      database = t.kept;
      solver_filters = set dist.solver_filters i t.own;
      local_filter = t.shared;
      stats = record dist.stats {
        received_clauses = u64 (dist.stats.received_clauses + length learned);
      };
    })

  -- The loop over the producers, from the `i`-th on.
  unfoldable pub collect :
      ℕ → List ℕ → List S → DistributionSharing → M (List S × DistributionSharing)
  unfolding collect_one
  collect i [] ss dist = pure (ss, dist)
  collect i (p ∷ from) ss dist = do
    s ← deref ss p
    let (learned, s') = api.get_learned_clauses s
    dist' ← collect_one i learned dist
    collect (i + 1) from (set ss p s') dist'

  -- The loop over the consumers, from the `i`-th on.
  unfoldable pub hand_out :
      ℕ → List ℕ → List ClauseExchange → List S → List ClauseFilter → M (List S × List ClauseFilter)
  unfolding choose
  hand_out i [] tmp ss filters = pure (ss, filters)
  hand_out i (p ∷ to) tmp ss filters = do
    t ← deref ss p
    filter ← deref filters i
    let (chosen, filter') = choose i tmp filter
    increase_all chosen
    hand_out (i + 1) to tmp (set ss p (api.add_learned_clauses t chosen)) (set filters i filter')

  -- What a round works on.
  pub record Round : Type 0 where
    pub solvers : List S
    pub sharing : DistributionSharing
    pub comm : MpiComm buf

  -- From the selection on.
  unfoldable pub share_selection : List ℕ → Selection → Round → M Round
  unfolding hand_out
  share_selection to sel r = do
    comm ← add_clauses_to_external buf sel.selected r.comm
    let (tmp, comm') = get_clauses_from_external buf sel.selected comm
    (ss, filters) ← hand_out 0 to tmp r.solvers r.sharing.solver_filters
    release_all tmp
    pure (record {
      solvers = ss;
      sharing = record r.sharing { solver_filters = filters };
      comm = comm';
    })

  unfoldable pub share_collected : List ℕ → List S → DistributionSharing → MpiComm buf → M Round
  unfolding share_selection
  share_collected to ss dist comm = do
    (db, sel) ← lift (give_selection dist.database [] dist.literal_per_round)
    share_selection to sel (record {
      solvers = ss;
      sharing = record dist {
        database = db;
        stats = record dist.stats {
          shared_clauses = u64 (dist.stats.shared_clauses + sel.select_count);
        };
      };
      comm = comm;
    })

  -- The two assertions are faults.
  unfoldable pub do_sharing : List ℕ → List ℕ → Round → M Round
  unfolding collect share_collected make_filters
  do_sharing from to r =
      let n = length to in
      let dist = make_filters n r.sharing in
      if not (length from == n)
      then fault
      else if not (length dist.solver_filters == n)
      then fault
      else (collect 0 from r.solvers dist >>= λ (ss, dist'). share_collected to ss dist' r.comm)
