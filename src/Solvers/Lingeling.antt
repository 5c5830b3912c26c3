-- ===== src/Solvers/Lingeling.antt =====
-- solvers/Lingeling.cpp: the callbacks through which clauses leave and enter a search, with the two
-- arrays that hand literals over. The search itself, and the calls of the library, are left out.
pub mod Buffers
use dpainless.Prelude.{
  ℕ, zero, suc, ◌+◌, ◌*◌, ◌/◌, List, [], ◌∷◌, ◌++◌, Option, none, some, ℤ, pos, length, get_elem?,
  leb, ltb, ◌==◌, if◌then◌else◌,
}
use dpainless.Clauses.Exchange.{
  ClauseExchange, M, pure, fault, lift, ◌>>=◌, ◌>>◌, live, alloc_clause, release_clause,
}
use dpainless.Clauses.Buffer.{BufferApi}

-- A write of that many literals into an array of that size.
unfoldable pub write_array : ℕ → List ℤ → M (List ℤ)
write_array size lits = if leb (length lits) size then pure lits else fault

module _ {B : Type 0} (api : BufferApi B) where
  -- The arrays have a size; what stands in them is written before it is read.
  pub record Lingeling : Type 0 where
    pub id : ℕ
    pub glue_limit : ℕ
    pub units_buffer_size : ℕ
    pub cls_buffer_size : ℕ
    pub clauses_to_import : B
    pub units_to_import : B
    pub clauses_to_export : B
    pub clauses_to_add : B

  -- Both constructors.
  unfoldable pub new_lingeling : ℕ → ℕ → Lingeling
  new_lingeling id glue_limit = record {
    id = id;
    glue_limit = glue_limit;
    units_buffer_size = 100;
    cls_buffer_size = 100;
    clauses_to_import = api.empty;
    units_to_import = api.empty;
    clauses_to_export = api.empty;
    clauses_to_add = api.empty;
  }

  -- The lbd is not set.
  unfoldable pub produce_unit : ℤ → Lingeling → M Lingeling
  produce_unit lit lp = do
    ncls ← alloc_clause none (pos lp.id) 1 (lit ∷ [])
    pure (record lp { clauses_to_export = api.add_clause lp.clauses_to_export ncls })

  -- A clause of two or more literals.
  unfoldable pub produce_clause : List ℤ → ℕ → Lingeling → M Lingeling
  produce_clause cls glue lp = if ltb lp.glue_limit glue then pure lp else do
    ncls ← alloc_clause (some glue) (pos lp.id) (length cls) cls
    pure (record lp { clauses_to_export = api.add_clause lp.clauses_to_export ncls })

  -- The literals before the 0, on a glue limit that is not negative.
  unfoldable pub produce : List ℤ → ℕ → Lingeling → M Lingeling
  unfolding produce_unit produce_clause
  produce [] glue lp = fault
  produce (lit ∷ []) glue lp = produce_unit lit lp
  produce (lit ∷ lit' ∷ lits) glue lp = produce_clause (lit ∷ lit' ∷ lits) glue lp

  -- The size of the array of units: 1.6 times as many as there are, cut off.
  abbrev pub units_size : ℕ → ℕ → ℕ
  units_size size n = if leb size n then n * 8 / 5 else size

  abbrev pub cls_size : ℕ → ℕ → ℕ
  cls_size size n = if leb size (n + 1) then n * 8 / 5 else size

  -- `tmp[i]->lits[0]` for each unit, which is released.
  unfoldable pub take_units : List ClauseExchange → M (List ℤ)
  take_units [] = pure []
  take_units (c ∷ cs) = do
    live c
    lit ← lift (get_elem? c.lits 0)
    release_clause c
    lits ← take_units cs
    pure (lit ∷ lits)

  -- The units between `*start` and `*end`.
  unfoldable pub consume_units : Lingeling → M (List ℤ × Lingeling)
  unfolding take_units write_array
  consume_units lp =
      let (tmp, rest) = api.get_clauses lp.units_to_import in
      let size = units_size lp.units_buffer_size (length tmp) in
      do
        lits ← take_units tmp
        written ← write_array size lits
        pure (written, record lp { units_to_import = rest; units_buffer_size = size })

  -- The clause with the 0 behind it.
  unfoldable pub take_cls : ClauseExchange → Lingeling → M (Option (List ℤ × Option ℕ) × Lingeling)
  unfolding write_array
  take_cls cls lp = do
    live cls
    written ← write_array (cls_size lp.cls_buffer_size (length cls.lits)) (cls.lits ++ pos 0 ∷ [])
    release_clause cls
    pure (
      some (written, cls.lbd),
      record lp { cls_buffer_size = cls_size lp.cls_buffer_size (length cls.lits) },
    )

  unfoldable pub consume_cls : Lingeling → M (Option (List ℤ × Option ℕ) × Lingeling)
  unfolding take_cls
  consume_cls lp =
      let (cls, rest) = api.get_clause lp.clauses_to_import in
      let lp' = record lp { clauses_to_import = rest } in
      elim cls [ none ↦ pure (none, lp') | some c ↦ take_cls c lp' ]
