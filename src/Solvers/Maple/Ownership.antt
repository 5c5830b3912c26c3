-- ===== src/Solvers/Maple/Ownership.antt =====
-- The references that an adapter holds, while other threads hold the rest.
use mathlib.Core.Path.{subst}
use dpainless.Prelude.{
  ℕ, ◌+◌, ◌<◌, ◌≡◌, refl, sym, ap, ◌∙◌, List, [], ◌∷◌, Option, none, some, pos, length, get_elem?,
  map, All, ltb, arith,
}
use dpainless.Clauses.Exchange.{
  ClauseExchange, Heap, M, pure, lift, live, alloc_clause, release_clause,
}
use dpainless.Clauses.Exchange.Accounts.{
  one_at, count, count-append, IsAccounted, IsAccounted-cong, Runs, Runs-if, Runs-bind, Runs-eq,
  live-Runs, release_clause-Runs, alloc_clause-Runs,
}
use dpainless.Clauses.Buffer.{BufferApi, taken_then}
use dpainless.Sharing.Interface.{deref-some}
use dpainless.Solvers.Native.{Search, done, export_clause, import_unit, import_clause, SimpSolver}
use dpainless.Solvers.Literals.{mini_lit, int_lit}
use dpainless.Solvers.Maple.{
  Maple, cbk_export_clause, cbk_import_unit, cbk_import_clause, take_unit, take_clause,
  make_mini_vec, run_search,
}

-- A clause that stands in the buffer of units has a literal.
abbrev pub HasFirst : ClauseExchange → Type 0
HasFirst c = 0 < length c.lits

pub live-Accounted :
    (c : ClauseExchange) (h : Heap) (f : ℕ → ℕ)
    → IsAccounted h f
    → 0 < f c.addr
    → Runs (live c) h (λ _ h'. IsAccounted h' f)
live-Accounted c h f v held = (tt, h, live-Runs c h f v held, v)

pub lift-Accounted :
    {A : Type 0} (o : Option A) (a : A) (h : Heap) (f : ℕ → ℕ)
    → o ≡ some a
    → IsAccounted h f
    → Runs (lift o) h (λ _ h'. IsAccounted h' f)
lift-Accounted o a h f e v = (a, h, ap (λ p. lift p h) e, v)

pub one_at_self : (c : ClauseExchange) → one_at c c.addr ≡ 1
one_at_self c = ground arith

module _ {B : Type 0} (api : BufferApi B) where
  pub count-add :
      (a : ℕ) (b : B) (c : ClauseExchange)
      → count a (api.contents (api.add_clause b c)) ≡ count a (api.contents b) + one_at c a
  count-add a b c =
      ap (count a) (api.contents-add b c) ∙ omega (arith, count-append a (api.contents b) (c ∷ []))

  -- With what `getClause` returned.
  pub count-taken :
      (a : ℕ) (b : B) (o : Option ClauseExchange) (rest : B)
      → api.get_clause b ≡ (o, rest)
      → count a (taken_then o (api.contents rest)) ≡ count a (api.contents b)
  count-taken a b o rest e =
      ap (count a) (ap (λ r. taken_then r.0 (api.contents r.1)) (sym e) ∙ api.get_first b)

  pub All-taken :
      (P : ClauseExchange → Type 0) (b : B) (o : Option ClauseExchange) (rest : B)
      → api.get_clause b ≡ (o, rest)
      → All P (api.contents b)
      → All P (taken_then o (api.contents rest))
  All-taken P b o rest e p =
      subst (All P) (sym (ap (λ r. taken_then r.0 (api.contents r.1)) (sym e) ∙ api.get_first b)) p

module _ {T L B : Type 0} (solver : SimpSolver T L) (api : BufferApi B) where
  abbrev pub count_maple : ℕ → Maple solver api → ℕ
  count_maple a m =
      count a (api.contents m.clauses_to_import)
      + count a (api.contents m.units_to_import)
      + count a (api.contents m.clauses_to_export)
      + count a (api.contents m.clauses_to_add)

  -- With `f` the references of all others.
  abbrev pub OwnedMaple : (ℕ → ℕ) → Maple solver api → Heap → Type 0
  OwnedMaple f m h =
      All HasFirst (api.contents m.units_to_import) × IsAccounted h (λ a. count_maple a m + f a)

  cbk_export_clause-Runs :
      (lbd : ℕ) (cls : List L) (f : ℕ → ℕ) (m : Maple solver api) (h : Heap)
      → OwnedMaple f m h
      → Runs (cbk_export_clause solver api lbd cls m) h (OwnedMaple f)
  unfolding cbk_export_clause
  cbk_export_clause-Runs lbd cls f m h o =
      Runs-if (ltb m.lbd_limit lbd) (pure m) _ h (OwnedMaple f) (m, h, refl, o)
        (Runs-bind (alloc_clause (some lbd) (pos m.id) (length cls) (map (int_lit solver) cls)) _ h
          _ _
          (alloc_clause-Runs (some lbd) (pos m.id) (length cls) (map (int_lit solver) cls) h _ o.1)
          (λ c h' k. (
            record m { clauses_to_export = api.add_clause m.clauses_to_export c },
            h',
            refl,
            (o.0, IsAccounted-cong (λ a. omega (arith, count-add api a m.clauses_to_export c)) k.0),
          )))

  take_unit-Runs :
      (c : ClauseExchange) (f : ℕ → ℕ) (m : Maple solver api) (h : Heap)
      → HasFirst c
      → OwnedMaple (λ a. one_at c a + f a) m h
      → Runs (take_unit solver api c m) h (λ r h'. OwnedMaple f r.1 h')
  unfolding take_unit
  take_unit-Runs c f m h l o =
      let (x, e) = deref-some c.lits 0 l in
      Runs-bind (live c) _ h _ _ (live-Accounted c h _ o.1 (omega (arith, one_at_self c)))
        (λ _ h' v.
          Runs-bind (lift (get_elem? c.lits 0)) _ h' _ _ (lift-Accounted _ x h' _ e v) (λ y h'' w.
            Runs-bind (release_clause c) _ h'' _ _
              (release_clause-Runs c h'' (λ a. count_maple a m + f a) _ w (λ a. omega arith))
              (λ _ h3 u. ((mini_lit solver y, m), h3, refl, (o.0, u)))))

  take_clause-Runs :
      (c : ClauseExchange) (f : ℕ → ℕ) (m : Maple solver api) (h : Heap)
      → OwnedMaple (λ a. one_at c a + f a) m h
      → Runs (take_clause solver api c m) h (λ r h'. OwnedMaple f r.1 h')
  unfolding take_clause
  take_clause-Runs c f m h o =
      Runs-bind (live c) _ h _ _ (live-Accounted c h _ o.1 (omega (arith, one_at_self c)))
        (λ _ h' v.
          Runs-bind (release_clause c) _ h' _ _
            (release_clause-Runs c h' (λ a. count_maple a m + f a) _ v (λ a. omega arith))
            (λ _ h'' w. ((some (c.lbd, make_mini_vec solver api c), m), h'', refl, (o.0, w))))

  -- What `cbkMapleCOMSPSImportUnit` does with what it gets.
  abbrev pub import_unit_of :
      Option ClauseExchange × B → Maple solver api → M (L × Maple solver api)
  import_unit_of (o, rest) m = elim o [
    | none ↦ pure (solver.lit_undef, record m { units_to_import = rest })
    | some c ↦ take_unit solver api c (record m { units_to_import = rest })
  ]

  cbk_import_unit-Runs :
      (f : ℕ → ℕ) (m : Maple solver api) (h : Heap) (o : Option ClauseExchange) (rest : B)
      → api.get_clause m.units_to_import ≡ (o, rest)
      → OwnedMaple f m h
      → Runs (cbk_import_unit solver api m) h (λ r h'. OwnedMaple f r.1 h')
  unfolding cbk_import_unit
  cbk_import_unit-Runs f m h none rest e o =
      Runs-eq (cbk_import_unit solver api m) h _ (ap (λ r. import_unit_of r m h) e) (
        _,
        h,
        refl,
        (
          All-taken api HasFirst m.units_to_import none rest e o.0,
          IsAccounted-cong (λ a. omega (arith, count-taken api a m.units_to_import none rest e))
              o.1,
        ),
      )
  cbk_import_unit-Runs f m h (some c) rest e o =
      let all = All-taken api HasFirst m.units_to_import (some c) rest e o.0 in
      Runs-eq (cbk_import_unit solver api m) h _ (ap (λ r. import_unit_of r m h) e) (
        take_unit-Runs c f (record m { units_to_import = rest }) h all.0
          (
            all.1,
            IsAccounted-cong
                (λ a. omega (arith, count-taken api a m.units_to_import (some c) rest e)) o.1,
          ))

  abbrev pub import_clause_of :
      Option ClauseExchange × B
      → Maple solver api
      → M (Option (Option ℕ × List L) × Maple solver api)
  import_clause_of (o, rest) m = elim o [
    | none ↦ pure (none, record m { clauses_to_import = rest })
    | some c ↦ take_clause solver api c (record m { clauses_to_import = rest })
  ]

  cbk_import_clause-Runs :
      (f : ℕ → ℕ) (m : Maple solver api) (h : Heap) (o : Option ClauseExchange) (rest : B)
      → api.get_clause m.clauses_to_import ≡ (o, rest)
      → OwnedMaple f m h
      → Runs (cbk_import_clause solver api m) h (λ r h'. OwnedMaple f r.1 h')
  unfolding cbk_import_clause
  cbk_import_clause-Runs f m h none rest e o =
      Runs-eq (cbk_import_clause solver api m) h _ (ap (λ r. import_clause_of r m h) e) (
        (none, record m { clauses_to_import = rest }),
        h,
        refl,
        (
          o.0,
          IsAccounted-cong (λ a. omega (arith, count-taken api a m.clauses_to_import none rest e))
              o.1,
        ),
      )
  cbk_import_clause-Runs f m h (some c) rest e o =
      Runs-eq (cbk_import_clause solver api m) h _ (ap (λ r. import_clause_of r m h) e) (
        take_clause-Runs c f (record m { clauses_to_import = rest }) h
          (
            o.0,
            IsAccounted-cong
                (λ a. omega (arith, count-taken api a m.clauses_to_import (some c) rest e)) o.1,
          ))

  -- However a search calls the callbacks, it runs to its end without a fault, and the adapter holds
  -- its references throughout: a clause that is exported gets one, a clause that is imported gives up
  -- its own. Needed: the clauses in the buffer of units have a literal.
  pub run_search-Runs :
      (search : Search T L) (f : ℕ → ℕ) (m : Maple solver api) (h : Heap)
      → OwnedMaple f m h
      → Runs (run_search solver api search m) h (λ r h'. OwnedMaple f r.1 h')
  unfolding run_search
  run_search-Runs (done answer core) f m h o = ((answer, record m { core = core }), h, refl, o)
  run_search-Runs (export_clause lbd cls next) f m h o =
      Runs-bind (cbk_export_clause solver api lbd cls m) _ h _ _
        (cbk_export_clause-Runs lbd cls f m h o) (λ m' h' o'. run_search-Runs next f m' h' o')
  run_search-Runs (import_unit next) f m h o =
      Runs-bind (cbk_import_unit solver api m) _ h _ _
        (cbk_import_unit-Runs f m h (api.get_clause m.units_to_import).0
          (api.get_clause m.units_to_import).1 refl o)
        (λ r h' o'. run_search-Runs (next r.0) f r.1 h' o')
  run_search-Runs (import_clause next) f m h o =
      Runs-bind (cbk_import_clause solver api m) _ h _ _
        (cbk_import_clause-Runs f m h (api.get_clause m.clauses_to_import).0
          (api.get_clause m.clauses_to_import).1 refl o)
        (λ r h' o'. run_search-Runs (next r.0) f r.1 h' o')
