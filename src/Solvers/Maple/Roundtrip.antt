-- ===== src/Solvers/Maple/Roundtrip.antt =====
-- A clause that one solver exports and another imports.
use mathlib.Core.Path.{subst}
use dpainless.Prelude.{
  ℕ, ◌+◌, ◌≤◌, ◌≡◌, refl, sym, ap, ap₂, ◌∙◌, List, [], ◌∷◌, ◌++◌, Option, none, some, ℤ, pos, Bool,
  true, false, length, get_elem?, map, All, ltb, ◌==◌, if◌then◌else◌, arith,
}
use dpainless.Clauses.Exchange.{ClauseExchange, Heap, M, pure, lift, ◌>>=◌, live, release_clause}
use dpainless.Clauses.Exchange.Accounts.{
  one_at, IsAccounted, Runs, Runs-bind, Runs-eq, release_clause-Runs, alloc_clause-written,
}
use dpainless.Clauses.Buffer.{BufferApi, taken_then}
use dpainless.Solvers.Native.{SimpSolver}
use dpainless.Solvers.Literals.{mini_lit, int_lit, HasVar, mini_lit-int_lit}
use dpainless.Solvers.Maple.Ownership.{
  live-Accounted, one_at_self, import_unit_of, import_clause_of,
}
use dpainless.Solvers.Maple.{
  Maple, cbk_export_clause, cbk_import_unit, cbk_import_clause, take_unit, take_clause,
  make_mini_vec, add_learned_clauses, get_learned_clauses,
}

abbrev first_of : List ClauseExchange → Option ClauseExchange
first_of [] = none
first_of (c ∷ cs) = some c

module _ {T L B : Type 0} (solver : SimpSolver T L) (api : BufferApi B) where
  map-mini_lit-int_lit :
      (ls : List L) → All (HasVar solver) ls → map (mini_lit solver) (map (int_lit solver) ls) ≡ ls
  map-mini_lit-int_lit [] p = refl
  map-mini_lit-int_lit (l ∷ ls) p = cc (mini_lit-int_lit solver l p.0, map-mini_lit-int_lit ls p.1)

  abbrev pub imported : Option (Option ℕ × List L) → M (Option ℕ × List L)
  imported none = pure (none, [])
  imported (some r) = pure r

  -- What the search of the second solver gets: the literals, and the lbd where there is one.
  abbrev pub import_any : Bool → Maple solver api → M (Option ℕ × List L)
  import_any true m = cbk_import_unit solver api m >>= λ (l, m'). pure (none, l ∷ [])
  import_any false m = cbk_import_clause solver api m >>= λ (c, m'). imported c

  -- One solver exports a clause, a sharer takes it and gives it to another, which imports it.
  abbrev pub hand_over : ℕ → List L → Maple solver api → Maple solver api → M (Option ℕ × List L)
  hand_over lbd cls m n = cbk_export_clause solver api lbd cls m >>= λ m'.
      import_any (length cls == 1)
        (add_learned_clauses solver api (get_learned_clauses solver api m').0 n)

  abbrev pub handed : ℕ → List L → Option ℕ × List L
  handed lbd cls = (if length cls == 1 then none else some lbd, cls)

  single-taken :
      (b : B) (c : ClauseExchange) (o : Option ClauseExchange) (rest : B)
      → api.contents b ≡ c ∷ []
      → api.get_clause b ≡ (o, rest)
      → o ≡ some c
  single-taken b c none rest e f = absurd (ground (arith, e, api.get_nothing b, ap (λ r. r.0) f))
  single-taken b c (some d) rest e f =
      ap first_of (ap (λ r. taken_then r.0 (api.contents r.1)) (sym f) ∙ api.get_first b ∙ e)

  -- `getClause` on a buffer with one clause.
  get_clause-single :
      (b : B) (c : ClauseExchange)
      → api.contents b ≡ c ∷ []
      → api.get_clause b ≡ (some c, (api.get_clause b).1)
  get_clause-single b c e =
      ap (λ o. (o, (api.get_clause b).1))
        (single-taken b c (api.get_clause b).0 (api.get_clause b).1 e refl)

  import_unit-single :
      (c : ClauseExchange) (l : ℤ) (f : ℕ → ℕ) (n : Maple solver api) (h : Heap)
      → api.contents n.units_to_import ≡ c ∷ []
      → c.lits ≡ l ∷ []
      → IsAccounted h (λ a. one_at c a + f a)
      → Runs (cbk_import_unit solver api n) h (λ r h'. (r.0 ≡ mini_lit solver l) × IsAccounted h' f)
  unfolding cbk_import_unit take_unit
  import_unit-single c l f n h e g v =
      let rest = (api.get_clause n.units_to_import).1 in
      Runs-eq (cbk_import_unit solver api n) h _
        (ap (λ r. import_unit_of solver api r n h) (get_clause-single n.units_to_import c e))
        (Runs-bind (live c) _ h _ (λ r h'. (r.0 ≡ mini_lit solver l) × IsAccounted h' f)
          (live-Accounted c h _ v (omega (arith, one_at_self c)))
          (λ _ h' w.
            Runs-bind (lift (get_elem? c.lits 0)) _ h'
              (λ y h''. (y ≡ l) × IsAccounted h'' (λ a. one_at c a + f a))
              (λ r h'. (r.0 ≡ mini_lit solver l) × IsAccounted h' f)
              (l, h', ap (λ ls. lift (get_elem? ls 0) h') g, (refl, w))
              (λ y h'' k.
                Runs-bind (release_clause c) _ h'' (λ _ h3. IsAccounted h3 f)
                  (λ r h'. (r.0 ≡ mini_lit solver l) × IsAccounted h' f)
                  (release_clause-Runs c h'' f _ k.1 (λ a. refl))
                  (λ _ h3 u. (
                    (mini_lit solver y, record n { units_to_import = rest }),
                    h3,
                    refl,
                    (ap (mini_lit solver) k.0, u),
                  )))))

  import_clause-single :
      (c : ClauseExchange) (f : ℕ → ℕ) (n : Maple solver api) (h : Heap)
      → api.contents n.clauses_to_import ≡ c ∷ []
      → IsAccounted h (λ a. one_at c a + f a)
      → Runs
          (cbk_import_clause solver api n)
          h
          (λ r h'. (r.0 ≡ some (c.lbd, map (mini_lit solver) c.lits)) × IsAccounted h' f)
  unfolding cbk_import_clause take_clause make_mini_vec
  import_clause-single c f n h e v =
      let rest = (api.get_clause n.clauses_to_import).1 in
      Runs-eq (cbk_import_clause solver api n) h _
        (ap (λ r. import_clause_of solver api r n h) (get_clause-single n.clauses_to_import c e))
        (Runs-bind (live c) _ h _ _ (live-Accounted c h _ v (omega (arith, one_at_self c)))
          (λ _ h' w.
            Runs-bind (release_clause c) _ h' _ _ (release_clause-Runs c h' f _ w (λ a. refl))
              (λ _ h'' u. (
                (some (c.lbd, make_mini_vec solver api c), record n { clauses_to_import = rest }),
                h'',
                refl,
                (refl, u),
              ))))

  -- A clause that the callback wrote.
  abbrev IsWritten : ℕ → List L → ClauseExchange → Type 0
  IsWritten lbd cls c =
      (c.size ≡ length cls) × (c.lits ≡ map (int_lit solver) cls) × (c.lbd ≡ some lbd)

  export_clause-IsWritten :
      (lbd : ℕ) (cls : List L) (f : ℕ → ℕ) (m : Maple solver api) (h : Heap)
      → IsAccounted h f
      → lbd ≤ m.lbd_limit
      → api.contents m.clauses_to_export ≡ []
      → Runs (cbk_export_clause solver api lbd cls m) h (λ m' h'.
        (c : ClauseExchange) × IsWritten lbd cls c
        × (api.contents m'.clauses_to_export ≡ c ∷ [])
        × IsAccounted h' (λ a. one_at c a + f a))
  unfolding cbk_export_clause
  export_clause-IsWritten lbd cls f m h v l e =
      let (c, h', r, w) =
        alloc_clause-written (some lbd) (pos m.id) (length cls) (map (int_lit solver) cls) h f v in
      let under : ltb m.lbd_limit lbd ≡ false = ground arith in
      (
        record m { clauses_to_export = api.add_clause m.clauses_to_export c },
        h',
        rw under (rw (r, ◌>>=◌) refl),
        (
          c,
          (w.1, w.2, w.3),
          api.contents-add m.clauses_to_export c ∙ ap (λ cs. cs ++ c ∷ []) e,
          w.0,
        ),
      )

  added-unit :
      (c : ClauseExchange) (n : Maple solver api)
      → (c.size == 1) ≡ true
      → api.contents n.units_to_import ≡ []
      → api.contents (add_learned_clauses solver api (c ∷ []) n).units_to_import ≡ c ∷ []
  unfolding add_learned_clauses
  added-unit c n s e = rw s (api.contents-add n.units_to_import c ∙ ap (λ cs. cs ++ c ∷ []) e)

  added-clause :
      (c : ClauseExchange) (n : Maple solver api)
      → (c.size == 1) ≡ false
      → api.contents n.clauses_to_import ≡ []
      → api.contents (add_learned_clauses solver api (c ∷ []) n).clauses_to_import ≡ c ∷ []
  unfolding add_learned_clauses
  added-clause c n s e = rw s (api.contents-add n.clauses_to_import c ∙ ap (λ cs. cs ++ c ∷ []) e)

  learned-single :
      (m : Maple solver api) (c : ClauseExchange)
      → api.contents m.clauses_to_export ≡ c ∷ []
      → (get_learned_clauses solver api m).0 ≡ c ∷ []
  unfolding get_learned_clauses
  learned-single m c e = api.get-contents m.clauses_to_export ∙ e

  -- What the second solver imports of a clause that was written.
  import_any-handed :
      (is_unit : Bool) (lbd : ℕ) (cls : List L) (c : ClauseExchange) (f : ℕ → ℕ)
      (n : Maple solver api) (h : Heap)
      → (length cls == 1) ≡ is_unit
      → IsWritten lbd cls c
      → All (HasVar solver) cls
      → api.contents n.units_to_import ≡ []
      → api.contents n.clauses_to_import ≡ []
      → IsAccounted h (λ a. one_at c a + f a)
      → Runs
          (import_any is_unit (add_learned_clauses solver api (c ∷ []) n))
          h
          (λ r h'. (r ≡ (if is_unit then none else some lbd, cls)) × IsAccounted h' f)
  import_any-handed true lbd [] c f n h s w p u e v = absurd (ground (arith, s))
  import_any-handed true lbd (l ∷ k ∷ ls) c f n h s w p u e v = absurd (ground (arith, s))
  import_any-handed true lbd (l ∷ []) c f n h s w p u e v =
      let n' = add_learned_clauses solver api (c ∷ []) n in
      Runs-bind (cbk_import_unit solver api n') _ h _ _
        (import_unit-single c (int_lit solver l) f n' h (added-unit c n (ground (arith, w.0)) u) w.1
          v)
        (λ r h' k. (
          (none, r.0 ∷ []),
          h',
          refl,
          (ap (λ x. (none, x ∷ [])) (k.0 ∙ mini_lit-int_lit solver l p.0), k.1),
        ))
  import_any-handed false lbd cls c f n h s w p u e v =
      let n' = add_learned_clauses solver api (c ∷ []) n in
      Runs-bind (cbk_import_clause solver api n') _ h _ _
        (import_clause-single c f n' h (added-clause c n (ap (λ k. k == 1) w.0 ∙ s) e) v)
        (λ r h' k. (
          (some lbd, cls),
          h',
          ap (λ o. imported o h')
              (k.0
                ∙ ap₂ (λ a b. some (a, b)) w.2
                    (ap (map (mini_lit solver)) w.1 ∙ map-mini_lit-int_lit cls p)),
          (refl, k.1),
        ))

  -- A clause of literals with variables, and with an lbd within the limit, that one solver exports, and
  -- that a sharer takes and gives to another solver, reaches the search of the second solver with
  -- exactly its literals in their order, and with its lbd unless it is a unit. This runs without a
  -- fault and leaves the references of all others as they were. The buffers on the way are empty before.
  pub hand_over-handed :
      (lbd : ℕ) (cls : List L) (f : ℕ → ℕ) (m n : Maple solver api) (h : Heap)
      → IsAccounted h f
      → lbd ≤ m.lbd_limit
      → All (HasVar solver) cls
      → api.contents m.clauses_to_export ≡ []
      → api.contents n.units_to_import ≡ []
      → api.contents n.clauses_to_import ≡ []
      → Runs (hand_over lbd cls m n) h (λ r h'. (r ≡ handed lbd cls) × IsAccounted h' f)
  hand_over-handed lbd cls f m n h v l p e u k =
      Runs-bind (cbk_export_clause solver api lbd cls m) _ h _ _
        (export_clause-IsWritten lbd cls f m h v l e)
        (λ m' h' (c, w, x, o).
          subst
            (λ cs.
              Runs (import_any (length cls == 1) (add_learned_clauses solver api cs n)) h'
                (λ r h'. (r ≡ handed lbd cls) × IsAccounted h' f))
            (sym (learned-single m' c x))
            (import_any-handed (length cls == 1) lbd cls c f n h' refl w p u k o))
