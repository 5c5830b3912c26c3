-- ===== src/Solvers/Lingeling/Buffers.antt =====
-- The arrays of the Lingeling adapter are large enough, and its references are kept.
use mathlib.Core.Path.{subst}
use dpainless.Prelude.{
  ℕ, ◌+◌, ◌≤◌, ◌≡◌, refl, sym, ap, ◌∙◌, List, [], ◌∷◌, ◌++◌, some, ℤ, pos, length, length-append,
  get_elem?, All, arith,
}
use dpainless.Clauses.Exchange.{ClauseExchange, Heap, lift, live, release_clause}
use dpainless.Clauses.Exchange.Accounts.{
  one_at, count, IsAccounted, IsAccounted-cong, Runs, Runs-bind, release_clause-Runs,
}
use dpainless.Clauses.Buffer.{BufferApi}
use dpainless.Sharing.Interface.{deref-some}
use dpainless.Solvers.Maple.Ownership.{HasFirst, live-Accounted, one_at_self, lift-Accounted}
use dpainless.Solvers.Lingeling.{
  Lingeling, consume_units, write_array, units_size, cls_size, take_units, take_cls,
}

write_array-fits :
    (size : ℕ) (lits : List ℤ) (h : Heap)
    → length lits ≤ size
    → write_array size lits h ≡ some (lits, h)
unfolding write_array
write_array-fits size lits h l = ground (arith, l)

module _ {B : Type 0} (api : BufferApi B) where
  -- Units are read and released; the array that was made large enough holds them.
  take_units-Runs :
      (cs : List ClauseExchange) (h : Heap) (f g : ℕ → ℕ)
      → All HasFirst cs
      → IsAccounted h g
      → ((a : ℕ) → g a ≡ count a cs + f a)
      → Runs (take_units api cs) h (λ lits h'. IsAccounted h' f × (length lits ≡ length cs))
  unfolding take_units
  take_units-Runs [] h f g l v e =
      ([], h, refl, (IsAccounted-cong (λ a. omega (arith, e a)) v, refl))
  take_units-Runs (c ∷ cs) h f g l v e =
      let (x, found) = deref-some c.lits 0 l.0 in
      Runs-bind (live c) _ h _ _ (live-Accounted c h g v (omega (arith, e c.addr, one_at_self c)))
        (λ _ h₁ v₁.
          Runs-bind (lift (get_elem? c.lits 0)) _ h₁ _ _ (lift-Accounted _ x h₁ g found v₁)
            (λ lit h₂ v₂.
              Runs-bind (release_clause c) _ h₂ _ _
                (release_clause-Runs c h₂ (λ a. count a cs + f a) g v₂ (λ a. omega (arith, e a)))
                (λ _ h₃ v₃.
                  Runs-bind (take_units api cs) _ h₃ _ _
                    (take_units-Runs cs h₃ f _ l.1 v₃ (λ a. refl))
                    (λ lits h₄ r. (lit ∷ lits, h₄, refl, (r.0, omega (arith, r.1)))))))

  -- A search that asks for units gets one for each clause that waits in the buffer of units, written
  -- within the array, and the buffer is left empty with its references given up.
  pub consume_units-Runs :
      (lp : Lingeling api) (h : Heap) (f : ℕ → ℕ)
      → All HasFirst (api.contents lp.units_to_import)
      → IsAccounted h (λ a. count a (api.contents lp.units_to_import) + f a)
      → Runs (consume_units api lp) h (λ r h'.
        IsAccounted h' f
        × (length r.0 ≡ length (api.contents lp.units_to_import))
        × (api.contents r.1.units_to_import ≡ []))
  unfolding consume_units
  consume_units-Runs lp h f l v =
      let tmp = (api.get_clauses lp.units_to_import).0 in
      let same : tmp ≡ api.contents lp.units_to_import = api.get-contents lp.units_to_import in
      let size = units_size api lp.units_buffer_size (length tmp) in
      Runs-bind (take_units api tmp) _ h _ _
        (take_units-Runs tmp h f _ (subst (All HasFirst) (sym same) l) v
          (λ a. ap (λ cs. count a cs + f a) (sym same)))
        (λ lits h' r.
          Runs-bind (write_array size lits) _ h'
            (λ w h''. IsAccounted h'' f × (length w ≡ length tmp)) _
            (lits, h', write_array-fits size lits h' (ground (arith, r.1)), r)
            (λ w h'' q. (
              (
                w,
                record lp {
                  units_to_import = (api.get_clauses lp.units_to_import).1;
                  units_buffer_size = size;
                },
              ),
              h'',
              refl,
              (q.0, q.1 ∙ ap length same, api.contents-get lp.units_to_import),
            )))

  -- A clause that was taken out of the buffer is written with a 0 behind it within its array, which
  -- stays large enough, and is released.
  pub take_cls-Runs :
      (cls : ClauseExchange) (lp : Lingeling api) (h : Heap) (f : ℕ → ℕ)
      → 100 ≤ lp.cls_buffer_size
      → IsAccounted h (λ a. one_at cls a + f a)
      → Runs (take_cls api cls lp) h (λ r h'.
        IsAccounted h' f
        × (r.0 ≡ some (cls.lits ++ pos 0 ∷ [], cls.lbd))
        × (100 ≤ r.1.cls_buffer_size))
  unfolding take_cls
  take_cls-Runs cls lp h f large v =
      let size = cls_size api lp.cls_buffer_size (length cls.lits) in
      let room : length (cls.lits ++ pos 0 ∷ []) ≤ size =
        ground (arith, large, length-append cls.lits (pos 0 ∷ [])) in
      Runs-bind (live cls) _ h _ _ (live-Accounted cls h _ v (omega (arith, one_at_self cls)))
        (λ _ h₁ v₁.
          Runs-bind (write_array size (cls.lits ++ pos 0 ∷ [])) _ h₁
            (λ w h₂. IsAccounted h₂ (λ a. one_at cls a + f a) × (w ≡ cls.lits ++ pos 0 ∷ [])) _
            (
              cls.lits ++ pos 0 ∷ [],
              h₁,
              write_array-fits size (cls.lits ++ pos 0 ∷ []) h₁ room,
              (v₁, refl),
            )
            (λ w h₂ r.
              Runs-bind (release_clause cls) _ h₂ _ _
                (release_clause-Runs cls h₂ f _ r.0 (λ a. refl))
                (λ _ h₃ v₃. (
                  (some (w, cls.lbd), record lp { cls_buffer_size = size }),
                  h₃,
                  refl,
                  (v₃, ap (λ x. some (x, cls.lbd)) r.1, ground (arith, large)),
                ))))
