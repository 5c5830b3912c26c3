-- ===== src/Utils/Model/Lines.antt =====
-- The lines that printModel writes.
use mathlib.Core.List.{append-nil, append_assoc}
use mathlib.Core.Path.{subst}
use dpainless.Prelude.{
  ℕ, ◌+◌, ◌≤◌, ◌≡◌, refl, ap, sym, ◌∙◌, List, [], ◌∷◌, ◌++◌, ℤ, pos, All, All-append, ltb,
  le_of_ltb, ◌==◌, if◌then◌else◌, arith, Bool-cases, inl, inr,
}
use dpainless.Utils.Model.{
  Decimal, IsDecimal, int_width, printed, Page, new_line, print_int, print_one, print_from,
  print_model, numbers_width, line_width,
}
use dpainless.Utils.Model.Width.{int_width-printed}

-- The numbers of all lines.
abbrev pub concat : List (List ℤ) → List ℤ
concat [] = []
concat (l ∷ ls) = l ++ concat ls

concat-snoc : (ls : List (List ℤ)) (l : List ℤ) → concat (ls ++ l ∷ []) ≡ concat ls ++ l
concat-snoc [] l = append-nil l
concat-snoc (k ∷ ls) l = ap (◌++◌ k) (concat-snoc ls l) ∙ sym (append_assoc k (concat ls) l)

module _ (d : Decimal) (law : IsDecimal d) where
  abbrev page_width : List ℤ → ℕ
  page_width [] = 0
  page_width (i ∷ is) = line_width d (i ∷ is)

  numbers_width-append :
      (is js : List ℤ) → numbers_width d (is ++ js) ≡ numbers_width d is + numbers_width d js
  numbers_width-append [] js = omega arith
  numbers_width-append (i ∷ is) js = omega (arith, numbers_width-append is js)

  page_width-snoc :
      (is : List ℤ) (i : ℤ)
      → page_width (is ++ i ∷ [])
        ≡ (if page_width is == 0 then 1 else page_width is) + (1 + printed d i)
  page_width-snoc [] i = omega arith
  page_width-snoc (j ∷ is) i = ground (arith, numbers_width-append is (i ∷ []))

  -- The page holds the numbers so far.
  record IsPage (p : Page d) (so_far : List ℤ) : Type 0 where
    text : concat p.lines ++ p.last ≡ so_far
    fit : All (λ l. line_width d l ≤ 80) p.lines
    used : p.used ≡ page_width p.last
    small : p.used ≤ 80

  line_width-page : (is : List ℤ) → page_width is ≤ 80 → line_width d is ≤ 80
  line_width-page [] h = omega arith
  line_width-page (i ∷ is) h = h

  new_line-IsPage : (p : Page d) (so_far : List ℤ) → IsPage p so_far → IsPage (new_line d p) so_far
  new_line-IsPage p so_far q = record {
    text = append-nil (concat (p.lines ++ p.last ∷ [])) ∙ concat-snoc p.lines p.last ∙ q.text;
    fit =
        All-append (λ l. line_width d l ≤ 80) p.lines (p.last ∷ []) q.fit
          (line_width-page p.last (omega (arith, q.used, q.small)), tt);
    used = refl;
    small = omega arith;
  }

  print_int-IsPage :
      (i : ℤ) (p : Page d) (so_far : List ℤ)
      → IsPage p so_far
      → printed d i ≤ 78
      → p.used + 1 + printed d i ≤ 80
      → IsPage (print_int d i p) (so_far ++ i ∷ [])
  print_int-IsPage i p so_far q narrow room = record {
    text = sym (append_assoc (concat p.lines) p.last (i ∷ [])) ∙ ap (λ t. t ++ i ∷ []) q.text;
    fit = q.fit;
    used =
        ap (λ u. (if u == 0 then 1 else u) + (1 + printed d i)) q.used
        ∙ sym (page_width-snoc p.last i);
    small = ground arith;
  }

  print_one-IsPage :
      (i : ℤ) (p : Page d) (so_far : List ℤ)
      → IsPage p so_far
      → printed d i ≤ 78
      → IsPage (print_one d i p) (so_far ++ i ∷ [])
  unfolding print_one
  print_one-IsPage i p so_far q narrow = elim (Bool-cases (ltb 80 (p.used + 1 + int_width d i))) [
    | inl full ↦ rw full (
        print_int-IsPage i (new_line d p) so_far (new_line-IsPage p so_far q) narrow
          (omega (arith, narrow)))
    | inr room ↦ rw room (
        print_int-IsPage i p so_far q narrow (
          omega (arith, int_width-printed d law i, le_of_ltb 80 (p.used + 1 + int_width d i) room)))
  ]

  print_from-IsPage :
      (is : List ℤ) (p : Page d) (so_far : List ℤ)
      → All (λ i. printed d i ≤ 78) is
      → IsPage p so_far
      → IsPage (print_from d is p) (so_far ++ is)
  unfolding print_from
  print_from-IsPage [] p so_far h q = record {
    text = q.text ∙ sym (append-nil so_far);
    fit = q.fit;
    used = q.used;
    small = q.small;
  }
  print_from-IsPage (i ∷ is) p so_far h q =
      subst (IsPage (print_from d is (print_one d i p))) (append_assoc so_far (i ∷ []) is) (
        print_from-IsPage is (print_one d i p) (so_far ++ i ∷ []) h.1
          (print_one-IsPage i p so_far q h.0))

  -- If the logarithm is right and no number takes more than 78 characters, each line of a model has at
  -- most 80, and the lines hold the numbers of the model in their order, with a 0 at the end.
  pub print_model-fits :
      (model : List ℤ)
      → All (λ i. printed d i ≤ 78) model
      → All (λ l. line_width d l ≤ 80) (print_model d model)
        × (concat (print_model d model) ≡ model ++ pos 0 ∷ [])
  unfolding print_model
  print_model-fits model h =
      let zero_fits : printed d (pos 0) ≤ 78 = omega (arith, law.digits_zero) in
      let q =
        print_from-IsPage (model ++ pos 0 ∷ []) (record { lines = []; last = []; used = 0 }) []
          (All-append (λ i. printed d i ≤ 78) model (pos 0 ∷ []) h (zero_fits, tt))
          (record { text = refl; fit = tt; used = refl; small = omega arith }) in
      let p = print_from d (model ++ pos 0 ∷ []) (record { lines = []; last = []; used = 0 }) in
      (
        All-append (λ l. line_width d l ≤ 80) p.lines (p.last ∷ []) q.fit
            (line_width-page p.last (omega (arith, q.used, q.small)), tt),
        concat-snoc p.lines p.last ∙ q.text,
      )
