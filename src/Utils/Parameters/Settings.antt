-- ===== src/Utils/Parameters/Settings.antt =====
-- What a setting of the command line changes.
use dpainless.Prelude.{
  ℕ, ◌≡◌, refl, ap, ◌∙◌, List, [], ◌∷◌, ◌++◌, none, some, Option-cases, true, false, Bool-cases,
  inl, inr, All, ◌==◌, arith,
}
use dpainless.Utils.Parameters.{
  Text, same_text, Parameters, find, assign, touch, split_at_eq, set_param, take_arg, init, is_set,
  get_param,
}

same_text_self : (a : Text) → same_text a a ≡ true
unfolding same_text
same_text_self [] = refl
same_text_self (c ∷ cs) = ground (arith, same_text_self cs)

eq_of_same_text : (a b : Text) → same_text a b ≡ true → a ≡ b
unfolding same_text
eq_of_same_text [] [] h = refl
eq_of_same_text [] (d ∷ ds) h = cc
eq_of_same_text (c ∷ cs) [] h = cc
eq_of_same_text (c ∷ cs) (d ∷ ds) h = ground (arith, h, eq_of_same_text cs ds)

find-assign_self :
    (name value : Text) (ps : List (Text × Text)) → find name (assign name value ps) ≡ some value
unfolding find assign
find-assign_self name value [] = ground (arith, same_text_self name)
find-assign_self name value ((k, v) ∷ ps) = elim (Bool-cases (same_text k name)) [
  | inl same ↦ ground (arith, same)
  | inr other ↦ ground (arith, other, find-assign_self name value ps)
]

find-assign_other :
    (name value other : Text) (ps : List (Text × Text))
    → same_text name other ≡ false
    → find other (assign name value ps) ≡ find other ps
unfolding find assign
find-assign_other name value other [] h = ground (arith, h)
find-assign_other name value other ((k, v) ∷ ps) h = elim (Bool-cases (same_text k name)) [
  | inl same ↦
      let e = eq_of_same_text k name same in
      let apart : same_text k other ≡ false = ap (λ x. same_text x other) e ∙ h in
      ground (arith, same, apart)
  | inr differs ↦ ground (arith, differs, find-assign_other name value other ps h)
]

-- No `=` in a text.
abbrev pub HasNoEq : Text → Type 0
HasNoEq = All (λ c. (c == b'=') ≡ false)

split_at_eq-append :
    (left right : Text) → HasNoEq left → split_at_eq (left ++ b'=' ∷ right) ≡ some (left, right)
unfolding split_at_eq
split_at_eq-append [] right h = refl
split_at_eq-append (c ∷ left) right h = ground (arith, h.0, split_at_eq-append left right h.1)

split_at_eq-none : (cs : Text) → HasNoEq cs → split_at_eq cs ≡ none
unfolding split_at_eq
split_at_eq-none [] h = refl
split_at_eq-none (c ∷ cs) h = ground (arith, h.0, split_at_eq-none cs h.1)

init-append :
    (args more : List Text) (p q : Parameters)
    → init args p ≡ some q
    → init (args ++ more) p ≡ init more q
unfolding init
init-append [] more p q e = ground (arith, e)
init-append (arg ∷ args) more p q e = elim (Option-cases (take_arg arg p)) [
  | inl fails ↦ ground (arith, e, fails)
  | inr (p', f) ↦
      let rest : init args p' ≡ some q = ground (arith, e, f) in
      ground (arith, f, init-append args more p' q rest)
]

-- The argument that sets a name to a value.
abbrev pub setting : Text → Text → Text
setting name value = b'-' ∷ name ++ b'=' ∷ value

take_arg-setting :
    (name value : Text) (p : Parameters)
    → HasNoEq name
    → take_arg (setting name value) p ≡ some (record p { params = assign name value p.params })
unfolding take_arg set_param
take_arg-setting name value p h =
    let split : split_at_eq (setting name value) ≡ some (b'-' ∷ name, value) =
      split_at_eq-append (b'-' ∷ name) value (refl, h) in
    elim (Option-cases p.filename) [
      | inl unknown_file ↦ ground (arith, unknown_file, split)
      | inr (f, known) ↦ ground (arith, known, split)
    ]

-- After any arguments that are taken without a fault, an argument `-name=value`, where the name has no
-- `=`, gives the name that value, whatever it was before, and leaves the file name and the value of every
-- other name as they were.
pub init-setting :
    (args : List Text) (name value default : Text) (p q : Parameters)
    → HasNoEq name
    → init args p ≡ some q
    → (r : Parameters) × (init (args ++ setting name value ∷ []) p ≡ some r)
      × (is_set name r ≡ true)
      × (get_param name default r ≡ value)
      × (r.filename ≡ q.filename)
      × ((other : Text)
          → same_text name other ≡ false
          → (is_set other r ≡ is_set other q)
            × (get_param other default r ≡ get_param other default q))
unfolding init is_set get_param
init-setting args name value default p q h e =
    let found = find-assign_self name value q.params in
    (
      record q { params = assign name value q.params },
      init-append args (setting name value ∷ []) p q e
          ∙ ground (arith, take_arg-setting name value q h),
      ground (arith, found),
      ground (arith, found),
      refl,
      λ other n.
          let same = find-assign_other name value other q.params n in
          (ground (arith, same), ground (arith, same)),
    )

-- Once the file is known, a second argument without a dash and without `=` is taken for a setting, and
-- its first character for the dash.
pub take_arg-second :
    (c : ℕ) (cs file : Text) (p : Parameters)
    → p.filename ≡ some file
    → HasNoEq (c ∷ cs)
    → (r : Parameters) × (take_arg (c ∷ cs) p ≡ some r)
      × (is_set cs r ≡ true)
      × (r.filename ≡ some file)
unfolding take_arg set_param touch is_set
take_arg-second c cs file p known h =
    let whole = split_at_eq-none (c ∷ cs) h in
    elim (Option-cases (find cs p.params)) [
      | inl new ↦
          let found = find-assign_self cs [] p.params in
          (
            record p { params = assign cs [] p.params },
            ground (arith, known, whole, new),
            ground (arith, found),
            known,
          )
      | inr (v, old) ↦ (p, ground (arith, known, whole, old), ground (arith, old), known)
    ]
