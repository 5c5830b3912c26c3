-- ===== src/Utils/Parameters.antt =====
-- utils/Parameters.h: the arguments of the command line, as texts of characters that are not 0. What
-- `atoi` makes of a text is a parameter.
pub mod Settings
use dpainless.Prelude.{
  ℕ, List, [], ◌∷◌, Option, none, some, Bool, true, false, ◌&&◌, not, ◌==◌, if◌then◌else◌,
}

abbrev pub Text : Type 0
Text = List ℕ

unfoldable pub same_text : Text → Text → Bool
same_text [] [] = true
same_text [] (d ∷ ds) = false
same_text (c ∷ cs) [] = false
same_text (c ∷ cs) (d ∷ ds) = (c == d) && same_text cs ds

-- `params`, with one entry for a name, and `filename`.
pub record Parameters : Type 0 where
  pub params : List (Text × Text)
  pub filename : Option Text

abbrev pub no_parameters : Parameters
no_parameters = record { params = []; filename = none }

unfoldable pub find : Text → List (Text × Text) → Option Text
unfolding same_text
find name [] = none
find name ((k, v) ∷ ps) = if same_text k name then some v else find name ps

-- `params[name] = value`
unfoldable pub assign : Text → Text → List (Text × Text) → List (Text × Text)
unfolding same_text
assign name value [] = (name, value) ∷ []
assign name value ((k, v) ∷ ps) =
    if same_text k name then (k, value) ∷ ps else (k, v) ∷ assign name value ps

-- `params[name]` makes an empty entry where there is none.
unfoldable pub touch : Text → List (Text × Text) → List (Text × Text)
unfolding find
touch name ps = elim (find name ps) [ none ↦ assign name [] ps | some v ↦ ps ]

-- `strchr(arg, '=')`: the text before the first `=`, and the text behind it.
unfoldable pub split_at_eq : Text → Option (Text × Text)
split_at_eq [] = none
split_at_eq (c ∷ cs) =
    let rest = split_at_eq cs in
    if c == b'='
    then some ([], cs)
    else elim rest [ none ↦ none | some (left, right) ↦ some (c ∷ left, right) ]

-- `arg+1`, where `=` has become the end of the text: behind an `=` in front comes the value.
abbrev pub left_of : Text → Text → Text
left_of [] right = right
left_of (c ∷ left) right = left

-- An argument that is a setting. `none`: `arg+1` is behind the end of an empty text.
unfoldable pub set_param : Text → Parameters → Option Parameters
unfolding split_at_eq assign touch
set_param [] p = none
set_param (c ∷ cs) p = elim (split_at_eq (c ∷ cs)) [
  | none ↦ some (record p { params = touch cs p.params })
  | some (left, right) ↦ some (record p { params = assign (left_of left right) right p.params })
]

abbrev pub is_dash : Text → Bool
is_dash [] = false
is_dash (c ∷ cs) = c == b'-'

unfoldable pub take_arg : Text → Parameters → Option Parameters
unfolding set_param
take_arg arg p = elim p.filename [
  | none ↦ if is_dash arg then set_param arg p else some (record p { filename = some arg })
  | some name ↦ set_param arg p
]

-- The arguments behind the name of the program.
unfoldable pub init : List Text → Parameters → Option Parameters
unfolding take_arg
init [] p = some p
init (arg ∷ args) p = elim (take_arg arg p) [ none ↦ none | some p' ↦ init args p' ]

unfoldable pub is_set : Text → Parameters → Bool
unfolding find
is_set name p = elim (find name p.params) [ none ↦ false | some v ↦ true ]

unfoldable pub get_param : Text → Text → Parameters → Text
unfolding find
get_param name default p = elim (find name p.params) [ none ↦ default | some v ↦ v ]

module _ {I : Type 0} (atoi : Text → I) where
  unfoldable pub get_int_param : Text → I → Parameters → I
  unfolding find
  get_int_param name default p = elim (find name p.params) [ none ↦ default | some v ↦ atoi v ]
