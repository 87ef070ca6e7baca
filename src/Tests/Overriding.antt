-- ===== src/Tests/Overriding.antt =====
-- Runs of the resolution of src/overrides.rs on assignments like those of its tests.
use bbtidy.Base.{String, ℕ, ◌≡◌, ◌⊎◌, refl, some, List, [], ◌∷◌, ◌++◌, All, concat, reverse, arith}
use bbtidy.Text.{Text, text, text_eq}
use bbtidy.Text.Maps.{get, text_lt}
use bbtidy.Scanner.Operators.{AssignmentOperator, assign}
use bbtidy.Overrides.Keys.{OverrideOperation, append, prepend, remove}
use bbtidy.Overrides.Legacy.{legacy_components}
use bbtidy.Overrides.Suffixes.{underscored, IsActive, IsBare, legacy_components-underscored}
use bbtidy.Overrides.Static.{RawAssignment, override_tokens}
use bbtidy.Overrides.Rank.{Candidate}
use bbtidy.Overrides.Resolve.{
  ResolvedAssignment, apply_operations, base_value, variant_candidates, resolve_direct_entries,
  resolve_with_active_overrides,
}
use bbtidy.Overrides.Selected.{
  remove_each, apply_operations_lem, IsSelected, resolve_direct_entries-IsSelected,
}
use bbtidy.Overrides.Tokens.{IsToken, Distinct, override_tokens-IsToken}
use bbtidy.Overrides.Grouping.{
  entries_of, specified_value, resolve_with_active_overrides-specified_value,
}
use bbtidy.Overrides.Code.{resolution_code}

abbrev operations : List (OverrideOperation × Text)
operations =
    (append, text " z") ∷ (remove, text "b") ∷ (prepend, text "x ") ∷ (append, text " b") ∷ []

applied : apply_operations operations (text "a b") ≡ text "x a  z "
unfolding resolution_code
applied = refl

apply_operations_lem_example :
    apply_operations operations (text "a b")
    ≡ remove_each
        (text "b" ∷ [])
        (concat (reverse (text "x " ∷ [])) ++ (text "a b" ++ concat (text " z" ∷ text " b" ∷ [])))
apply_operations_lem_example = apply_operations_lem operations (text "a b")

abbrev raw : String → AssignmentOperator → String → ℕ → RawAssignment
raw name operator value sequence = record {
  name = text name;
  operator = operator;
  value = text value;
  sequence = sequence;
}

abbrev assignments : List RawAssignment
assignments =
    raw "PN" assign "\"demo\"" 0
    ∷ raw "A" assign "\"base\"" 1
    ∷ raw "A:x" assign "\"from x\"" 2
    ∷ raw "A:y" assign "\"from y\"" 3
    ∷ raw "A:append" assign "\" of ${PN}\"" 4
    ∷ raw "A:x:y" assign "\"from both\"" 5
    ∷ raw "A:z" assign "\"not active\"" 6
    ∷ []

abbrev active : List Text
active = text "x" ∷ text "y" ∷ []

both :
    get text_lt text_eq (text "A") (resolve_with_active_overrides assignments active).values
    ≡ some (text "from both of demo")
unfolding resolution_code
both = refl

active_list :
    get text_lt text_eq (text "OVERRIDES") (resolve_with_active_overrides assignments active).values
    ≡ some (text "x:y")
unfolding resolution_code
active_list = refl

resolve_with_active_overrides-specified_value_example :
    get text_lt text_eq (text "A") (resolve_with_active_overrides assignments active).values
    ≡ specified_value assignments active (text "A")
resolve_with_active_overrides-specified_value_example =
    resolve_with_active_overrides-specified_value assignments active (text "A")

abbrev entries : List ResolvedAssignment
entries = entries_of active [] (text "A") assignments

resolve_direct_entries-IsSelected_example :
    ((variant_candidates entries ≡ [])
      × (resolve_direct_entries entries active ≡ base_value entries))
    ⊎ ((c : Candidate) × (resolve_direct_entries entries active ≡ c.value)
        × IsSelected active (variant_candidates entries) c)
resolve_direct_entries-IsSelected_example = resolve_direct_entries-IsSelected entries active

tokens : override_tokens (text "x: y:x ::z") ≡ text "x" ∷ text "y" ∷ text "z" ∷ []
unfolding resolution_code
tokens = refl

override_tokens-IsToken_example :
    All IsToken (override_tokens (text "x: y:x ::z"))
    × Distinct (override_tokens (text "x: y:x ::z"))
override_tokens-IsToken_example = override_tokens-IsToken (text "x: y:x ::z")

taken_off :
    legacy_components 7 active (text "NAME_x_y") [] ≡ (text "NAME", text "x" ∷ text "y" ∷ [])
unfolding resolution_code
taken_off = refl

-- An active override that nothing stands before is the base.
left_on : legacy_components 2 active (text "_x") [] ≡ (text "_x", [])
unfolding resolution_code
left_on = refl

legacy_components-underscored_example :
    ((legacy_components 8 active (text "NAME_x_y") []).0
        ++ underscored (legacy_components 8 active (text "NAME_x_y") []).1
      ≡ text "NAME_x_y" ++ [])
    × IsBare active (legacy_components 8 active (text "NAME_x_y") []).0
    × All (IsActive active) (legacy_components 8 active (text "NAME_x_y") []).1
legacy_components-underscored_example =
    legacy_components-underscored 8 active (text "NAME_x_y") [] (omega arith) tt
