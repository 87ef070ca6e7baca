-- ===== src/Overrides/Values.antt =====
-- src/overrides.rs: `apply_assignment_operator` and `remove_override_tokens`.
use bbtidy.Base.{
  ℕ, zero, suc, Option, none, some, not, ◌&&◌, List, [], ◌++◌, length, take, any, is_empty,
  if◌then◌else◌,
}
use bbtidy.Text.{Text, text, slice, text_eq, white_len}
use bbtidy.Text.Scan.{Move, go, scan}
use bbtidy.Scanner.Operators.{
  AssignmentOperator, assign, immediate, default, weak_default, append_with_space,
  prepend_with_space, append_without_space, prepend_without_space,
}
use bbtidy.Syntax.Definitions.{split_ascii_whitespace}

unfoldable pub apply_assignment_operator : Text → AssignmentOperator → Text → Text
apply_assignment_operator value assign addition = addition
apply_assignment_operator value immediate addition = addition
apply_assignment_operator value default addition = if is_empty value then addition else value
apply_assignment_operator value weak_default addition = if is_empty value then addition else value
apply_assignment_operator value append_with_space addition =
    (if not (is_empty value) && not (is_empty addition) then value ++ text " " else value)
    ++ addition
apply_assignment_operator value prepend_with_space addition =
    addition
    ++ (if not (is_empty value) && not (is_empty addition) then text " " ++ value else value)
apply_assignment_operator value append_without_space addition = value ++ addition
apply_assignment_operator value prepend_without_space addition = addition ++ value

-- What is written of a token.
unfoldable pub kept_token : List Text → Text → Text
kept_token removals token = if any (text_eq token) removals then [] else token

pub record Removing : Type 0 where
  pub output : Text
  pub token_start : Option ℕ

-- The token that ends at `index`, if there is one.
unfoldable pub flush : List Text → Text → ℕ → Removing → Text
flush removals original index st = elim st.token_start [
  | some start ↦ st.output ++ kept_token removals (slice start index original)
  | none ↦ st.output
]

unfoldable pub token_step : List Text → Text → ℕ → Text → Removing → Move Removing Text
token_step removals original index rest st = elim (white_len rest) [
  | suc n ↦
      go
        (record {
          output = flush removals original index st ++ take (suc n) rest;
          token_start = none;
        })
        n
  | zero ↦ elim st.token_start [
    | none ↦ go (record { output = st.output; token_start = some index }) 0
    | some start ↦ go st 0
  ]
]

unfoldable pub remove_override_tokens : Text → Text → Text
remove_override_tokens value removal =
    scan (token_step (split_ascii_whitespace removal) value)
      (flush (split_ascii_whitespace removal) value (length value)) 0 0
      (record { output = []; token_start = none }) value
