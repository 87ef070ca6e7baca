-- ===== src/Scanner/Operators.antt =====
-- src/lib.rs: the assignment operators and the first of them on a line.
use bbtidy.Base.{ℕ, Option, none, some, List, [], ◌∷◌, ◌==◌, if◌then◌else◌}
use bbtidy.Text.{Text, text, strip_prefix, starts_with}
use bbtidy.Text.Scan.{Move, go, stop, scan}
use bbtidy.Scanner.Quotes.{Quoting, unquoted, quote_step}

pub data AssignmentOperator : Type 0 where
  assign immediate default weak_default append_with_space : AssignmentOperator
  prepend_with_space append_without_space prepend_without_space : AssignmentOperator

-- `AssignmentOperator::lexeme`
abbrev pub operator_lexeme : AssignmentOperator → Text
operator_lexeme assign = text "="
operator_lexeme immediate = text ":="
operator_lexeme default = text "?="
operator_lexeme weak_default = text "??="
operator_lexeme append_with_space = text "+="
operator_lexeme prepend_with_space = text "=+"
operator_lexeme append_without_space = text ".="
operator_lexeme prepend_without_space = text "=."

abbrev pub all_by_length : List AssignmentOperator
all_by_length =
    weak_default ∷ immediate ∷ default ∷ append_with_space ∷ prepend_with_space
    ∷ append_without_space ∷ prepend_without_space ∷ assign ∷ []

-- `iter().find(|operator| rest.starts_with(operator.lexeme()))`
unfoldable pub operator_at : List AssignmentOperator → Text → Option AssignmentOperator
unfolding strip_prefix
operator_at [] rest = none
operator_at (o ∷ os) rest =
    let later = operator_at os rest in
    if starts_with rest (operator_lexeme o) then some o else later

unfoldable pub operator_step : ℕ → Text → Quoting → Move Quoting (Option (ℕ × AssignmentOperator))
unfolding quote_step operator_at
operator_step index [] q = go q 0
operator_step index (byte ∷ rest) q = elim (quote_step q byte) [
  | some q' ↦ go q' 0
  | none ↦ if byte == b'#' then stop none else elim (operator_at all_by_length (byte ∷ rest)) [
    | some operator ↦ stop (some (index, operator))
    | none ↦ go q 0
  ]
]

unfoldable pub find_assignment_operator : Text → Option (ℕ × AssignmentOperator)
unfolding operator_step scan
find_assignment_operator content = scan operator_step (λ _. none) 0 0 unquoted content
