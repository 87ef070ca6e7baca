-- ===== src/Syntax/Statement.antt =====
-- src/syntax.rs: statements outside functions, `classify_statement`, `parse_assignment` and
-- `parse_directive`.
use bbtidy.Base.{
  ℕ, ◌+◌, ◌-◌, Option, none, some, Bool, not, ◌&&◌, List, [], ◌∷◌, length, take, drop, is_empty,
  if◌then◌else◌,
}
use bbtidy.Text.{
  Text, text, slice, strip_prefix, strip_suffix, starts_with, trim_start, trim_end,
  trim_start_matches, starts_with_whitespace, is_space_or_tab,
}
use bbtidy.Scanner.Lines.{next_line_end, split_line_ending, is_blank_line, crlf, newline}
use bbtidy.Scanner.Quotes.{has_balanced_quotes}
use bbtidy.Scanner.Operators.{AssignmentOperator, operator_lexeme, find_assignment_operator}
use bbtidy.Scanner.Names.{split_export, is_assignment_left_hand_side}
use bbtidy.Syntax.Tree.{
  range, AssignmentSyntax, DirectiveKeyword, include, include_all, require, inherit, inherit_defer,
  add_fragments, add_py_lib, add_handler, add_task, del_task, export_functions, export, unset,
  keyword_lexeme, DirectiveSyntax, SyntaxKind, blank, comment, unknown, assignment, directive,
}
use bbtidy.Syntax.Result.{Result, ok, err, format_error, unclosed_quote, ◌>>=◌}

unfoldable pub text_without_final_line_ending : Text → Text
text_without_final_line_ending s = elim (strip_suffix s crlf) [
  | some content ↦ content
  | none ↦ elim (strip_suffix s newline) [ some content ↦ content | none ↦ s ]
]

-- The first line of a statement without its ending.
abbrev pub first_content : Text → Text
first_content s = (split_line_ending (take (next_line_end s 0) s)).0

-- The node of an assignment whose operator stands at `operator_start` of the statement `s`, which
-- begins at `start` of the source.
unfoldable pub assignment_node :
    Text → ℕ → Text → Bool → ℕ → AssignmentOperator → Text × ℕ × Bool → AssignmentSyntax
assignment_node source start s continued operator_start operator (name, name_offset, exported) =
    let name_start = start + name_offset in
    let operator_end = operator_start + length (operator_lexeme operator) in
    let content_end = length (text_without_final_line_ending s) in
    record {
      name = slice name_start (name_start + length name) source;
      name_range = range name_start (name_start + length name);
      operator = operator;
      operator_range = range (start + operator_start) (start + operator_end);
      value = slice (start + operator_end) (start + content_end) source;
      value_range = range (start + operator_end) (start + content_end);
      exported = exported;
      continued = continued;
    }

unfoldable pub parse_assignment : Text → ℕ → Text → Bool → ℕ → Result (Option AssignmentSyntax)
parse_assignment source start s continued line_number =
    elim (find_assignment_operator (first_content s)) [
      | none ↦ ok none
      | some (operator_start, operator) ↦
          let left = trim_end (take operator_start (first_content s)) in
          let operator_end = operator_start + length (operator_lexeme operator) in
          let content_end = length (text_without_final_line_ending s) in
          if not (is_assignment_left_hand_side left)
          then ok none
          else if not (has_balanced_quotes (slice operator_end content_end s))
          then err (format_error line_number unclosed_quote)
          else ok (
              some (
                assignment_node source start s continued operator_start operator
                  (split_export left)))
    ]

abbrev pub keywords : List DirectiveKeyword
keywords =
    include_all ∷ inherit_defer ∷ export_functions ∷ add_fragments ∷ add_handler ∷ add_py_lib
    ∷ include ∷ require ∷ inherit ∷ add_task ∷ del_task ∷ export ∷ unset ∷ []

-- The first keyword that stands at the front as a word, and what follows it.
unfoldable pub find_keyword : List DirectiveKeyword → Text → Option (DirectiveKeyword × Text)
find_keyword [] trimmed = none
find_keyword (k ∷ ks) trimmed =
    let later = find_keyword ks trimmed in
    elim (strip_prefix trimmed (keyword_lexeme k)) [
      | none ↦ later
      | some rest ↦
          if not (is_empty rest) && not (starts_with_whitespace rest) then later else some (k, rest)
    ]

unfoldable pub parse_directive : Text → ℕ → Text → Bool → Option DirectiveSyntax
parse_directive source start s continued =
    let content = text_without_final_line_ending s in
    let content_end = length content in
    let leading = length content - length (trim_start_matches is_space_or_tab content) in
    elim (find_keyword keywords (drop leading content)) [
      | none ↦ none
      | some (keyword, rest) ↦
          let whitespace = length rest - length (trim_start rest) in
          let keyword_start = start + leading in
          let keyword_len = length (keyword_lexeme keyword) in
          let arguments_start = leading + keyword_len + whitespace in
          some (record {
            keyword = keyword;
            keyword_range = range keyword_start (keyword_start + keyword_len);
            arguments = slice (start + arguments_start) (start + content_end) source;
            arguments_range = range (start + arguments_start) (start + content_end);
            continued = continued;
          })
    ]

-- The directive or unknown kind of a statement that is no assignment.
unfoldable pub directive_kind : Option DirectiveSyntax → SyntaxKind
directive_kind none = unknown
directive_kind (some d) = directive d

unfoldable pub statement_kind : Option AssignmentSyntax → SyntaxKind → SyntaxKind
statement_kind none other = other
statement_kind (some a) other = assignment a

unfoldable pub classify_statement : Text → ℕ → Text → Bool → ℕ → Result SyntaxKind
classify_statement source start s continued line_number =
    let content = first_content s in
    let trimmed = trim_start_matches is_space_or_tab content in
    if is_blank_line (take (next_line_end s 0) s)
    then ok blank
    else if starts_with trimmed (text "#")
    then ok comment
    else if starts_with_whitespace content
    then ok unknown
    else parse_assignment source start s continued line_number >>= λ found.
        ok (statement_kind found (directive_kind (parse_directive source start s continued)))
