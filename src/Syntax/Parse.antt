-- ===== src/Syntax/Parse.antt =====
-- src/syntax.rs: `parse`.
use bbtidy.Base.{ℕ, ◌+◌, ◌-◌, none, some, List, [], ◌∷◌, ◌++◌, if◌then◌else◌}
use bbtidy.Text.{Text, slice, count_byte}
use bbtidy.Text.Scan.{Move, go, stop, scan}
use bbtidy.Scanner.Lines.{next_line_end, has_line_continuation, find_continuation_end}
use bbtidy.Scanner.Shell.{ScannerFunctionKind}
use bbtidy.Scanner.Braces.{find_brace_block_end}
use bbtidy.Scanner.Python.{PythonDefHeader, python_def_header, find_python_def_end}
use bbtidy.Scanner.Functions.{function_opening_brace}
use bbtidy.Syntax.Tree.{SyntaxKind, function, python_definition, SyntaxNode, SyntaxTree, range}
use bbtidy.Syntax.Result.{
  Result, ok, err, format_error, panic, no_closing_brace, unterminated_continuation, ◌>>=◌,
}
use bbtidy.Syntax.Statement.{classify_statement}
use bbtidy.Syntax.Definitions.{parse_function, parse_python_definition}

-- The end and the kind of the node at `offset`, by its three forms.
unfoldable pub function_node :
    Text → ℕ → Text → ℕ → ℕ × ScannerFunctionKind → Result (ℕ × SyntaxKind)
function_node source offset line line_number (opening_brace, kind) =
    elim (find_brace_block_end source (offset + opening_brace) kind) [
      | none ↦ err (format_error line_number no_closing_brace)
      | some (end, closing_brace) ↦
          elim (parse_function source offset line kind
            (range (offset + opening_brace + 1) closing_brace)) [
              | none ↦ err panic
              | some f ↦ ok (end, function f)
            ]
    ]

unfoldable pub python_node : Text → PythonDefHeader → Result (ℕ × SyntaxKind)
python_node source header =
    let end = find_python_def_end source header.header_end in
    elim (parse_python_definition source header.def_start header.header_end
      (range header.header_end end)) [ none ↦ err panic | some d ↦ ok (end, python_definition d) ]

-- The end of a statement, over its continuation lines.
unfoldable pub statement_end : Text → ℕ → Text → ℕ → ℕ → Result ℕ
statement_end source offset line line_end line_number =
    if has_line_continuation line
    then elim (find_continuation_end source offset) [
      | none ↦ err (format_error line_number unterminated_continuation)
      | some end ↦ ok end
    ]
    else ok line_end

unfoldable pub statement_node : Text → ℕ → Text → ℕ → ℕ → Result (ℕ × SyntaxKind)
statement_node source offset line line_end line_number =
    statement_end source offset line line_end line_number >>= λ end.
    classify_statement source offset (slice offset end source) (has_line_continuation line)
      line_number
    >>= λ kind. ok (end, kind)

unfoldable pub node_at : Text → ℕ → ℕ → Result (ℕ × SyntaxKind)
node_at source offset line_number =
    let line_end = next_line_end source offset in
    let line = slice offset line_end source in
    elim (function_opening_brace line) [
      | some opening ↦ function_node source offset line line_number opening
      | none ↦ elim (python_def_header source offset) [
        | some header ↦ python_node source header
        | none ↦ statement_node source offset line line_end line_number
      ]
    ]

-- The loop variables `nodes` and `line_number`; the offset is the scan's index.
pub record Parsing : Type 0 where
  pub nodes : List SyntaxNode
  pub line_number : ℕ

abbrev pub node_of : Text → ℕ → ℕ → SyntaxKind → SyntaxNode
node_of source offset end kind = record {
  kind = kind;
  range = range offset end;
  contents = slice offset end source;
}

unfoldable pub after_node :
    Text → ℕ → Parsing → Result (ℕ × SyntaxKind) → Move Parsing (Result (List SyntaxNode))
after_node source offset p (err e) = stop (err e)
after_node source offset p (ok (end, kind)) =
    go
      (record {
        nodes = p.nodes ++ node_of source offset end kind ∷ [];
        line_number = p.line_number + count_byte b'\n' (slice offset end source);
      })
      (end - (offset + 1))

unfoldable pub parse_step : Text → ℕ → Text → Parsing → Move Parsing (Result (List SyntaxNode))
parse_step source offset rest p = after_node source offset p (node_at source offset p.line_number)

unfoldable pub parse : Text → Result SyntaxTree
parse source =
    scan (parse_step source) (λ p. ok p.nodes) 0 0 (record { nodes = []; line_number = 1 }) source
    >>= λ nodes. ok (record { source = source; nodes = nodes })
