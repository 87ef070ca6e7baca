-- ===== src/Tests/Bodies.antt =====
-- Runs of the Python analysis of src/body.rs on small bodies.
use bbtidy.Base.{◌≡◌, refl, [], ◌∷◌, All, length}
use bbtidy.Text.{Text, text, strip_prefix}
use bbtidy.Text.Scan.{scan}
use bbtidy.Syntax.Tree.{range}
use bbtidy.Scanner.Python.{next_char_boundary}
use bbtidy.Body.Diagnostics.{python_syntax}
use bbtidy.Body.Python.{
  close_delimiter, bracket_step, string_move, code_move, python_step, open_delimiters,
  python_finish, analyze_python_tokens,
}
use bbtidy.Body.Located.{IsLocated, analyze_python_tokens-IsLocated}

abbrev mismatched : Text
mismatched = text "x = '(' + (1]) # (\n"

abbrev unclosed : Text
unclosed = text "d[{'a': \"\"\"b"

mismatch :
    analyze_python_tokens mismatched
    ≡ record {
      kind = python_syntax;
      range = range 12 13;
      message = text "Python closing delimiter ']' has no matching opener";
    }
      ∷ []
unfolding analyze_python_tokens scan python_step python_finish open_delimiters code_move string_move
    bracket_step close_delimiter strip_prefix next_char_boundary
mismatch = refl

left_open :
    analyze_python_tokens unclosed
    ≡ record {
      kind = python_syntax;
      range = range 8 11;
      message = text "Python string is missing closing delimiter \"\"\"";
    }
      ∷ record {
        kind = python_syntax;
        range = range 2 3;
        message = text "Python delimiter '{' is missing closing '}'";
      }
      ∷ record {
        kind = python_syntax;
        range = range 1 2;
        message = text "Python delimiter '[' is missing closing ']'";
      }
      ∷ []
unfolding analyze_python_tokens scan python_step python_finish open_delimiters code_move string_move
    bracket_step close_delimiter strip_prefix next_char_boundary
left_open = refl

analyze_python_tokens-IsLocated_example :
    All (IsLocated (length unclosed)) (analyze_python_tokens unclosed)
analyze_python_tokens-IsLocated_example = analyze_python_tokens-IsLocated unclosed
