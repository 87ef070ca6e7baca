-- ===== src/Tests/Parsing.antt =====
-- Runs of the parser on inputs of the tests in src/syntax.rs.
use bbtidy.Base.{
  arith, ℕ, length, drop, All, ◌<◌, ◌≡◌, refl, map, false, Option, some, List, [], ◌∷◌,
}
use bbtidy.Text.{Text, text}
use bbtidy.Syntax.Tree.{
  SyntaxKind, blank, comment, unknown, assignment, directive, function, python_definition,
  SyntaxNode, SyntaxTree, range,
}
use bbtidy.Syntax.Result.{Result, ok, err, format_error, no_closing_brace, unclosed_quote, ◌>>=◌}
use bbtidy.Syntax.Parse.{parse}
use bbtidy.Syntax.Lossless.{texts, Covers, FailsAt, parse_lossless, parse-FailsAt}
use bbtidy.Scanner.Operators.{assign, weak_default, find_assignment_operator}
use bbtidy.Scanner.Shell.{ScannerFunctionKind}
use bbtidy.Scanner.Braces.{find_brace_block_end}
use bbtidy.Scanner.Python.{python_def_header}
use bbtidy.Scanner.Bounds.{
  BlockWithin, HeaderWithin, find_brace_block_end-Within, python_def_header-Within,
}
use bbtidy.Scanner.Longest.{StandsAt, find_assignment_operator-StandsAt}
use bbtidy.Syntax.Assignments.{NodeAt, parse-NodeAt}
use bbtidy.Syntax.Code.{parser_code}
use bbtidy.Formatter.Options.{default_options}
use bbtidy.Formatter.Output.{format_with_options}
use bbtidy.Formatter.Verbatim.{Written, format_with_options-Written}

data Shape : Type 0 where
  blank_line comment_line unknown_line : Shape
  assigns : Text → Text → Shape
  directs : Text → Shape
  defines : Option Text → Shape
  python_defines : Text → Shape

shape : SyntaxKind → Shape
shape blank = blank_line
shape comment = comment_line
shape unknown = unknown_line
shape (assignment a) = assigns a.name a.value
shape (directive d) = directs d.arguments
shape (function f) = defines f.name
shape (python_definition d) = python_defines d.name

shapes : Text → Result (List Shape)
unfolding shape
shapes s = parse s >>= λ t. ok (map (λ (n : SyntaxNode). shape n.kind) t.nodes)

structured :
    shapes (
      text
        "export FOO:append = \" value\"\ninherit base \\\n  extra\nfakeroot python do_install() {\n}\ndef helper(d):\n    pass\n")
    ≡ ok (
        assigns (text "FOO:append") (text " \" value\"")
        ∷ directs (text "base \\\n  extra")
        ∷ defines (some (text "do_install"))
        ∷ python_defines (text "helper")
        ∷ [])
unfolding shapes parser_code
structured = refl

blanks :
    shapes (text "\n  # comment\nopaque\n") ≡ ok (blank_line ∷ comment_line ∷ unknown_line ∷ [])
unfolding shapes parser_code
blanks = refl

no_brace : shapes (text "do_build() {\n") ≡ err (format_error 1 no_closing_brace)
unfolding shapes parser_code
no_brace = refl

unclosed_text : shapes (text "\nFOO = \"unterminated\n") ≡ err (format_error 2 unclosed_quote)
unfolding shapes parser_code
unclosed_text = refl

expansion :
    shapes
      (text "do_install() {\n    echo ${D}/usr/bin\n cat <<-EOF\n }\n\tEOF\n}\nVALUE = \"ok\"\n")
    ≡ ok (defines (some (text "do_install")) ∷ assigns (text "VALUE") (text " \"ok\"") ∷ [])
unfolding shapes parser_code
expansion = refl

multiline :
    shapes (
      text
        "@register\ndef helper(\n    value: str = \"x\",\n):\n    \"\"\"documentation\nunindented\n\"\"\"\n    return value\nNEXT = 1\n")
    ≡ ok (python_defines (text "helper") ∷ assigns (text "NEXT") (text " 1") ∷ [])
unfolding shapes parser_code
multiline = refl

-- For the scanner of Python lines the escaped quote ends the string, so the bracket behind it is
-- open and the assignment is read as a part of the body.
escaped_quote :
    shapes (text "def f():\n    x = '\\'('\nA = 1\n") ≡ ok (python_defines (text "f") ∷ [])
unfolding shapes parser_code
escaped_quote = refl

-- Between double quotes it does not.
escaped_double_quote :
    shapes (text "def f():\n    x = \"\\\"(\"\nA = 1\n")
    ≡ ok (python_defines (text "f") ∷ assigns (text "A") (text " 1") ∷ [])
unfolding shapes parser_code
escaped_double_quote = refl

abbrev sample : Text
sample = text "# c\nA = \"x\"\n"

abbrev sample_tree : SyntaxTree
sample_tree = record {
  source = sample;
  nodes =
      record { kind = comment; range = range 0 4; contents = text "# c\n" }
      ∷ record {
        kind = assignment (record {
          name = text "A";
          name_range = range 4 5;
          operator = assign;
          operator_range = range 6 7;
          value = text " \"x\"";
          value_range = range 7 11;
          exported = false;
          continued = false;
        });
        range = range 4 12;
        contents = text "A = \"x\"\n";
      }
      ∷ [];
}

parse-sample : parse sample ≡ ok sample_tree
unfolding parser_code
parse-sample = refl

parse_lossless_example :
    (sample_tree.source ≡ sample)
    × (texts sample_tree.nodes ≡ sample)
    × Covers sample 0 (length sample) sample_tree.nodes
parse_lossless_example = parse_lossless sample sample_tree parse-sample

abbrev unclosed : Text
unclosed = text "\nFOO = \"x\n"

parse-unclosed : parse unclosed ≡ err (format_error 2 unclosed_quote)
unfolding parser_code
parse-unclosed = refl

parse-FailsAt_example : (offset : ℕ) × FailsAt unclosed (format_error 2 unclosed_quote) offset
parse-FailsAt_example = parse-FailsAt unclosed (format_error 2 unclosed_quote) parse-unclosed

parse-NodeAt_example : All (NodeAt sample) sample_tree.nodes
parse-NodeAt_example = parse-NodeAt sample sample_tree parse-sample

abbrev weak_line : Text
weak_line = text "A[\"=\"] ??= \"x\""

find-weak_line : find_assignment_operator weak_line ≡ some (7, weak_default)
unfolding parser_code
find-weak_line = refl

find_assignment_operator-StandsAt_example :
    (7 < length weak_line) × StandsAt (drop 7 weak_line) weak_default
find_assignment_operator-StandsAt_example =
    find_assignment_operator-StandsAt weak_line 7 weak_default find-weak_line

format_with_options-Written_example :
    (out : Text) × (format_with_options sample default_options ≡ ok out)
    × Written default_options sample_tree.nodes out
    × (texts sample_tree.nodes ≡ sample)
format_with_options-Written_example =
    format_with_options-Written sample default_options sample_tree parse-sample

find_brace_block_end-Within_example :
    BlockWithin
      (text "{\n a \"}\"\n}\n")
      0
      (find_brace_block_end (text "{\n a \"}\"\n}\n") 0 ScannerFunctionKind.shell)
find_brace_block_end-Within_example =
    find_brace_block_end-Within (text "{\n a \"}\"\n}\n") 0 ScannerFunctionKind.shell

python_def_header-Within_example :
    HeaderWithin
      (text "@register\ndef f(a,\n b):\n  pass\n")
      0
      (python_def_header (text "@register\ndef f(a,\n b):\n  pass\n") 0)
python_def_header-Within_example =
    python_def_header-Within (text "@register\ndef f(a,\n b):\n  pass\n") 0 (omega arith)
