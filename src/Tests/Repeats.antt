-- ===== src/Tests/Repeats.antt =====
-- Runs of the checks of functions and directives of src/lint.rs.
use bbtidy.Base.{String, ℕ, ◌+◌, ◌≡◌, refl, some, false, List, [], ◌∷◌, ◌++◌}
use bbtidy.Text.{Text, text, text_eq, trim_by, trim_start, trim_end, white_len, white_len_back}
use bbtidy.Text.Scan.{scan}
use bbtidy.Scanner.Quotes.{comment_start, comment_step}
use bbtidy.Syntax.Tree.{range, shell, inherit, function, directive, SyntaxNode}
use bbtidy.Lint.Options.{diagnostic_at}
use bbtidy.Lint.Nodes.{
  rule_duplicate_function, rule_empty_directive, declared_name, functions_from,
  check_duplicate_functions, empty_directive, directives_from, check_empty_directives,
}
use bbtidy.Lint.Repeated.{declared, report_of, check_duplicate_functions-snoc}

abbrev source : Text
source = text "a() {\n}\nb() {\n}\na() {\n}\n"

abbrev declares : String → ℕ → SyntaxNode
declares name start = record {
  kind = function (record {
    kind = shell;
    name = some (text name);
    name_range = some (range start (start + 1));
    body_range = range (start + 5) (start + 6);
    fakeroot = false;
  });
  range = range start (start + 8);
  contents = [];
}

abbrev first_nodes : List SyntaxNode
first_nodes = declares "a" 0 ∷ declares "b" 8 ∷ []

repeated :
    check_duplicate_functions
      (record { source = source; nodes = first_nodes ++ declares "a" 16 ∷ [] })
    ≡ diagnostic_at rule_duplicate_function source
        (range 16 17)
        (text "function 'a' is declared more than once")
      ∷ []
unfolding check_duplicate_functions functions_from text_eq
repeated = refl

no_target :
    check_empty_directives (record {
      source = text "inherit \n";
      nodes =
          record {
            kind = directive (record {
              keyword = inherit;
              keyword_range = range 0 7;
              arguments = text " # base";
              arguments_range = range 7 8;
              continued = false;
            });
            range = range 0 9;
            contents = [];
          }
          ∷ [];
    })
    ≡ diagnostic_at rule_empty_directive
        (text "inherit \n")
        (range 0 7)
        (text "inherit directive has no target")
      ∷ []
unfolding check_empty_directives directives_from empty_directive comment_start comment_step scan
    trim_start trim_end trim_by white_len white_len_back
no_target = refl

check_duplicate_functions-snoc_example :
    (check_duplicate_functions (record { source = source; nodes = [] }) ≡ [])
    × (check_duplicate_functions
          (record { source = source; nodes = first_nodes ++ declares "a" 16 ∷ [] })
        ≡ check_duplicate_functions (record { source = source; nodes = first_nodes })
          ++ report_of source (declared first_nodes) (declared_name (declares "a" 16).kind))
check_duplicate_functions-snoc_example =
    check_duplicate_functions-snoc source first_nodes (declares "a" 16)
