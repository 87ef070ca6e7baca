-- ===== src/Lint/Nodes.antt =====
-- src/lint.rs: `check_duplicate_functions` and `check_empty_directives`.
use bbtidy.Base.{
  Option, none, some, Bool, true, false, not, List, [], ◌∷◌, ◌++◌, take, any, is_empty,
  if◌then◌else◌,
}
use bbtidy.Text.{Text, text, text_eq, trim}
use bbtidy.Scanner.Quotes.{comment_start}
use bbtidy.Syntax.Tree.{
  TextRange, DirectiveKeyword, include, include_all, require, inherit, inherit_defer,
  keyword_lexeme, DirectiveSyntax, SyntaxKind, directive, function, SyntaxNode, SyntaxTree,
}
use bbtidy.Lint.Rules.{LintRule, warning}
use bbtidy.Lint.Options.{LintDiagnostic, diagnostic_at}

-- `LINT_RULES[16]` and `LINT_RULES[17]`
abbrev pub rule_duplicate_function : LintRule
rule_duplicate_function = record {
  id = text "BBT017";
  name = text "duplicate-function";
  severity = warning;
  description = text "A task or function should not be declared more than once in one file.";
  fixable = false;
}

abbrev pub rule_empty_directive : LintRule
rule_empty_directive = record {
  id = text "BBT018";
  name = text "empty-directive";
  severity = warning;
  description = text "Metadata dependency directives must name a target.";
  fixable = false;
}

abbrev repeated_message : Text → Text
repeated_message name = text "function '" ++ (name ++ text "' is declared more than once")

-- The report on a function whose name was seen, if it has a place.
abbrev pub repeated_report : Text → Text → Option TextRange → List LintDiagnostic
repeated_report source name none = []
repeated_report source name (some place) =
    diagnostic_at rule_duplicate_function source place (repeated_message name) ∷ []

-- The name of a function that a node declares.
abbrev pub declared_name : SyntaxKind → Option (Text × Option TextRange)
declared_name (function f) = elim f.name [ none ↦ none | some name ↦ some (name, f.name_range) ]
declared_name _ = none

unfoldable pub functions_from : Text → List Text → List SyntaxNode → List LintDiagnostic
functions_from source seen [] = []
functions_from source seen (node ∷ nodes) = elim (declared_name node.kind) [
  | none ↦ functions_from source seen nodes
  | some found ↦
      let repeated = repeated_report source found.0 found.1 ++ functions_from source seen nodes in
      let fresh = functions_from source (found.0 ∷ seen) nodes in
      if any (text_eq found.0) seen then repeated else fresh
]

unfoldable pub check_duplicate_functions : SyntaxTree → List LintDiagnostic
unfolding functions_from
check_duplicate_functions tree = functions_from tree.source [] tree.nodes

abbrev pub needs_target : DirectiveKeyword → Bool
needs_target include = true
needs_target include_all = true
needs_target require = true
needs_target inherit = true
needs_target inherit_defer = true
needs_target _ = false

-- The arguments before a comment.
abbrev pub code_arguments : Text → Text
code_arguments arguments = elim (comment_start arguments) [
  | none ↦ arguments
  | some end ↦ take end arguments
]

unfoldable pub empty_directive : Text → DirectiveSyntax → List LintDiagnostic
empty_directive source d =
    if not (needs_target d.keyword)
    then []
    else if not (is_empty (trim (code_arguments d.arguments)))
    then []
    else diagnostic_at rule_empty_directive source d.keyword_range
        (keyword_lexeme d.keyword ++ text " directive has no target")
      ∷ []

unfoldable pub directives_from : Text → List SyntaxNode → List LintDiagnostic
unfolding empty_directive
directives_from source [] = []
directives_from source (node ∷ nodes) =
    let later = directives_from source nodes in
    elim node.kind [ directive d ↦ empty_directive source d ++ later | _ ↦ later ]

unfoldable pub check_empty_directives : SyntaxTree → List LintDiagnostic
unfolding directives_from
check_empty_directives tree = directives_from tree.source tree.nodes
