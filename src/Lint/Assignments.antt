-- ===== src/Lint/Assignments.antt =====
-- src/lint.rs: `check_autorev`, `is_srcrev_name` and `is_duplicate_assignment_candidate`.
use bbtidy.Base.{
  ℕ, ◌+◌, Option, none, some, Bool, false, not, ◌&&◌, ◌||◌, List, [], ◌∷◌, ◌++◌, take, length,
}
use bbtidy.Text.{
  Text, text, text_eq, find, contains, starts_with, strip_prefix, strip_suffix, ends_with,
}
use bbtidy.Scanner.Quotes.{comment_start}
use bbtidy.Syntax.Tree.{range, AssignmentSyntax}
use bbtidy.Lint.Rules.{LintRule, warning}
use bbtidy.Lint.Options.{LintDiagnostic, diagnostic_at}

-- `LINT_RULES[3]`
abbrev pub rule_autorev : LintRule
rule_autorev = record {
  id = text "BBT004";
  name = text "autorev";
  severity = warning;
  description = text "SRCREV assignments must use a fixed revision instead of ${AUTOREV}.";
  fixable = false;
}

abbrev pub autorev : Text
autorev = text "${AUTOREV}"

-- The value before a comment.
abbrev pub before_comment : Text → Option ℕ → Text
before_comment value none = value
before_comment value (some end) = take end value

abbrev pub code_value : Text → Text
code_value value = before_comment value (comment_start value)

unfoldable pub check_autorev : Text → AssignmentSyntax → List LintDiagnostic
unfolding find
check_autorev source a = elim (find (code_value a.value) autorev) [
  | none ↦ []
  | some relative_offset ↦
      let offset = a.value_range.start + relative_offset in
      diagnostic_at rule_autorev source (range offset (offset + length autorev))
        (a.name ++ text " uses ${AUTOREV}; pin a source revision for reproducible builds")
      ∷ []
]

unfoldable pub is_srcrev_name : Text → Bool
unfolding text_eq strip_prefix
is_srcrev_name name =
    text_eq name (text "SRCREV")
    || starts_with name (text "SRCREV:")
    || starts_with name (text "SRCREV_")

unfoldable pub is_duplicate_assignment_candidate : Text → Bool
unfolding strip_suffix
is_duplicate_assignment_candidate name =
    not (contains name b':')
    && not (ends_with name (text "_append"))
    && not (ends_with name (text "_prepend"))
    && not (ends_with name (text "_remove"))
