-- ===== src/Lint/Lines.antt =====
-- src/lint.rs: `check_trailing_whitespace` and `check_final_newline`.
use bbtidy.Base.{
  ℕ, ◌+◌, some, true, ◌||◌, List, [], ◌∷◌, ◌++◌, length, is_empty, ◌==◌, if◌then◌else◌,
}
use bbtidy.Text.{Text, text, ends_with, strip_suffix, is_space_or_tab, trim_end_matches}
use bbtidy.Scanner.Lines.{split_line_ending}
use bbtidy.Syntax.Tree.{range}
use bbtidy.Lint.Rules.{LintRule, warning}
use bbtidy.Lint.Fixes.{LintFix}
use bbtidy.Lint.Options.{LintDiagnostic, diagnostic_at}
use bbtidy.Lint.Suppression.{split_inclusive}

-- `LINT_RULES[0]` and `LINT_RULES[1]`
abbrev pub rule_trailing_whitespace : LintRule
rule_trailing_whitespace = record {
  id = text "BBT001";
  name = text "trailing-whitespace";
  severity = warning;
  description = text "Lines must not end with spaces or tabs.";
  fixable = true;
}

abbrev pub rule_final_newline : LintRule
rule_final_newline = record {
  id = text "BBT002";
  name = text "final-newline";
  severity = warning;
  description = text "Non-empty files must end with a newline.";
  fixable = true;
}

abbrev pub with_fix : LintDiagnostic → LintFix → Text → LintDiagnostic
with_fix d fix help = record d { help = some help; fixes = d.fixes ++ fix ∷ [] }

-- A line without its ending, and that without the spaces and tabs at its end.
abbrev pub line_content : Text → Text
line_content line = (split_line_ending line).0

abbrev pub trimmed_content : Text → Text
trimmed_content line = trim_end_matches is_space_or_tab (line_content line)

abbrev pub trailing_diagnostic : Text → ℕ → Text → LintDiagnostic
trailing_diagnostic source line_start line =
    let trailing =
      range (line_start + length (trimmed_content line))
        (line_start + length (line_content line)) in
    with_fix
      (diagnostic_at rule_trailing_whitespace source trailing (text "line ends with whitespace"))
      (record { range = trailing; replacement = []; message = text "remove trailing whitespace" })
      (text "Remove the trailing spaces or tabs from this line.")

unfoldable pub trailing_from : Text → ℕ → List Text → List LintDiagnostic
unfolding split_line_ending trim_end_matches
trailing_from source line_start [] = []
trailing_from source line_start (line ∷ lines) =
    let later = trailing_from source (line_start + length line) lines in
    if length (trimmed_content line) == length (line_content line)
    then later
    else trailing_diagnostic source line_start line ∷ later

unfoldable pub check_trailing_whitespace : Text → List LintDiagnostic
unfolding trailing_from
check_trailing_whitespace source = trailing_from source 0 (split_inclusive source)

unfoldable pub check_final_newline : Text → List LintDiagnostic
unfolding strip_suffix
check_final_newline source =
    if is_empty source || ends_with source (b'\n' ∷ [])
    then []
    else with_fix
        (diagnostic_at rule_final_newline source (range (length source) (length source))
          (text "file does not end with a newline"))
        (record {
          range = range (length source) (length source);
          replacement = b'\n' ∷ [];
          message = text "append a final newline";
        })
        (text "Append a newline at the end of the file.")
      ∷ []

-- The fixes that `apply_lint_fixes` collects of its diagnostics.
unfoldable pub fixes_of : List LintDiagnostic → List LintFix
fixes_of [] = []
fixes_of (d ∷ ds) = d.fixes ++ fixes_of ds
