-- ===== src/Tests/Trailing.antt =====
-- Runs of the checks of the lines of a text, of src/lint.rs.
use bbtidy.Base.{◌≡◌, refl, List, [], ◌∷◌, concat, map}
use bbtidy.Base.Sorting.{insert_sorted, sort_by}
use bbtidy.Text.{Text, text, strip_prefix, strip_suffix, trim_start_matches, trim_end_matches}
use bbtidy.Scanner.Lines.{split_line_ending}
use bbtidy.Lint.Fixes.{
  fixed, is_char_boundary, is_invalid, first_invalid, first_overlap, replace_each, apply_lint_fixes,
}
use bbtidy.Lint.Options.{diagnostic_at}
use bbtidy.Lint.Suppression.{split_inclusive}
use bbtidy.Lint.Rules.{lint_rules, LintRule}
use bbtidy.Lint.Lines.{
  rule_trailing_whitespace, rule_final_newline, trailing_from, check_trailing_whitespace,
  check_final_newline, fixes_of,
}
use bbtidy.Lint.Trimmed.{trimmed_line, check_trailing_whitespace-fixed}

unfoldable lines_code : Unit {0}
unfolding insert_sorted sort_by strip_prefix strip_suffix trim_start_matches trim_end_matches
    split_line_ending is_char_boundary is_invalid first_invalid first_overlap replace_each
    apply_lint_fixes diagnostic_at split_inclusive lint_rules trailing_from
    check_trailing_whitespace check_final_newline fixes_of
lines_code = tt

abbrev spaced : Text
spaced = text "A = 1 \t\r\n\nB  \n c\t"

abbrev first_two : List LintRule → List LintRule
first_two (a ∷ b ∷ rules) = a ∷ b ∷ []
first_two rules = rules

rules_of_lines : first_two lint_rules ≡ rule_trailing_whitespace ∷ rule_final_newline ∷ []
unfolding lines_code
rules_of_lines = refl

trimmed :
    apply_lint_fixes spaced (fixes_of (check_trailing_whitespace spaced))
    ≡ fixed (text "A = 1\r\n\nB\n c")
unfolding lines_code
trimmed = refl

newline_added :
    apply_lint_fixes spaced (fixes_of (check_final_newline spaced))
    ≡ fixed (text "A = 1 \t\r\n\nB  \n c\t\n")
unfolding lines_code
newline_added = refl

check_trailing_whitespace-fixed_example :
    apply_lint_fixes spaced (fixes_of (check_trailing_whitespace spaced))
    ≡ fixed (concat (map trimmed_line (split_inclusive spaced)))
check_trailing_whitespace-fixed_example = check_trailing_whitespace-fixed spaced
