-- ===== src/Tests/Fixes.antt =====
-- Runs of `apply_lint_fixes` on small texts.
use bbtidy.Base.{◌≡◌, refl, List, [], ◌∷◌, arith}
use bbtidy.Base.Sorting.{sort_by}
use bbtidy.Text.{Text, text}
use bbtidy.Syntax.Tree.{range}
use bbtidy.Lint.Fixes.{
  LintFix, invalid_range, overlapping_ranges, fix_error, fixed, is_char_boundary, fix_before,
  is_invalid, first_invalid, first_overlap, replace_each, apply_lint_fixes,
}
use bbtidy.Lint.Splice.{spliced, Disjoint, apply_lint_fixes-Disjoint, apply_lint_fixes-fixed}

abbrev source : Text
source = text "A = 1  \nB = 2"

abbrev newline_fix : LintFix
newline_fix = record { range = range 13 13; replacement = text "\n"; message = [] }

abbrev trailing_fix : LintFix
trailing_fix = record { range = range 5 7; replacement = []; message = [] }

abbrev proposed : List LintFix
proposed = newline_fix ∷ trailing_fix ∷ []

applied : apply_lint_fixes source proposed ≡ fixed (text "A = 1\nB = 2\n")
unfolding apply_lint_fixes sort_by first_invalid first_overlap is_invalid is_char_boundary
    replace_each
applied = refl

overlap :
    apply_lint_fixes source
      (record { range = range 6 8; replacement = []; message = [] } ∷ trailing_fix ∷ [])
    ≡ fix_error (overlapping_ranges (range 5 7) (range 6 8))
unfolding apply_lint_fixes sort_by first_invalid first_overlap is_invalid is_char_boundary
    replace_each
overlap = refl

stale :
    apply_lint_fixes source (record { range = range 6 80; replacement = []; message = [] } ∷ [])
    ≡ fix_error (invalid_range 6 80)
unfolding apply_lint_fixes sort_by first_invalid first_overlap is_invalid is_char_boundary
    replace_each
stale = refl

proposed-Disjoint : Disjoint source 0 (sort_by fix_before proposed)
unfolding sort_by is_char_boundary
proposed-Disjoint = (
  omega arith,
  omega arith,
  omega arith,
  refl,
  refl,
  (omega arith, omega arith, omega arith, refl, refl, tt),
)

apply_lint_fixes-Disjoint_example :
    apply_lint_fixes source proposed ≡ fixed (spliced source 0 (sort_by fix_before proposed))
apply_lint_fixes-Disjoint_example = apply_lint_fixes-Disjoint source proposed proposed-Disjoint

apply_lint_fixes-fixed_example :
    Disjoint source 0 (sort_by fix_before proposed)
    × (text "A = 1\nB = 2\n" ≡ spliced source 0 (sort_by fix_before proposed))
apply_lint_fixes-fixed_example =
    apply_lint_fixes-fixed source proposed (text "A = 1\nB = 2\n") applied
