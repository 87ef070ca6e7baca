-- ===== src/Tests/Revisions.antt =====
-- A run of `check_autorev` of src/lint.rs.
use bbtidy.Base.{◌≡◌, refl, false, [], ◌∷◌, All}
use bbtidy.Text.{Text, text, slice, find, strip_prefix}
use bbtidy.Text.Scan.{scan}
use bbtidy.Scanner.Operators.{assign}
use bbtidy.Scanner.Quotes.{comment_start, comment_step}
use bbtidy.Syntax.Tree.{range, AssignmentSyntax}
use bbtidy.Lint.Options.{LintDiagnostic, diagnostic_at}
use bbtidy.Lint.Assignments.{rule_autorev, autorev, check_autorev}
use bbtidy.Lint.Autorev.{check_autorev-slice}

abbrev source : Text
source = text "SRCREV = \"${AUTOREV}\" # ${AUTOREV}\n"

abbrev revision : AssignmentSyntax
revision = record {
  name = text "SRCREV";
  name_range = range 0 6;
  operator = assign;
  operator_range = range 7 8;
  value = text "\"${AUTOREV}\" # ${AUTOREV}";
  value_range = range 9 34;
  exported = false;
  continued = false;
}

floating :
    check_autorev source revision
    ≡ diagnostic_at rule_autorev source
        (range 10 20)
        (text "SRCREV uses ${AUTOREV}; pin a source revision for reproducible builds")
      ∷ []
unfolding check_autorev find strip_prefix comment_start comment_step scan
floating = refl

check_autorev-slice_example :
    All
      (λ (d : LintDiagnostic). slice d.range.start d.range.end source ≡ autorev)
      (check_autorev source revision)
check_autorev-slice_example = check_autorev-slice source revision refl
