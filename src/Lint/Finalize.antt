-- ===== src/Lint/Finalize.antt =====
-- src/lint.rs: `finalize_diagnostics`.
use bbtidy.Base.{
  ℕ, ◌+◌, Option, none, some, Bool, true, false, not, ◌&&◌, ◌||◌, List, [], ◌∷◌, ◌++◌, is_some, ltb,
  ◌==◌, if◌then◌else◌,
}
use bbtidy.Base.Sorting.{sort_by}
use bbtidy.Text.{Text, text, text_eq}
use bbtidy.Text.Maps.{text_lt}
use bbtidy.Lint.Rules.{LintRule, error}
use bbtidy.Lint.Options.{LintDiagnostic, LintOptions, is_enabled, severity_for, diagnostic_at}
use bbtidy.Lint.Suppression.{
  SuppressionKind, same_line, next_line, file, SuppressionDirective, parse_suppression_directives,
}

-- `retain`
unfoldable pub retain {ℓ} : {A : Type ℓ} → (A → Bool) → List A → List A
retain keep [] = []
retain keep (x ∷ xs) = let rest = retain keep xs in if keep x then x ∷ rest else rest

unfoldable pub set_severities : LintOptions → List LintDiagnostic → List LintDiagnostic
set_severities options [] = []
set_severities options (d ∷ ds) =
    record d { severity = severity_for options d } ∷ set_severities options ds

abbrev pub kind_matches : SuppressionKind → ℕ → ℕ → Bool
kind_matches same_line line diagnostic_line = line == diagnostic_line
kind_matches next_line line diagnostic_line = line + 1 == diagnostic_line
kind_matches file line diagnostic_line = true

abbrev pub names_rule : Option Text → Text → Bool
names_rule none rule_id = false
names_rule (some named) rule_id = text_eq named rule_id

-- The condition of `find`.
abbrev pub matches_finding : LintDiagnostic → SuppressionDirective → Bool
matches_finding d s =
    not (is_some s.problem) && names_rule s.rule_id d.rule_id && kind_matches s.kind s.line d.line

-- The first directive that matches, marked as used, with its reason.
unfoldable pub use_directive :
    LintDiagnostic → List SuppressionDirective → Option (Option Text × List SuppressionDirective)
use_directive d [] = none
use_directive d (s ∷ ss) =
    let later = use_directive d ss in
    if matches_finding d s
    then some (s.reason, record s { used = true } ∷ ss)
    else elim later [ none ↦ none | some found ↦ some (found.0, s ∷ found.1) ]

abbrev pub suppress :
    LintDiagnostic → Option (Option Text × List SuppressionDirective) → LintDiagnostic
suppress d none = d
suppress d (some found) = record d { suppressed = true; suppression_reason = found.0 }

abbrev pub directives_after :
    List SuppressionDirective
    → Option (Option Text × List SuppressionDirective)
    → List SuppressionDirective
directives_after ss none = ss
directives_after ss (some found) = found.1

unfoldable pub apply_directives :
    List LintDiagnostic
    → List SuppressionDirective
    → List LintDiagnostic × List SuppressionDirective
unfolding use_directive
apply_directives [] ss = ([], ss)
apply_directives (d ∷ ds) ss =
    let found = use_directive d ss in
    let rest = apply_directives ds (directives_after ss found) in
    (suppress d found ∷ rest.0, rest.1)

-- `LINT_RULES[RULE_SUPPRESSION]`
abbrev pub rule_suppression : LintRule
rule_suppression = record {
  id = text "BBT038";
  name = text "suppression";
  severity = error;
  description =
      text
        "Inline lint suppressions must name known rules, include a reason, and suppress a finding.";
  fixable = false;
}

abbrev pub unused_message : Option Text → Text
unused_message rule_id =
    text "unused suppression for "
    ++ elim rule_id [ none ↦ text "unknown rule" | some named ↦ named ]
    ++ text "; remove it or attach it to a matching finding"

-- What is reported of one directive, if anything.
unfoldable pub directive_message : SuppressionDirective → Option Text
directive_message s = elim s.problem [
  | some message ↦ some message
  | none ↦ if not s.used then some (unused_message s.rule_id) else none
]

unfoldable pub suppression_diagnostics : Text → List SuppressionDirective → List LintDiagnostic
unfolding directive_message
suppression_diagnostics source [] = []
suppression_diagnostics source (s ∷ ss) = elim (directive_message s) [
  | none ↦ suppression_diagnostics source ss
  | some message ↦
      diagnostic_at rule_suppression source s.span message ∷ suppression_diagnostics source ss
]

-- The order of `(line, column, rule_id)`.
abbrev pub reported_before : LintDiagnostic → LintDiagnostic → Bool
reported_before a b =
    ltb a.line b.line
    || ((a.line == b.line)
        && (ltb a.column b.column || ((a.column == b.column) && not (text_lt b.rule_id a.rule_id))))

unfoldable pub finalize_diagnostics : List LintDiagnostic → Text → LintOptions → List LintDiagnostic
unfolding set_severities apply_directives suppression_diagnostics
finalize_diagnostics diagnostics source options =
    let chosen =
      set_severities options
        (retain (λ (d : LintDiagnostic). is_enabled options d.rule_id) diagnostics) in
    let (applied, directives) = apply_directives chosen (parse_suppression_directives source).0 in
    sort_by reported_before (
      retain (λ (d : LintDiagnostic). not d.suppressed || options.show_suppressed) applied
      ++ suppression_diagnostics source directives)
