-- ===== src/Tests/Suppressions.antt =====
-- Runs of the suppressions of src/lint.rs on a small source.
use bbtidy.Base.{
  ◌↔◌, String, ℕ, ◌≡◌, refl, sym, subst, none, some, true, false, List, [], ◌∷◌, All, any, map,
  length, drop,
}
use bbtidy.Base.Sorting.{insert_sorted, sort_by}
use mathlib.Core.List.{Memᴰ}
use mathlib.Core.List.Memᴰ.{head, tail}
use bbtidy.Text.{
  Text, text, text_eq, find_byte, strip_prefix, strip_suffix, count_byte, rfind_byte, white_len,
  white_len_back, trim_by, trim_start, trim_end,
}
use bbtidy.Text.Maps.{get, lex_lt}
use bbtidy.Syntax.Tree.{range}
use bbtidy.Lint.Fixes.{is_char_boundary}
use bbtidy.Lint.Rules.{
  LintFailurePolicy, LintProfile, LintSeverity, warning, error, never, lint_rules, essential,
  recommended, profile_membership, rules_from, profile_rules, includes,
}
use bbtidy.Lint.Profiles.{includes-wider}
use bbtidy.Lint.Names.{
  parsed, parse_severity, severity_name, parse_policy, policy_name, parse_profile, profile_name,
  parse_names,
}
use bbtidy.Lint.Options.{
  LintDiagnostic, LintOptions, default_options, is_enabled, has_blocking_findings, character_before,
  count_chars, get_line_col, diagnostic_at,
}
use bbtidy.Lint.Suppression.{
  same_line, SuppressionDirective, split_inclusive, split_once, reason_of, command_kind,
  rule_problem, read_rule, read_command, read_directive, line_directive, parse_lines,
  parse_suppression_directives, lint_suppression_summary,
}
use bbtidy.Lint.Finalize.{
  retain, set_severities, matches_finding, use_directive, apply_directives, rule_suppression,
  directive_message, suppression_diagnostics, finalize_diagnostics,
}
use bbtidy.Lint.Summary.{parse_suppression_directives-IsParsed, IsParsed}
use bbtidy.Lint.Reported.{
  finalize_diagnostics-directive_message, has_blocking_findings-finalize_diagnostics,
}
use bbtidy.Lint.Findings.{rated}
use bbtidy.Lint.Outcome.{InOrder, finalize_diagnostics-InOrder, finalize_diagnostics-rated}

unfoldable lint_code : Unit {0}
unfolding insert_sorted sort_by text_eq find_byte strip_prefix strip_suffix count_byte rfind_byte
    white_len white_len_back trim_by trim_start trim_end get lex_lt is_char_boundary lint_rules
    profile_membership rules_from profile_rules includes character_before count_chars get_line_col
    diagnostic_at split_inclusive split_once reason_of command_kind rule_problem read_rule
    read_command read_directive line_directive parse_lines parse_suppression_directives retain
    set_severities use_directive apply_directives directive_message suppression_diagnostics
    finalize_diagnostics
lint_code = tt

-- One directive that hides a finding, one without a reason, and one that hides nothing.
abbrev source : Text
source =
    text
      "A = 1  # bbtidy: ignore[BBT001] -- kept\n# bbtidy: ignore[BBT004]\nB = 2 # bbtidy: ignore[BBT002] -- no\n"

abbrev hiding : SuppressionDirective
hiding = record {
  kind = same_line;
  line = 1;
  rule_id = some (text "BBT001");
  reason = some (text "kept");
  span = range 7 39;
  used = false;
  problem = none;
}

abbrev no_reason : Text
no_reason = text "suppression requires a non-empty reason after '--'"

abbrev broken : SuppressionDirective
broken = record {
  kind = same_line;
  line = 2;
  rule_id = some (text "BBT004");
  reason = none;
  span = range 40 64;
  used = false;
  problem = some no_reason;
}

abbrev idle : SuppressionDirective
idle = record {
  kind = same_line;
  line = 3;
  rule_id = some (text "BBT002");
  reason = some (text "no");
  span = range 71 101;
  used = false;
  problem = none;
}

directives_read : (parse_suppression_directives source).0 ≡ hiding ∷ broken ∷ idle ∷ []
unfolding lint_code
directives_read = refl

counted :
    lint_suppression_summary source ≡ record { directives = 3; malformed = 1; unknown_rules = 0 }
unfolding lint_code
counted = refl

-- Only the first `#` of a line can begin a directive.
hidden_behind_value :
    (parse_suppression_directives (text "A = \"x#y\" # bbtidy: ignore[BBT001] -- kept\n")).0 ≡ []
unfolding lint_code
hidden_behind_value = refl

-- `RULE_SUPPRESSION` is 37.
suppression_rule : drop 37 lint_rules ≡ rule_suppression ∷ []
unfolding lint_code
suppression_rule = refl

abbrev finding : String → ℕ → ℕ → LintDiagnostic
finding rule_id line column = record {
  rule_id = text rule_id;
  severity = warning;
  line = line;
  column = column;
  end_line = line;
  end_column = column;
  range = range 0 0;
  message = [];
  help = none;
  fixes = [];
  suppressed = false;
  suppression_reason = none;
}

abbrev findings : List LintDiagnostic
findings = finding "BBT005" 3 1 ∷ finding "BBT001" 1 6 ∷ []

places :
    map {B = Text × ℕ}
      (λ (d : LintDiagnostic). (d.rule_id, d.line))
      (finalize_diagnostics findings source default_options)
    ≡ (text "BBT038", 2) ∷ (text "BBT005", 3) ∷ (text "BBT038", 3) ∷ []
unfolding lint_code
places = refl

-- Options that fail on nothing and disable the rule of the directives.
abbrev lenient : LintOptions
lenient = record default_options { disabled_rules = text "BBT038" ∷ []; fail_on = never }

broken_read : Memᴰ broken (parse_suppression_directives source).0
broken_read =
    subst (λ (ss : List SuppressionDirective). Memᴰ broken ss) (sym directives_read)
      (tail (head refl))

idle_read : Memᴰ idle (parse_suppression_directives source).0
idle_read =
    subst (λ (ss : List SuppressionDirective). Memᴰ idle ss) (sym directives_read)
      (tail (tail (head refl)))

has_blocking_findings-finalize_diagnostics_example :
    has_blocking_findings lenient (finalize_diagnostics findings source lenient) ≡ true
has_blocking_findings-finalize_diagnostics_example =
    has_blocking_findings-finalize_diagnostics findings source lenient broken no_reason broken_read
      refl

abbrev unused_text : Text
unused_text = text "unused suppression for BBT002; remove it or attach it to a matching finding"

idle_message : directive_message idle ≡ some unused_text
unfolding lint_code
idle_message = refl

idle_unmatched : All (λ d. matches_finding d idle ≡ false) findings
unfolding lint_code
idle_unmatched = (refl, (refl, tt))

finalize_diagnostics-directive_message_example :
    Memᴰ
      (diagnostic_at rule_suppression source (range 71 101) unused_text)
      (finalize_diagnostics findings source lenient)
finalize_diagnostics-directive_message_example =
    finalize_diagnostics-directive_message findings source lenient idle unused_text idle_read
      idle_message idle_unmatched

finalize_diagnostics-InOrder_example : InOrder (finalize_diagnostics findings source lenient)
finalize_diagnostics-InOrder_example = finalize_diagnostics-InOrder findings source lenient

strict_options : LintOptions
strict_options = record default_options { severity_overrides = (text "BBT005", error) ∷ [] }

open_enabled : is_enabled strict_options (text "BBT005") ≡ true
unfolding lint_code strict_options
open_enabled = refl

open_unmatched :
    any (matches_finding (finding "BBT005" 3 1)) (parse_suppression_directives source).0 ≡ false
unfolding lint_code
open_unmatched = refl

finalize_diagnostics-rated_example :
    Memᴰ
      (rated strict_options (finding "BBT005" 3 1))
      (finalize_diagnostics findings source strict_options)
finalize_diagnostics-rated_example =
    finalize_diagnostics-rated findings source strict_options (finding "BBT005" 3 1) (head refl)
      open_enabled refl open_unmatched

parse_suppression_directives-IsParsed_example :
    IsParsed 0 (length source) (parse_suppression_directives source)
parse_suppression_directives-IsParsed_example = parse_suppression_directives-IsParsed source

essential_rule : includes essential (text "BBT001") ≡ true
unfolding lint_code
essential_rule = refl

includes-wider_example : includes recommended (text "BBT001") ≡ true
includes-wider_example = includes-wider essential (text "BBT001") essential_rule

parse_names_example :
    ((s : LintSeverity)
      → (parse_severity (text "warning") ≡ parsed s) ↔ (text "warning" ≡ severity_name s))
    × ((p : LintFailurePolicy)
        → (parse_policy (text "warning") ≡ parsed p) ↔ (text "warning" ≡ policy_name p))
    × ((p : LintProfile)
        → (parse_profile (text "warning") ≡ parsed p) ↔ (text "warning" ≡ profile_name p))
parse_names_example = parse_names (text "warning")
