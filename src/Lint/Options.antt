-- ===== src/Lint/Options.antt =====
-- src/lint.rs: `LintOptions` and `LintDiagnostic`; src/lib.rs: `get_line_col`.
use bbtidy.Base.{
  ℕ, zero, suc, ◌+◌, min, Option, none, some, Bool, false, not, ◌&&◌, ◌||◌, List, [], ◌∷◌, length,
  take, drop, any, leb, ltb, if◌then◌else◌,
}
use bbtidy.Text.{Text, text, text_eq, count_byte, rfind_byte}
use bbtidy.Text.Maps.{get, text_lt}
use bbtidy.Syntax.Tree.{TextRange}
use bbtidy.Lint.Rules.{
  LintSeverity, LintFailurePolicy, fail_on_warning, is_blocking, LintRule, LintProfile, all_rules,
  includes,
}
use bbtidy.Lint.Fixes.{LintFix, is_char_boundary}

pub record LintDiagnostic : Type 0 where
  pub rule_id : Text
  pub severity : LintSeverity
  pub line : ℕ
  pub column : ℕ
  pub end_line : ℕ
  pub end_column : ℕ
  pub range : TextRange
  pub message : Text
  pub help : Option Text
  pub fixes : List LintFix
  pub suppressed : Bool
  pub suppression_reason : Option Text

-- The last character that begins before `index`, 0 where there is none.
unfoldable pub character_before : Text → ℕ → ℕ
character_before text zero = 0
character_before text (suc index) =
    let earlier = character_before text index in
    if is_char_boundary text index then index else earlier

-- `chars().count()`: the bytes that continue no character
unfoldable pub count_chars : Text → ℕ
count_chars [] = 0
count_chars (c ∷ s) = (if ltb c 0x80 || leb 0xC0 c then 1 else 0) + count_chars s

abbrev pub nearest_boundary : Text → ℕ → ℕ
nearest_boundary text index =
    let index' = min index (length text) in
    if is_char_boundary text index' then index' else character_before text index'

abbrev pub after_last_newline : Text → ℕ
after_last_newline prefix = elim (rfind_byte prefix b'\n') [ none ↦ 0 | some i ↦ i + 1 ]

unfoldable pub get_line_col : Text → ℕ → ℕ × ℕ
get_line_col text index =
    let prefix = take (nearest_boundary text index) text in
    (count_byte b'\n' prefix + 1, count_chars (drop (after_last_newline prefix) prefix) + 1)

-- `LintDiagnostic::at`
unfoldable pub diagnostic_at : LintRule → Text → TextRange → Text → LintDiagnostic
unfolding get_line_col
diagnostic_at rule source range message = record {
  rule_id = rule.id;
  severity = rule.severity;
  line = (get_line_col source range.start).0;
  column = (get_line_col source range.start).1;
  end_line = (get_line_col source range.end).0;
  end_column = (get_line_col source range.end).1;
  range = range;
  message = message;
  help = none;
  fixes = [];
  suppressed = false;
  suppression_reason = none;
}

-- A set of names in its order.
abbrev pub TextSet : Type 0
TextSet = List Text

abbrev pub set_contains : Text → TextSet → Bool
set_contains name names = any (text_eq name) names

-- `baseline` is a path that only the command line reads.
pub record LintOptions : Type 0 where
  pub profile : LintProfile
  pub enabled_rules : TextSet
  pub disabled_rules : TextSet
  pub severity_overrides : List (Text × LintSeverity)
  pub fail_on : LintFailurePolicy
  pub show_suppressed : Bool
  pub baseline : Option Text

abbrev pub default_options : LintOptions
default_options = record {
  profile = all_rules;
  enabled_rules = [];
  disabled_rules = [];
  severity_overrides = [];
  fail_on = fail_on_warning;
  show_suppressed = false;
  baseline = none;
}

abbrev pub is_enabled : LintOptions → Text → Bool
is_enabled options rule_id =
    (includes options.profile rule_id || set_contains rule_id options.enabled_rules)
    && not (set_contains rule_id options.disabled_rules)

abbrev pub severity_for : LintOptions → LintDiagnostic → LintSeverity
severity_for options diagnostic =
    elim (get text_lt text_eq diagnostic.rule_id options.severity_overrides) [
      | none ↦ diagnostic.severity
      | some severity ↦ severity
    ]

abbrev pub has_blocking_findings : LintOptions → List LintDiagnostic → Bool
has_blocking_findings options diagnostics =
    any
      (λ (diagnostic : LintDiagnostic).
        text_eq diagnostic.rule_id (text "BBT038")
        || (not diagnostic.suppressed && is_blocking options.fail_on diagnostic.severity))
      diagnostics
