-- ===== src/Lint/Suppression.antt =====
-- src/lint.rs: `SuppressionDirective`, `LintSuppressionSummary` and `parse_suppression_directives`.
use bbtidy.Base.{
  ℕ, ◌+◌, Option, none, some, Bool, false, not, List, [], ◌∷◌, ◌++◌, length, take, drop, any,
  is_empty, is_some, ◌==◌, if◌then◌else◌,
}
use mathlib.Core.Option
use bbtidy.Text.{Text, text, text_eq, find_byte, strip_prefix, strip_suffix, trim}
use bbtidy.Syntax.Tree.{TextRange, range}
use bbtidy.Lint.Rules.{LintRule, lint_rules}

pub data SuppressionKind : Type 0 where
  same_line : SuppressionKind
  next_line : SuppressionKind
  file : SuppressionKind

-- The field `error` of the source is `problem`.
pub record SuppressionDirective : Type 0 where
  pub kind : SuppressionKind
  pub line : ℕ
  pub rule_id : Option Text
  pub reason : Option Text
  pub span : TextRange
  pub used : Bool
  pub problem : Option Text

pub record LintSuppressionSummary : Type 0 where
  pub directives : ℕ
  pub malformed : ℕ
  pub unknown_rules : ℕ

-- `split_inclusive('\n')`
unfoldable pub split_inclusive : Text → List Text
split_inclusive [] = []
split_inclusive (c ∷ s) =
    let rest = split_inclusive s in
    if c == b'\n'
    then (c ∷ []) ∷ rest
    else elim rest [ [] ↦ (c ∷ []) ∷ [] | line ∷ lines ↦ (c ∷ line) ∷ lines ]

unfoldable pub split_once : Text → ℕ → Option (Text × Text)
split_once s c = Option.map (λ k. (take k s, drop (k + 1) s)) (find_byte s c)

abbrev pub unwrap_or : Text → Option Text → Text
unwrap_or s none = s
unwrap_or s (some rest) = rest

abbrev pub without_suffix : Text → Text → Text
without_suffix s suffix = unwrap_or s (strip_suffix s suffix)

-- A line without its line ending.
abbrev pub bare_line : Text → Text
bare_line raw_line = without_suffix (without_suffix raw_line (b'\n' ∷ [])) (b'\r' ∷ [])

abbrev pub is_known_rule : Text → Bool
is_known_rule rule_id = any (λ (rule : LintRule). text_eq rule.id rule_id) lint_rules

-- The reason behind `--`, if one is given.
unfoldable pub reason_of : Text → Option Text
reason_of suffix = elim (strip_prefix suffix (text "--")) [
  | none ↦ none
  | some rest ↦ if is_empty (trim rest) then none else some (trim rest)
]

-- The kind that a command asks for, or the kind and the message of a directive in error.
pub data Command : Type 0 where
  directs : SuppressionKind → Command
  rejects : SuppressionKind → Text → Command

unfoldable pub command_kind : ℕ → Text → Command
command_kind line_number command =
    if text_eq command (text "ignore")
    then directs same_line
    else if text_eq command (text "ignore-next-line")
    then directs next_line
    else if text_eq command (text "disable-file")
    then if line_number == 1
      then directs file
      else rejects file (text "disable-file suppression must be on the first line")
    else rejects same_line (
        text "unknown suppression command '"
        ++ command
        ++ text "'; expected ignore, ignore-next-line, or disable-file")

-- A directive, and what it adds to the counts of malformed directives and of unknown rules.
pub record Reading : Type 0 where
  pub directive : SuppressionDirective
  pub malformed : ℕ
  pub unknown_rules : ℕ

abbrev malformed_reading : SuppressionKind → ℕ → TextRange → Text → Reading
malformed_reading kind line_number span message = record {
  directive = record {
    kind = kind;
    line = line_number;
    rule_id = none;
    reason = none;
    span = span;
    used = false;
    problem = some message;
  };
  malformed = 1;
  unknown_rules = 0;
}

-- The problem of a rule and its reason, with the counts.
unfoldable pub rule_problem : Text → Option Text → Option Text × (ℕ × ℕ)
rule_problem rule_id reason =
    if not (is_known_rule rule_id)
    then (
      some (text "unknown suppression rule '" ++ rule_id ++ text "'; use a registered BBT rule"),
      (0, 1),
    )
    else if text_eq rule_id (text "BBT038")
    then (some (text "the suppression diagnostic itself cannot be suppressed"), (0, 0))
    else if not (is_some reason)
    then (some (text "suppression requires a non-empty reason after '--'"), (1, 0))
    else (none, (0, 0))

unfoldable pub read_rule : SuppressionKind → ℕ → TextRange → Text → Reading
read_rule kind line_number span remainder = elim (split_once remainder b']') [
  | none ↦ malformed_reading kind line_number span (text "malformed suppression; missing closing ]")
  | some split ↦
      let reason = reason_of (trim split.1) in
      let problem = rule_problem (trim split.0) reason in
      record {
        directive = record {
          kind = kind;
          line = line_number;
          rule_id = some (trim split.0);
          reason = reason;
          span = span;
          used = false;
          problem = problem.0;
        };
        malformed = problem.1.0;
        unknown_rules = problem.1.1;
      }
]

unfoldable pub read_command : ℕ → TextRange → Text → Command → Reading
unfolding read_rule
read_command line_number span remainder (directs kind) = read_rule kind line_number span remainder
read_command line_number span remainder (rejects kind message) =
    malformed_reading kind line_number span message

unfoldable pub read_directive : ℕ → TextRange → Text → Reading
unfolding read_command
read_directive line_number span payload = elim (split_once (trim payload) b'[') [
  | none ↦ malformed_reading same_line line_number span (
      text
        "malformed suppression; expected ignore[BBTxxx], ignore-next-line[BBTxxx], or disable-file[BBTxxx] -- reason")
  | some split ↦ read_command line_number span split.1 (command_kind line_number (trim split.0))
]

-- The directive of a line that begins at `offset`, if its first comment is one.
unfoldable pub line_directive : ℕ → ℕ → Text → Option Reading
unfolding read_directive
line_directive line_number offset raw_line =
    let line = bare_line raw_line in
    elim (find_byte line b'#') [
      | none ↦ none
      | some hash ↦ elim (strip_prefix (drop hash line) (text "# bbtidy:")) [
        | none ↦ none
        | some payload ↦
            some (read_directive line_number (range (offset + hash) (offset + length line)) payload)
      ]
    ]

unfoldable pub parse_lines : ℕ → ℕ → List Text → List SuppressionDirective × LintSuppressionSummary
unfolding line_directive
parse_lines line_number offset [] =
    ([], record { directives = 0; malformed = 0; unknown_rules = 0 })
parse_lines line_number offset (raw_line ∷ lines) =
    let later = parse_lines (line_number + 1) (offset + length raw_line) lines in
    elim (line_directive line_number offset raw_line) [
      | none ↦ later
      | some reading ↦ (
        reading.directive ∷ later.0,
        record {
          directives = 1 + later.1.directives;
          malformed = reading.malformed + later.1.malformed;
          unknown_rules = reading.unknown_rules + later.1.unknown_rules;
        },
      )
    ]

unfoldable pub parse_suppression_directives :
    Text → List SuppressionDirective × LintSuppressionSummary
unfolding parse_lines
parse_suppression_directives source = parse_lines 1 0 (split_inclusive source)

abbrev pub lint_suppression_summary : Text → LintSuppressionSummary
lint_suppression_summary source = (parse_suppression_directives source).1
