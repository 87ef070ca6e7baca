-- ===== src/Lint/Rules.antt =====
-- src/lint.rs: `LintSeverity`, `LintFailurePolicy`, `LintRule`, `LINT_RULES`, `LintProfile` and
-- `profile_membership`.
use bbtidy.Base.{String, Bool, true, false, List, [], ◌∷◌, any, if◌then◌else◌}
use bbtidy.Text.{Text, text, text_eq}

pub data LintSeverity : Type 0 where
  info : LintSeverity
  warning : LintSeverity
  error : LintSeverity

-- The variants `Info`, `Warning`, `Error` and `Never`.
pub data LintFailurePolicy : Type 0 where
  fail_on_info : LintFailurePolicy
  fail_on_warning : LintFailurePolicy
  fail_on_error : LintFailurePolicy
  never : LintFailurePolicy

abbrev pub is_blocking : LintFailurePolicy → LintSeverity → Bool
is_blocking fail_on_info severity = true
is_blocking fail_on_warning info = false
is_blocking fail_on_warning warning = true
is_blocking fail_on_warning error = true
is_blocking fail_on_error info = false
is_blocking fail_on_error warning = false
is_blocking fail_on_error error = true
is_blocking never severity = false

pub record LintRule : Type 0 where
  pub id : Text
  pub name : Text
  pub severity : LintSeverity
  pub description : Text
  pub fixable : Bool

abbrev lint_rule : String → String → LintSeverity → String → Bool → LintRule
lint_rule id name severity description fixable = record {
  id = text id;
  name = text name;
  severity = severity;
  description = text description;
  fixable = fixable;
}

unfoldable pub lint_rules : List LintRule
lint_rules =
    lint_rule "BBT001" "trailing-whitespace" warning "Lines must not end with spaces or tabs." true
    ∷ lint_rule "BBT002" "final-newline" warning "Non-empty files must end with a newline." true
    ∷ lint_rule "BBT003" "summary-length" warning "A literal SUMMARY must not exceed 80 characters."
        false
    ∷ lint_rule "BBT004" "autorev" warning
        "SRCREV assignments must use a fixed revision instead of ${AUTOREV}." false
    ∷ lint_rule "BBT005" "duplicate-inherit" warning
        "A class must not be inherited more than once in one file." false
    ∷ lint_rule "BBT006" "unresolved-require" warning
        "A static require target must resolve within the indexed layers." false
    ∷ lint_rule "BBT007" "unresolved-inherit" warning
        "A static inherited class must resolve within the indexed layers." false
    ∷ lint_rule "BBT008" "ambiguous-require" warning
        "A static require target must resolve to one highest-priority file." false
    ∷ lint_rule "BBT009" "ambiguous-inherit" warning
        "A static inherited class must resolve to one highest-priority definition." false
    ∷ lint_rule "BBT010" "dependency-cycle" warning
        "A static metadata dependency must not close a resolution cycle." false
    ∷ lint_rule "BBT011" "missing-summary" warning "Recipes must declare a SUMMARY." false
    ∷ lint_rule "BBT012" "missing-description" warning "Recipes must declare a DESCRIPTION." false
    ∷ lint_rule "BBT013" "missing-license" warning "Recipes must declare a LICENSE." false
    ∷ lint_rule "BBT014" "file-paths-immediate" warning
        "FILESEXTRAPATHS must use immediate expansion." false
    ∷ lint_rule "BBT015" "git-uri-protocol" warning
        "Git fetch URLs must declare their transport protocol." false
    ∷ lint_rule "BBT016" "duplicate-assignment" warning
        "A variable should not be assigned directly more than once in one file." false
    ∷ lint_rule "BBT017" "duplicate-function" warning
        "A task or function should not be declared more than once in one file." false
    ∷ lint_rule "BBT018" "empty-directive" warning
        "Metadata dependency directives must name a target." false
    ∷ lint_rule "BBT019" "bitbake-diagnostic" error "BitBake reported a semantic diagnostic." false
    ∷ lint_rule "BBT020" "recipe-name" warning "An explicit PN should match the recipe filename."
        false
    ∷ lint_rule "BBT021" "recipe-version" warning
        "An explicit PV should match the version in the recipe filename." false
    ∷ lint_rule "BBT022" "license-checksum" warning
        "Non-CLOSED recipes must provide valid license-file checksums." false
    ∷ lint_rule "BBT023" "source-checksum" warning
        "Remote source archives must provide a valid checksum." false
    ∷ lint_rule "BBT024" "packageconfig" warning
        "Enabled PACKAGECONFIG features must have flag definitions." false
    ∷ lint_rule "BBT025" "packageconfig-format" warning
        "PACKAGECONFIG flags must use no more than the six supported BitBake fields." false
    ∷ lint_rule "BBT026" "package-scope" warning
        "Package-scoped variables must refer to declared packages." false
    ∷ lint_rule "BBT027" "package-list" warning "PACKAGES must not contain duplicate package names."
        false
    ∷ lint_rule "BBT028" "uri-parameters" warning
        "SRC_URI entries must not contain invalid or conflicting parameters." false
    ∷ lint_rule "BBT029" "layer-collections" warning
        "A layer must declare nonempty BBFILE_COLLECTIONS metadata." false
    ∷ lint_rule "BBT030" "layer-pattern" warning
        "Every layer collection must define a BBFILE_PATTERN." false
    ∷ lint_rule "BBT031" "layer-priority" warning
        "Every layer collection must define an integer BBFILE_PRIORITY." false
    ∷ lint_rule "BBT032" "layer-depends" warning
        "LAYERDEPENDS entries must reference indexed layer collections." false
    ∷ lint_rule "BBT033" "layer-series-compat" warning
        "Every layer collection must declare LAYERSERIES_COMPAT." false
    ∷ lint_rule "BBT034" "shell-syntax" warning
        "Shell function bodies must have balanced control-flow constructs." false
    ∷ lint_rule "BBT035" "python-syntax" warning
        "Embedded Python bodies must have valid delimiters and compound statements." false
    ∷ lint_rule "BBT036" "python-indentation" warning
        "Embedded Python bodies must use consistent indentation." false
    ∷ lint_rule "BBT037" "unknown-override" warning
        "Static override components should be listed in OVERRIDES." false
    ∷ lint_rule "BBT038" "suppression" error
        "Inline lint suppressions must name known rules, include a reason, and suppress a finding."
        false
    ∷ []

pub data LintProfile : Type 0 where
  essential : LintProfile
  recommended : LintProfile
  strict : LintProfile
  all_rules : LintProfile

abbrev pub same_profile : LintProfile → LintProfile → Bool
same_profile essential essential = true
same_profile recommended recommended = true
same_profile strict strict = true
same_profile all_rules all_rules = true
same_profile _ _ = false

abbrev one_of : List Text → Text → Bool
one_of ids rule_id = any (text_eq rule_id) ids

abbrev high_confidence : List Text
high_confidence =
    text "BBT001"
    ∷ text "BBT002"
    ∷ text "BBT004"
    ∷ text "BBT005"
    ∷ text "BBT006"
    ∷ text "BBT007"
    ∷ text "BBT008"
    ∷ text "BBT009"
    ∷ text "BBT010"
    ∷ text "BBT014"
    ∷ text "BBT015"
    ∷ text "BBT017"
    ∷ text "BBT018"
    ∷ text "BBT019"
    ∷ text "BBT022"
    ∷ text "BBT023"
    ∷ text "BBT024"
    ∷ text "BBT025"
    ∷ text "BBT026"
    ∷ text "BBT027"
    ∷ text "BBT028"
    ∷ text "BBT029"
    ∷ text "BBT030"
    ∷ text "BBT031"
    ∷ text "BBT032"
    ∷ text "BBT033"
    ∷ text "BBT034"
    ∷ text "BBT035"
    ∷ text "BBT036"
    ∷ text "BBT037"
    ∷ text "BBT038"
    ∷ []

unfoldable pub profile_membership : Text → List LintProfile
profile_membership rule_id =
    if one_of high_confidence rule_id
    then essential ∷ recommended ∷ strict ∷ all_rules ∷ []
    else if text_eq rule_id (text "BBT020")
    then recommended ∷ strict ∷ all_rules ∷ []
    else if text_eq rule_id (text "BBT016")
    then strict ∷ all_rules ∷ []
    else if one_of
        (text "BBT003" ∷ text "BBT011" ∷ text "BBT012" ∷ text "BBT013" ∷ text "BBT021" ∷ []) rule_id
    then strict ∷ all_rules ∷ []
    else []

-- `LintProfile::rules`
unfoldable pub rules_from : LintProfile → List LintRule → List LintRule
unfolding profile_membership
rules_from profile [] = []
rules_from profile (rule ∷ rules) =
    let later = rules_from profile rules in
    if any (same_profile profile) (profile_membership rule.id) then rule ∷ later else later

unfoldable pub profile_rules : LintProfile → List LintRule
unfolding rules_from lint_rules
profile_rules profile = rules_from profile lint_rules

unfoldable pub includes : LintProfile → Text → Bool
unfolding profile_rules
includes profile rule_id =
    any (λ (rule : LintRule). text_eq rule.id rule_id) (profile_rules profile)
