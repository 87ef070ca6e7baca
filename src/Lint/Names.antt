-- ===== src/Lint/Names.antt =====
-- src/lint.rs: the names of severities, failure policies and profiles, read and written.
use bbtidy.Base.{◌≡◌, ◌↔◌, refl, ◌∙◌, ap, subst, ◌++◌, Bool-cases, inl, inr, if◌then◌else◌}
use bbtidy.Text.{Text, text, text_eq, text_eq-true}
use bbtidy.Lint.Rules.{
  LintSeverity, info, warning, error, LintFailurePolicy, fail_on_info, fail_on_warning,
  fail_on_error, never, LintProfile, essential, recommended, strict, all_rules,
}

-- The result of `FromStr::from_str`: a value, or a message.
pub data Parsed (A : Type 0) : Type 0 where
  parsed : A → Parsed A
  invalid : Text → Parsed A

unfoldable pub parse_severity : Text → Parsed LintSeverity
parse_severity value =
    if text_eq value (text "info")
    then parsed info
    else if text_eq value (text "warning")
    then parsed warning
    else if text_eq value (text "error")
    then parsed error
    else invalid
        (text "invalid lint severity '" ++ value ++ text "'; expected info, warning, or error")

abbrev pub severity_name : LintSeverity → Text
severity_name info = text "info"
severity_name warning = text "warning"
severity_name error = text "error"

unfoldable pub parse_policy : Text → Parsed LintFailurePolicy
parse_policy value =
    if text_eq value (text "info")
    then parsed fail_on_info
    else if text_eq value (text "warning")
    then parsed fail_on_warning
    else if text_eq value (text "error")
    then parsed fail_on_error
    else if text_eq value (text "never")
    then parsed never
    else invalid (
        text "invalid lint failure policy '"
        ++ value
        ++ text "'; expected info, warning, error, or never")

abbrev pub policy_name : LintFailurePolicy → Text
policy_name fail_on_info = text "info"
policy_name fail_on_warning = text "warning"
policy_name fail_on_error = text "error"
policy_name never = text "never"

unfoldable pub parse_profile : Text → Parsed LintProfile
parse_profile value =
    if text_eq value (text "essential")
    then parsed essential
    else if text_eq value (text "recommended")
    then parsed recommended
    else if text_eq value (text "strict")
    then parsed strict
    else if text_eq value (text "all")
    then parsed all_rules
    else invalid (
        text "invalid lint profile '"
        ++ value
        ++ text "'; expected essential, recommended, strict, or all")

abbrev pub profile_name : LintProfile → Text
profile_name essential = text "essential"
profile_name recommended = text "recommended"
profile_name strict = text "strict"
profile_name all_rules = text "all"

module _ {A : Type 0} (name_of : A → Text) where
  -- A value that was read has the text as its name.
  IsNamed : Text → Parsed A → Type 0
  IsNamed value (parsed x) = value ≡ name_of x
  IsNamed value (invalid message) = Unit

  IsNamed-if :
      (value name : Text) (x : A) (other : Parsed A)
      → name ≡ name_of x
      → IsNamed value other
      → IsNamed value (if text_eq value name then parsed x else other)
  unfolding IsNamed
  IsNamed-if value name x other e n = elim (Bool-cases (text_eq value name)) [
    | inl same ↦ rw same (text_eq-true value name same ∙ e)
    | inr different ↦ rw different n
  ]

parse_severity-IsNamed : (value : Text) → IsNamed severity_name value (parse_severity value)
unfolding parse_severity IsNamed
parse_severity-IsNamed value = IsNamed-if severity_name value _ info _ refl (
    IsNamed-if severity_name value _ warning _ refl
      (IsNamed-if severity_name value _ error _ refl tt))

parse_policy-IsNamed : (value : Text) → IsNamed policy_name value (parse_policy value)
unfolding parse_policy IsNamed
parse_policy-IsNamed value = IsNamed-if policy_name value _ fail_on_info _ refl (
    IsNamed-if policy_name value _ fail_on_warning _ refl (
      IsNamed-if policy_name value _ fail_on_error _ refl
        (IsNamed-if policy_name value _ never _ refl tt)))

parse_profile-IsNamed : (value : Text) → IsNamed profile_name value (parse_profile value)
unfolding parse_profile IsNamed
parse_profile-IsNamed value = IsNamed-if profile_name value _ essential _ refl (
    IsNamed-if profile_name value _ recommended _ refl (
      IsNamed-if profile_name value _ strict _ refl
        (IsNamed-if profile_name value _ all_rules _ refl tt)))

parse_severity-severity_name : (s : LintSeverity) → parse_severity (severity_name s) ≡ parsed s
unfolding parse_severity text_eq
parse_severity-severity_name info = refl
parse_severity-severity_name warning = refl
parse_severity-severity_name error = refl

parse_policy-policy_name : (p : LintFailurePolicy) → parse_policy (policy_name p) ≡ parsed p
unfolding parse_policy text_eq
parse_policy-policy_name fail_on_info = refl
parse_policy-policy_name fail_on_warning = refl
parse_policy-policy_name fail_on_error = refl
parse_policy-policy_name never = refl

parse_profile-profile_name : (p : LintProfile) → parse_profile (profile_name p) ≡ parsed p
unfolding parse_profile text_eq
parse_profile-profile_name essential = refl
parse_profile-profile_name recommended = refl
parse_profile-profile_name strict = refl
parse_profile-profile_name all_rules = refl

-- A severity, a policy or a profile is read off exactly the text that it is written as.
pub parse_names :
    (value : Text)
    → ((s : LintSeverity) → (parse_severity value ≡ parsed s) ↔ (value ≡ severity_name s))
      × ((p : LintFailurePolicy) → (parse_policy value ≡ parsed p) ↔ (value ≡ policy_name p))
      × ((p : LintProfile) → (parse_profile value ≡ parsed p) ↔ (value ≡ profile_name p))
unfolding IsNamed
parse_names value = (
  λ s. (
    λ e. subst (IsNamed severity_name value) e (parse_severity-IsNamed value),
    λ e. ap parse_severity e ∙ parse_severity-severity_name s,
  ),
  λ p. (
    λ e. subst (IsNamed policy_name value) e (parse_policy-IsNamed value),
    λ e. ap parse_policy e ∙ parse_policy-policy_name p,
  ),
  λ p. (
    λ e. subst (IsNamed profile_name value) e (parse_profile-IsNamed value),
    λ e. ap parse_profile e ∙ parse_profile-profile_name p,
  ),
)
