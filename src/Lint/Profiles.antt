-- ===== src/Lint/Profiles.antt =====
-- The profiles of src/lint.rs: each selects what the one before it selects.
use bbtidy.Base.{
  ◌≡◌, refl, Bool, true, false, List, [], ◌∷◌, any, Bool-cases, inl, inr, if◌then◌else◌, arith,
}
use bbtidy.Text.{Text, text_eq}
use bbtidy.Lint.Rules.{
  LintRule, lint_rules, LintProfile, essential, recommended, strict, all_rules, same_profile,
  profile_membership, rules_from, profile_rules, includes,
}

-- The next wider profile.
abbrev pub wider : LintProfile → LintProfile
wider essential = recommended
wider recommended = strict
wider strict = all_rules
wider all_rules = all_rules

-- The lists of profiles of the source.
Closed : List LintProfile → Type 0
Closed members =
    (p : LintProfile)
    → any (same_profile p) members ≡ true
    → any (same_profile (wider p)) members ≡ true

Closed-if :
    (b : Bool) (xs ys : List LintProfile) → Closed xs → Closed ys → Closed (if b then xs else ys)
Closed-if true xs ys c d = c
Closed-if false xs ys c d = d

Closed-essential : Closed (essential ∷ recommended ∷ strict ∷ all_rules ∷ [])
unfolding Closed
Closed-essential essential e = refl
Closed-essential recommended e = refl
Closed-essential strict e = refl
Closed-essential all_rules e = refl

Closed-recommended : Closed (recommended ∷ strict ∷ all_rules ∷ [])
unfolding Closed
Closed-recommended essential e = refl
Closed-recommended recommended e = refl
Closed-recommended strict e = refl
Closed-recommended all_rules e = refl

Closed-strict : Closed (strict ∷ all_rules ∷ [])
unfolding Closed
Closed-strict essential e = cc
Closed-strict recommended e = refl
Closed-strict strict e = refl
Closed-strict all_rules e = refl

Closed-nil : Closed []
unfolding Closed
Closed-nil p e = cc

profile_membership-Closed : (rule_id : Text) → Closed (profile_membership rule_id)
unfolding profile_membership
profile_membership-Closed rule_id = Closed-if _ _ _ Closed-essential (
    Closed-if _ _ _ Closed-recommended
      (Closed-if _ _ _ Closed-strict (Closed-if _ _ _ Closed-strict Closed-nil)))

rules_from-wider :
    (p : LintProfile) (rule_id : Text) (rules : List LintRule)
    → any (λ (rule : LintRule). text_eq rule.id rule_id) (rules_from p rules) ≡ true
    → any (λ (rule : LintRule). text_eq rule.id rule_id) (rules_from (wider p) rules) ≡ true
unfolding rules_from Closed
rules_from-wider p rule_id [] e = e
rules_from-wider p rule_id (rule ∷ rules) e =
    elim (Bool-cases (any (same_profile p) (profile_membership rule.id))) [
      | inl f ↦
          rw (profile_membership-Closed rule.id p f) (elim (Bool-cases (text_eq rule.id rule_id)) [
            | inl g ↦ rw g refl
            | inr g ↦ rw g (rules_from-wider p rule_id rules (rw g at (rw f at e)))
          ])
      | inr f ↦
          let later = rules_from-wider p rule_id rules (rw f at e) in
          elim (Bool-cases (any (same_profile (wider p)) (profile_membership rule.id))) [
            | inl g ↦ rw g (ground (arith, later))
            | inr g ↦ rw g later
          ]
    ]

-- A rule of a profile is a rule of the next wider one.
pub includes-wider :
    (p : LintProfile) (rule_id : Text)
    → includes p rule_id ≡ true
    → includes (wider p) rule_id ≡ true
unfolding includes profile_rules
includes-wider p rule_id e = rules_from-wider p rule_id lint_rules e
