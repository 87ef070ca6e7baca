-- ===== src/Lint/Findings.antt =====
-- Which findings `finalize_diagnostics` of src/lint.rs keeps, and which it hides.
use bbtidy.Base.{
  ◌≡◌, ◌⊎◌, refl, sym, ap, subst, ◌∙◌, Option, none, some, Bool, true, false, ◌||◌, List, [], ◌∷◌,
  map, any, All, Bool-cases, inl, inr, arith,
}
use mathlib.Core.Bool.{true≢false}
use mathlib.Core.List.{Memᴰ}
use mathlib.Core.List.Memᴰ
use mathlib.Core.List.Memᴰ.{head, tail}
use bbtidy.Text.{Text}
use bbtidy.Lint.Options.{LintDiagnostic, LintOptions, severity_for}
use bbtidy.Lint.Suppression.{SuppressionDirective}
use bbtidy.Lint.Finalize.{
  retain, set_severities, matches_finding, use_directive, suppress, directives_after,
  apply_directives,
}

-- A directive that was not used yet.
abbrev pub unused : SuppressionDirective → SuppressionDirective
unused s = record s { used = false }

-- A finding that one of the directives hides, with that directive's reason.
abbrev pub Excused : List SuppressionDirective → LintDiagnostic → Type 0
Excused directives d =
    (s : SuppressionDirective) × Memᴰ s (map unused directives)
    × (matches_finding d s ≡ true)
    × (d.suppression_reason ≡ s.reason)

pub Mem-unused :
    (s : SuppressionDirective) (ss : List SuppressionDirective)
    → Memᴰ s ss
    → Memᴰ (unused s) (map unused ss)
Mem-unused s [] m = absurd (Memᴰ.not-nil m)
Mem-unused s (t ∷ ss) (head e) = head (ap unused e)
Mem-unused s (t ∷ ss) (tail m) = tail (Mem-unused s ss m)

Using :
    LintDiagnostic
    → List SuppressionDirective
    → Option (Option Text × List SuppressionDirective)
    → Type 0
Using d ss none = any (matches_finding d) ss ≡ false
Using d ss (some found) =
    ((s : SuppressionDirective) × Memᴰ s ss × (matches_finding d s ≡ true) × (found.0 ≡ s.reason))
    × (map unused found.1 ≡ map unused ss)

Using-behind :
    (d : LintDiagnostic) (s : SuppressionDirective) (ss : List SuppressionDirective)
    → matches_finding d s ≡ false
    → (o : Option (Option Text × List SuppressionDirective)) → Using d ss o
    → Using d (s ∷ ss) (elim o [ none ↦ none | some found ↦ some (found.0, s ∷ found.1) ])
unfolding Using
Using-behind d s ss e none u = ground (arith, e, u)
Using-behind d s ss e (some found) ((t, m, f, r), same) =
    ((t, tail m, f, r), ap (λ l. unused s ∷ l) same)

use_directive-Using :
    (d : LintDiagnostic) (ss : List SuppressionDirective) → Using d ss (use_directive d ss)
unfolding use_directive Using
use_directive-Using d [] = refl
use_directive-Using d (s ∷ ss) = elim (Bool-cases (matches_finding d s)) [
  | inl e ↦ rw (e, use_directive) ((s, head refl, e, refl), refl)
  | inr e ↦ rw e (Using-behind d s ss e (use_directive d ss) (use_directive-Using d ss))
]

any-unused :
    (d : LintDiagnostic) (ss : List SuppressionDirective)
    → any (matches_finding d) (map unused ss) ≡ any (matches_finding d) ss
any-unused d [] = refl
any-unused d (s ∷ ss) = ap (λ (b : Bool). matches_finding d s || b) (any-unused d ss)

-- A finding is shown as it is and no directive matches it, or it is marked with the reason of one
-- that does.
abbrev pub Judged : List SuppressionDirective → LintDiagnostic → Type 0
Judged directives d =
    ((d.suppressed ≡ false) × (any (matches_finding d) directives ≡ false))
    ⊎ ((d.suppressed ≡ true) × Excused directives d)

module _ (os : List SuppressionDirective) where
  suppress-Judged :
      (d : LintDiagnostic) (ss : List SuppressionDirective)
      → map unused ss ≡ map unused os
      → d.suppressed ≡ false
      → (o : Option (Option Text × List SuppressionDirective)) → Using d ss o
      → Judged os (suppress d o) × (map unused (directives_after ss o) ≡ map unused os)
  unfolding Using
  suppress-Judged d ss same f none u = (
    inl (f, sym (any-unused d os) ∙ ap (any (matches_finding d)) (sym same) ∙ any-unused d ss ∙ u),
    same,
  )
  suppress-Judged d ss same f (some found) ((s, m, e, r), kept) = (
    inr (refl, (unused s, subst (λ l. Memᴰ (unused s) l) same (Mem-unused s ss m), e, r)),
    kept ∙ same,
  )

  module _ (P : Text → Type 0) where
    suppress-rule_id :
        (d : LintDiagnostic) (o : Option (Option Text × List SuppressionDirective))
        → P d.rule_id
        → P (suppress d o).rule_id
    suppress-rule_id d none p = p
    suppress-rule_id d (some found) p = p

    pub apply_directives-Judged :
        (ds : List LintDiagnostic) (ss : List SuppressionDirective)
        → map unused ss ≡ map unused os
        → All (λ d. P d.rule_id × (d.suppressed ≡ false)) ds
        → All (λ d. P d.rule_id × Judged os d) (apply_directives ds ss).0
    unfolding apply_directives
    apply_directives-Judged [] ss same a = tt
    apply_directives-Judged (d ∷ ds) ss same ((p, f), a) =
        let (j, after) =
          suppress-Judged d ss same f (use_directive d ss) (use_directive-Using d ss) in
        (
          (suppress-rule_id d (use_directive d ss) p, j),
          apply_directives-Judged ds (directives_after ss (use_directive d ss)) after a,
        )

pub retain-All :
    {A : Type 0} (P : A → Type 0) (keep : A → Bool) (xs : List A)
    → All P xs
    → All (λ x. P x × (keep x ≡ true)) (retain keep xs)
unfolding retain
retain-All P keep [] a = tt
retain-All P keep (x ∷ xs) a = elim (Bool-cases (keep x)) [
  | inl e ↦ rw (e, retain) ((a.0, e), retain-All P keep xs a.1)
  | inr e ↦ rw (e, retain) (retain-All P keep xs a.1)
]

pub retain-Mem :
    {A : Type 0} (keep : A → Bool) {x : A} (xs : List A)
    → keep x ≡ true
    → Memᴰ x xs
    → Memᴰ x (retain keep xs)
unfolding retain
retain-Mem keep [] e m = m
retain-Mem keep (y ∷ xs) e (head same) = rw (sym (ap keep same) ∙ e, retain) (head same)
retain-Mem keep (y ∷ xs) e (tail m) = elim (Bool-cases (keep y)) [
  | inl f ↦ rw (f, retain) (tail (retain-Mem keep xs e m))
  | inr f ↦ rw (f, retain) (retain-Mem keep xs e m)
]

pub set_severities-All :
    (options : LintOptions) (P : Text → Type 0) (ds : List LintDiagnostic)
    → All (λ d. P d.rule_id × (d.suppressed ≡ false)) ds
    → All (λ d. P d.rule_id × (d.suppressed ≡ false)) (set_severities options ds)
unfolding set_severities
set_severities-All options P [] a = tt
set_severities-All options P (d ∷ ds) a = (a.0, set_severities-All options P ds a.1)

use_directive-none :
    (d : LintDiagnostic) (ss : List SuppressionDirective)
    → any (matches_finding d) ss ≡ false
    → use_directive d ss ≡ none
unfolding use_directive
use_directive-none d [] e = refl
use_directive-none d (s ∷ ss) e = elim (Bool-cases (matches_finding d s)) [
  | inl f ↦ absurd (true≢false (ground (arith, e, f)))
  | inr f ↦ rw (f, use_directive) (rw (use_directive-none d ss (ground (arith, e, f))) refl)
]

after-unused :
    (d : LintDiagnostic) (ss : List SuppressionDirective)
    (o : Option (Option Text × List SuppressionDirective))
    → Using d ss o
    → map unused (directives_after ss o) ≡ map unused ss
unfolding Using
after-unused d ss none u = refl
after-unused d ss (some found) (u, same) = same

-- Directives are only marked as used.
pub apply_directives-unused :
    (ds : List LintDiagnostic) (ss : List SuppressionDirective)
    → map unused (apply_directives ds ss).1 ≡ map unused ss
unfolding apply_directives
apply_directives-unused [] ss = refl
apply_directives-unused (d ∷ ds) ss =
    apply_directives-unused ds (directives_after ss (use_directive d ss))
    ∙ after-unused d ss (use_directive d ss) (use_directive-Using d ss)

-- A finding that no directive matches stays what it is.
pub apply_directives-Mem :
    (d : LintDiagnostic) (ds : List LintDiagnostic) (ss : List SuppressionDirective)
    → any (matches_finding d) ss ≡ false
    → Memᴰ d ds
    → Memᴰ d (apply_directives ds ss).0
unfolding apply_directives
apply_directives-Mem d [] ss e m = m
apply_directives-Mem d (x ∷ ds) ss e (head same) = head (
    same
    ∙ sym (
        ap (suppress x) (
          use_directive-none x ss
            (sym (ap (λ (y : LintDiagnostic). any (matches_finding y) ss) same) ∙ e))))
apply_directives-Mem d (x ∷ ds) ss e (tail m) =
    let after = directives_after ss (use_directive x ss) in
    tail (
      apply_directives-Mem d ds after
        (sym (any-unused d after)
          ∙ ap (any (matches_finding d))
              (after-unused x ss (use_directive x ss) (use_directive-Using x ss))
          ∙ any-unused d ss
          ∙ e)
        m)

-- A finding with the severity that the options give it.
abbrev pub rated : LintOptions → LintDiagnostic → LintDiagnostic
rated options d = record d { severity = severity_for options d }

pub set_severities-Mem :
    (options : LintOptions) (d : LintDiagnostic) (ds : List LintDiagnostic)
    → Memᴰ d ds
    → Memᴰ (rated options d) (set_severities options ds)
unfolding set_severities
set_severities-Mem options d [] m = absurd (Memᴰ.not-nil m)
set_severities-Mem options d (x ∷ ds) (head same) = head (ap (rated options) same)
set_severities-Mem options d (x ∷ ds) (tail m) = tail (set_severities-Mem options d ds m)
