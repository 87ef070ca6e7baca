-- ===== src/Lint/Reported.antt =====
-- What `finalize_diagnostics` of src/lint.rs reports.
use bbtidy.Base.{
  ◌≡◌, refl, sym, ap, subst, ◌∙◌, Option, some, true, false, not, ◌&&◌, ◌||◌, List, [], ◌∷◌, All,
  Bool-cases, Option-cases, inl, inr,
}
use bbtidy.Base.Membership.{Mem-append_right, Mem-behind, Mem-sort_by, Mem-any}
use mathlib.Core.Bool.{true≢false}
use mathlib.Core.List.{Memᴰ}
use mathlib.Core.List.Memᴰ
use mathlib.Core.List.Memᴰ.{head, tail}
use bbtidy.Text.{Text, text, text_eq, text_eq_refl}
use bbtidy.Lint.Rules.{is_blocking}
use bbtidy.Lint.Options.{
  LintDiagnostic, LintOptions, is_enabled, diagnostic_at, has_blocking_findings,
}
use bbtidy.Lint.Suppression.{SuppressionDirective, parse_suppression_directives}
use bbtidy.Lint.Finalize.{
  retain, set_severities, matches_finding, use_directive, directives_after, apply_directives,
  rule_suppression, directive_message, suppression_diagnostics, reported_before,
  finalize_diagnostics,
}

used_other :
    (d : LintDiagnostic) (s t : SuppressionDirective) (ss : List SuppressionDirective)
    → matches_finding d s ≡ false
    → matches_finding d t ≡ true
    → Memᴰ s (t ∷ ss)
    → Memᴰ s (record t { used = true } ∷ ss)
used_other d s t ss e f (head same) =
    absurd (true≢false (sym f ∙ sym (ap (matches_finding d) same) ∙ e))
used_other d s t ss e f (tail n) = tail n

-- A directive that matches no finding stays what it is.
use_directive-Mem :
    (d : LintDiagnostic) (s : SuppressionDirective) (ss : List SuppressionDirective)
    → matches_finding d s ≡ false
    → Memᴰ s ss
    → Memᴰ s (directives_after ss (use_directive d ss))
unfolding use_directive
use_directive-Mem d s [] e m = m
use_directive-Mem d s (t ∷ ss) e m = elim (Bool-cases (matches_finding d t)) [
  | inl f ↦ rw (f, use_directive) (used_other d s t ss e f m)
  | inr f ↦
      let later = use_directive-Mem d s ss e in
      elim (Option-cases (use_directive d ss)) [
        | inl g ↦ rw (f, use_directive) (rw g m)
        | inr (found, g) ↦
            rw (f, use_directive)
              (rw g (
                Mem-behind
                  (λ n.
                    subst
                      (λ (r : Option (Option Text × List SuppressionDirective)).
                        Memᴰ s (directives_after ss r))
                      g (later n))
                  m))
      ]
]

apply_directives-Mem :
    (s : SuppressionDirective) (ds : List LintDiagnostic) (ss : List SuppressionDirective)
    → All (λ d. matches_finding d s ≡ false) ds
    → Memᴰ s ss
    → Memᴰ s (apply_directives ds ss).1
unfolding apply_directives
apply_directives-Mem s [] ss a m = m
apply_directives-Mem s (d ∷ ds) ss a m =
    apply_directives-Mem s ds (directives_after ss (use_directive d ss)) a.1
      (use_directive-Mem d s ss a.0 m)

suppression_diagnostics-Mem :
    (source : Text) (s : SuppressionDirective) (message : Text) (ss : List SuppressionDirective)
    → directive_message s ≡ some message
    → Memᴰ s ss
    → Memᴰ
        (diagnostic_at rule_suppression source s.span message)
        (suppression_diagnostics source ss)
unfolding suppression_diagnostics
suppression_diagnostics-Mem source s message [] e m = absurd (Memᴰ.not-nil m)
suppression_diagnostics-Mem source s message (t ∷ ss) e (head same) =
    rw (sym (ap directive_message same) ∙ e, suppression_diagnostics)
      (head (
        ap (λ (x : SuppressionDirective). diagnostic_at rule_suppression source x.span message)
          same))
suppression_diagnostics-Mem source s message (t ∷ ss) e (tail n) =
    let later = suppression_diagnostics-Mem source s message ss e n in
    elim (Option-cases (directive_message t)) [
      | inl f ↦ rw (f, suppression_diagnostics) later
      | inr (other, f) ↦ rw (f, suppression_diagnostics) (tail later)
    ]

-- A severity that is set and a rule that is not enabled change no match.
chosen-unmatched :
    (options : LintOptions) (s : SuppressionDirective) (ds : List LintDiagnostic)
    → All (λ d. matches_finding d s ≡ false) ds
    → All
        (λ d. matches_finding d s ≡ false)
        (set_severities options (retain (λ (d : LintDiagnostic). is_enabled options d.rule_id) ds))
unfolding set_severities retain
chosen-unmatched options s [] a = tt
chosen-unmatched options s (d ∷ ds) a = elim (Bool-cases (is_enabled options d.rule_id)) [
  | inl e ↦ rw e (a.0, chosen-unmatched options s ds a.1)
  | inr e ↦ rw e (chosen-unmatched options s ds a.1)
]

-- A directive that is in error, or that matches no finding, is reported at its place with its
-- message, whatever rules are disabled and whether suppressed findings are shown.
pub finalize_diagnostics-directive_message :
    (diagnostics : List LintDiagnostic) (source : Text) (options : LintOptions)
    (s : SuppressionDirective) (message : Text)
    → Memᴰ s (parse_suppression_directives source).0
    → directive_message s ≡ some message
    → All (λ d. matches_finding d s ≡ false) diagnostics
    → Memᴰ
        (diagnostic_at rule_suppression source s.span message)
        (finalize_diagnostics diagnostics source options)
unfolding finalize_diagnostics
finalize_diagnostics-directive_message diagnostics source options s message m e a =
    let chosen =
      set_severities options
        (retain (λ (d : LintDiagnostic). is_enabled options d.rule_id) diagnostics) in
    let done = apply_directives chosen (parse_suppression_directives source).0 in
    Mem-sort_by reported_before _ (
      Mem-append_right
        (retain (λ (d : LintDiagnostic). not d.suppressed || options.show_suppressed) done.0) _
        (suppression_diagnostics-Mem source s message done.1 e (
          apply_directives-Mem s chosen (parse_suppression_directives source).0
            (chosen-unmatched options s diagnostics a) m)))

problem_unmatched :
    (s : SuppressionDirective) (message : Text) (ds : List LintDiagnostic)
    → s.problem ≡ some message
    → All (λ d. matches_finding d s ≡ false) ds
problem_unmatched s message [] e = tt
problem_unmatched s message (d ∷ ds) e = (rw e refl, problem_unmatched s message ds e)

problem_message :
    (s : SuppressionDirective) (message : Text)
    → s.problem ≡ some message
    → directive_message s ≡ some message
unfolding directive_message
problem_message s message e = rw (e, directive_message) refl

-- A source with a directive in error makes a run fail, whatever the options are.
pub has_blocking_findings-finalize_diagnostics :
    (diagnostics : List LintDiagnostic) (source : Text) (options : LintOptions)
    (s : SuppressionDirective) (message : Text)
    → Memᴰ s (parse_suppression_directives source).0
    → s.problem ≡ some message
    → has_blocking_findings options (finalize_diagnostics diagnostics source options) ≡ true
unfolding diagnostic_at
has_blocking_findings-finalize_diagnostics diagnostics source options s message m e =
    Mem-any
      (λ (d : LintDiagnostic).
        text_eq d.rule_id (text "BBT038")
        || (not d.suppressed && is_blocking options.fail_on d.severity))
      (finalize_diagnostics diagnostics source options)
      (finalize_diagnostics-directive_message diagnostics source options s message m
        (problem_message s message e) (problem_unmatched s message diagnostics e))
      (rw (text_eq_refl (text "BBT038")) refl)
