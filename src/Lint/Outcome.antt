-- ===== src/Lint/Outcome.antt =====
-- The result of `finalize_diagnostics` of src/lint.rs: its order, and what is in it.
use bbtidy.Base.{
  ◌≡◌, ◌⊎◌, refl, Bool, true, false, not, ◌||◌, List, [], ◌∷◌, any, Bool-cases, none, some, ◌<◌,
  ltb, map, inl, inr, arith,
}
use bbtidy.Base.Sorting.{sort_by-Ascending, Ascending}
use bbtidy.Base.Membership.{Mem-append_left, Mem-sort_by}
use mathlib.Core.List.{Memᴰ}
use bbtidy.Text.{Text}
use bbtidy.Text.Maps.{text_lt}
use bbtidy.Text.MapLaws.{text_lt_asym}
use bbtidy.Lint.Options.{LintDiagnostic, LintOptions, is_enabled, diagnostic_at}
use bbtidy.Lint.Suppression.{SuppressionDirective, parse_suppression_directives}
use bbtidy.Lint.Finalize.{
  retain, set_severities, matches_finding, apply_directives, suppression_diagnostics,
  unused_message, rule_suppression, reported_before, finalize_diagnostics,
}
use bbtidy.Lint.Findings.{
  unused, Judged, retain-Mem, apply_directives-Mem, rated, set_severities-Mem,
}

-- The directives of a source as the findings of enabled rules leave them: those that hide a finding
-- are marked as used.
abbrev pub marked : List LintDiagnostic → Text → LintOptions → List SuppressionDirective
marked diagnostics source options =
    (apply_directives
      (set_severities options
        (retain (λ (d : LintDiagnostic). is_enabled options d.rule_id) diagnostics))
      (parse_suppression_directives source).0).1

-- What a report on a directive says: its problem, or that it is not used.
abbrev pub Says : SuppressionDirective → Text → Type 0
Says s message =
    (s.problem ≡ some message)
    ⊎ ((s.problem ≡ none) × (s.used ≡ false) × (message ≡ unused_message s.rule_id))

-- A report on one of the directives, at its place; `after` is how they are left.
abbrev pub ReportsOn :
    List SuppressionDirective → List SuppressionDirective → Text → LintDiagnostic → Type 0
ReportsOn directives after source d =
    (s : SuppressionDirective) × (message : Text) × Memᴰ s after
    × Memᴰ (unused s) (map unused directives)
    × Says s message
    × (d ≡ diagnostic_at rule_suppression source s.span message)

-- A report on a directive, or a finding of an enabled rule that is judged rightly and shown only
-- where the options say so.
abbrev pub IsReported :
    LintOptions
    → List SuppressionDirective
    → List SuppressionDirective
    → Text
    → LintDiagnostic
    → Type 0
IsReported options directives after source d =
    (ReportsOn directives after source d × (d.suppressed ≡ false))
    ⊎ ((is_enabled options d.rule_id ≡ true)
        × Judged directives d
        × ((not d.suppressed || options.show_suppressed) ≡ true))

reported_before_total :
    (a b : LintDiagnostic) → reported_before a b ≡ false → reported_before b a ≡ true
reported_before_total a b e =
    ground (arith, e, text_lt_asym a.rule_id b.rule_id, text_lt_asym b.rule_id a.rule_id)

-- On an earlier line; or on the same line at an earlier column; or at the same place, and the rule
-- is not behind that of the other.
abbrev pub Precedes : LintDiagnostic → LintDiagnostic → Type 0
Precedes a b =
    (a.line < b.line)
    ⊎ ((a.line ≡ b.line)
        × ((a.column < b.column) ⊎ ((a.column ≡ b.column) × (text_lt b.rule_id a.rule_id ≡ false))))

abbrev pub InOrder : List LintDiagnostic → Type 0
InOrder [] = Unit
InOrder (a ∷ []) = Unit
InOrder (a ∷ b ∷ ds) = Precedes a b × InOrder (b ∷ ds)

reported_before-Precedes : (a b : LintDiagnostic) → reported_before a b ≡ true → Precedes a b
reported_before-Precedes a b e = elim (Bool-cases (ltb a.line b.line)) [
  | inl f ↦ inl (ground (arith, f))
  | inr f ↦ elim (Bool-cases (ltb a.column b.column)) [
    | inl g ↦ inr (ground (arith, e, f), inl (ground (arith, g)))
    | inr g ↦ inr (ground (arith, e, f), inr (ground (arith, e, f, g), ground (arith, e, f, g)))
  ]
]

Ascending-InOrder : (ds : List LintDiagnostic) → Ascending reported_before ds → InOrder ds
Ascending-InOrder [] a = tt
Ascending-InOrder (d ∷ []) a = tt
Ascending-InOrder (d ∷ e ∷ ds) (p, a) =
    (reported_before-Precedes d e p, Ascending-InOrder (e ∷ ds) a)

-- Each diagnostic of the result stands on an earlier line than the next one, or on the same line
-- at an earlier column, or at the same place with a rule that is not behind the other's.
pub finalize_diagnostics-InOrder :
    (diagnostics : List LintDiagnostic) (source : Text) (options : LintOptions)
    → InOrder (finalize_diagnostics diagnostics source options)
unfolding finalize_diagnostics
finalize_diagnostics-InOrder diagnostics source options =
    Ascending-InOrder _ (sort_by-Ascending reported_before reported_before_total _)

-- A finding of an enabled rule that is not suppressed yet and that no directive matches is in the
-- result, with the severity that the options give its rule.
pub finalize_diagnostics-rated :
    (diagnostics : List LintDiagnostic) (source : Text) (options : LintOptions) (d : LintDiagnostic)
    → Memᴰ d diagnostics
    → is_enabled options d.rule_id ≡ true
    → d.suppressed ≡ false
    → any (matches_finding d) (parse_suppression_directives source).0 ≡ false
    → Memᴰ (rated options d) (finalize_diagnostics diagnostics source options)
unfolding finalize_diagnostics
finalize_diagnostics-rated diagnostics source options d m e f unmatched =
    let directives = (parse_suppression_directives source).0 in
    let enabled : LintDiagnostic → Bool = λ x. is_enabled options x.rule_id in
    let shown : LintDiagnostic → Bool = λ x. not x.suppressed || options.show_suppressed in
    let chosen = set_severities options (retain enabled diagnostics) in
    let applied = apply_directives chosen directives in
    let is_shown : shown (rated options d) ≡ true = rw f refl in
    Mem-sort_by reported_before _ (
      Mem-append_left (retain shown applied.0) (suppression_diagnostics source applied.1) (
        retain-Mem shown applied.0 is_shown (
          apply_directives-Mem (rated options d) chosen directives unmatched (
            set_severities-Mem options d (retain enabled diagnostics)
              (retain-Mem enabled diagnostics e m)))))
