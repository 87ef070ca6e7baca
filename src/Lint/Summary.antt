-- ===== src/Lint/Summary.antt =====
-- All directives of a source and their counts, in src/lint.rs `parse_suppression_directives`.
use bbtidy.Base.{
  ℕ, ◌+◌, ◌≤◌, ◌≡◌, refl, ap, subst, ◌∙◌, Option, none, some, List, [], ◌∷◌, concat, length,
  length-append, All, All-map, Bool-cases, inl, inr, ◌==◌, arith,
}
use bbtidy.Text.{Text}
use bbtidy.Lint.Suppression.{
  SuppressionDirective, LintSuppressionSummary, split_inclusive, Reading, line_directive,
  parse_lines, parse_suppression_directives,
}
use bbtidy.Lint.Directives.{IsRead, LineRead, line_directive-LineRead}

-- The directives with the summary: one is counted for each, and each is malformed or of an unknown
-- rule at most once.
abbrev pub IsParsed : ℕ → ℕ → List SuppressionDirective × LintSuppressionSummary → Type 0
IsParsed first last (directives, summary) =
    All (IsRead first last) directives
    × (summary.directives ≡ length directives)
    × (summary.malformed + summary.unknown_rules ≤ summary.directives)

pub concat-split_inclusive : (s : Text) → concat (split_inclusive s) ≡ s
unfolding split_inclusive
concat-split_inclusive [] = refl
concat-split_inclusive (c ∷ s) = elim (Bool-cases (c == b'\n')) [
  | inl e ↦ rw (e, split_inclusive) (ap (λ (t : Text). c ∷ t) (concat-split_inclusive s))
  | inr e ↦
      rw e (joined c (split_inclusive s) ∙ ap (λ (t : Text). c ∷ t) (concat-split_inclusive s))
]
  where
    joined :
        (c : ℕ) (rest : List Text)
        → concat (elim rest [ [] ↦ (c ∷ []) ∷ [] | line ∷ lines ↦ (c ∷ line) ∷ lines ])
          ≡ c ∷ concat rest
    joined c [] = refl
    joined c (line ∷ lines) = refl

wider : (a b c d : ℕ) → c ≤ a → b ≤ d → (s : SuppressionDirective) → IsRead a b s → IsRead c d s
wider a b c d p q s (unused, read, l, m, n) = (unused, read, omega arith, m, omega arith)

module _ (line_number offset : ℕ) (raw_line : Text) (lines : List Text) where
  next : List SuppressionDirective × LintSuppressionSummary
  next = parse_lines (line_number + 1) (offset + length raw_line) lines

  with_reading :
      (o : Option Reading)
      → line_directive line_number offset raw_line ≡ o
      → LineRead offset (length raw_line) o
      → IsParsed (offset + length raw_line) (offset + length raw_line + length (concat lines)) next
      → IsParsed offset
          (offset + length (concat (raw_line ∷ lines)))
          (parse_lines line_number offset (raw_line ∷ lines))
  unfolding parse_lines next
  with_reading none e l (read, count, bound) =
      rw (e, parse_lines)
        (
          All-map next.0
              (wider (offset + length raw_line) (offset + length raw_line + length (concat lines))
                offset (offset + length (concat (raw_line ∷ lines))) (omega arith)
                (omega (arith, length-append raw_line (concat lines))))
              read,
          count,
          bound,
        )
  with_reading (some r) e (here, counts) (read, count, bound) =
      rw (e, parse_lines)
        (
          (
            wider offset (offset + length raw_line) offset
                (offset + length (concat (raw_line ∷ lines))) (omega arith)
                (omega (arith, length-append raw_line (concat lines))) r.directive here,
            All-map next.0
                (wider (offset + length raw_line) (offset + length raw_line + length (concat lines))
                  offset (offset + length (concat (raw_line ∷ lines))) (omega arith)
                  (omega (arith, length-append raw_line (concat lines))))
                read,
          ),
          omega (arith, count),
          omega (arith, counts, bound),
        )

parse_lines-IsParsed :
    (line_number offset : ℕ) (lines : List Text)
    → IsParsed offset (offset + length (concat lines)) (parse_lines line_number offset lines)
unfolding parse_lines next
parse_lines-IsParsed line_number offset [] = (tt, refl, omega arith)
parse_lines-IsParsed line_number offset (raw_line ∷ lines) =
    with_reading line_number offset raw_line lines (line_directive line_number offset raw_line) refl
      (line_directive-LineRead line_number offset raw_line)
      (parse_lines-IsParsed (line_number + 1) (offset + length raw_line) lines)

-- A directive is within the source and not used yet, and it is in error or names a known rule that
-- it may suppress, with a reason, and stands on the first line if it is for the file. The summary
-- counts each directive once.
pub parse_suppression_directives-IsParsed :
    (source : Text) → IsParsed 0 (length source) (parse_suppression_directives source)
unfolding parse_suppression_directives
parse_suppression_directives-IsParsed source =
    subst (λ (size : ℕ). IsParsed 0 size (parse_lines 1 0 (split_inclusive source)))
      (omega (arith, ap length (concat-split_inclusive source)))
      (parse_lines-IsParsed 1 0 (split_inclusive source))
