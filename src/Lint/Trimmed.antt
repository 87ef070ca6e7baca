-- ===== src/Lint/Trimmed.antt =====
-- What the fixes of `check_trailing_whitespace` of src/lint.rs make of a text.
use bbtidy.Base.{
  ℕ, ◌+◌, ◌-◌, ◌≤◌, ◌≡◌, refl, sym, ap, subst, ◌∙◌, List, [], ◌∷◌, ◌++◌, concat, map, length,
  length-append, length-drop, take, drop, drop-drop, drop-append_le, drop-all, take-append,
  append_assoc, Bool-cases, inl, inr, ◌==◌, arith,
}
use bbtidy.Text.{Text, text as literal, slice}
use bbtidy.Scanner.Lines.{split_line_ending}
use bbtidy.Syntax.Ranges.{split_line_ending_lem}
use bbtidy.Syntax.Tree.{range}
use bbtidy.Lint.Fixes.{LintFix, fixed, apply_lint_fixes}
use bbtidy.Lint.Splice.{spliced, Disjoint, apply_lint_fixes-Disjoint}
use bbtidy.Lint.Boundaries.{
  StartsAscii, is_char_boundary-StartsAscii, earlier-Disjoint, spliced-earlier, sort_by-Disjoint,
}
use bbtidy.Lint.Suppression.{split_inclusive}
use bbtidy.Lint.Summary.{concat-split_inclusive}
use bbtidy.Lint.Options.{diagnostic_at}
use bbtidy.Lint.LineParts.{
  IsBlank, trim_end_matches-IsBlank, LinesEnd, split_inclusive-LinesEnd,
  split_line_ending-StartsAscii,
}
use bbtidy.Lint.Lines.{
  line_content, trimmed_content, trailing_from, check_trailing_whitespace, fixes_of,
}

-- A line without the spaces and tabs before its ending.
abbrev pub trimmed_line : Text → Text
trimmed_line line = trimmed_content line ++ (split_line_ending line).1

StartsAscii-blank : (w rest : Text) → IsBlank w → StartsAscii rest → StartsAscii (w ++ rest)
StartsAscii-blank [] rest blank a = a
StartsAscii-blank (c ∷ w) rest (e, blank) a = ground (arith, e)

-- A text from `start` on that begins with `x`.
drop-behind :
    (text x z : Text) (start : ℕ) → drop start text ≡ x ++ z → drop (start + length x) text ≡ z
drop-behind text x z start e =
    sym (drop-drop (length x) start text)
    ∙ ap (drop (length x)) e
    ∙ drop-append_le (length x) x z (omega arith)
    ∙ ap (λ (t : Text). t ++ z) (drop-all (length x) x (omega arith))

slice-front :
    (text x z : Text) (start : ℕ)
    → drop start text ≡ x ++ z
    → slice start (start + length x) text ≡ x
slice-front text x z start e =
    ap (λ (k : ℕ). take k (drop start text)) {x = start + length x - start} (omega arith)
    ∙ ap (take (length x)) e
    ∙ take-append x z

empty : (w : Text) → length w ≤ 0 → w ≡ []
empty [] l = refl
empty (c ∷ w) l = absurd (omega arith)

module _ (text : Text) where
  Trims : ℕ → List Text → Type 0
  Trims start lines =
      Disjoint text start (fixes_of (trailing_from text start lines))
      × (spliced text start (fixes_of (trailing_from text start lines))
          ≡ concat (map trimmed_line lines))

  module _ (start : ℕ) (line : Text) (lines : List Text) (w : Text) (blank : IsBlank w)
      (content : line_content line ≡ trimmed_content line ++ w)
      (rest : drop start text ≡ line ++ concat lines) (inside : start ≤ length text)
      (ascii : StartsAscii ((split_line_ending line).1 ++ concat lines))
      (later : Trims (start + length line) lines) where
    ending : Text
    ending = (split_line_ending line).1

    behind : Text
    unfolding ending
    behind = ending ++ concat lines

    parts : line ≡ trimmed_content line ++ (w ++ ending)
    unfolding ending
    parts =
        sym (split_line_ending_lem line)
        ∙ ap (λ (t : Text). t ++ ending) content
        ∙ append_assoc (trimmed_content line) w ending

    rest_parts : drop start text ≡ trimmed_content line ++ (w ++ behind)
    unfolding behind ending
    rest_parts =
        rest
        ∙ ap (λ (t : Text). t ++ concat lines) parts
        ∙ append_assoc (trimmed_content line) (w ++ ending) (concat lines)
        ∙ ap (λ (t : Text). trimmed_content line ++ t) (append_assoc w ending (concat lines))

    content-length :
        start + length (line_content line) ≡ start + length (trimmed_content line) + length w
    content-length = omega (arith, ap length content, length-append (trimmed_content line) w)

    line-length : start + length line ≡ start + length (line_content line) + length ending
    unfolding ending
    line-length =
        omega
          (arith, ap length (split_line_ending_lem line), length-append (line_content line) ending)

    next_inside : start + length line ≤ length text
    next_inside =
        omega
          (arith, inside, ap length rest, length-append line (concat lines), length-drop start text)

    at_blank : drop (start + length (trimmed_content line)) text ≡ w ++ behind
    at_blank = drop-behind text (trimmed_content line) (w ++ behind) start rest_parts

    at_ending : drop (start + length (line_content line)) text ≡ behind
    at_ending =
        ap (λ (k : ℕ). drop k text) content-length
        ∙ drop-behind text w behind (start + length (trimmed_content line)) at_blank

    fixes : List LintFix
    fixes = fixes_of (trailing_from text (start + length line) lines)

    trailing : LintFix
    trailing = record {
      range = range (start + length (trimmed_content line)) (start + length (line_content line));
      replacement = [];
      message = literal "remove trailing whitespace";
    }

    trimmed-Disjoint : Disjoint text start (trailing ∷ fixes)
    unfolding Trims trailing fixes behind ending
    trimmed-Disjoint = (
      omega arith,
      omega (arith, content-length),
      omega (arith, line-length, next_inside),
      is_char_boundary-StartsAscii text _ (w ++ behind) at_blank
          (omega (arith, content-length, line-length, next_inside))
          (StartsAscii-blank w behind blank ascii),
      is_char_boundary-StartsAscii text _ behind at_ending (omega (arith, line-length, next_inside))
          ascii,
      earlier-Disjoint text (start + length (line_content line)) (start + length line) fixes
          (omega (arith, line-length)) later.0,
    )

    trimmed-spliced :
        spliced text start (trailing ∷ fixes) ≡ trimmed_line line ++ concat (map trimmed_line lines)
    unfolding Trims trailing fixes behind ending
    trimmed-spliced =
        ap (λ (t : Text). t ++ spliced text (start + length (line_content line)) fixes)
          (slice-front text (trimmed_content line) (w ++ behind) start rest_parts)
        ∙ ap (λ (t : Text). trimmed_content line ++ t)
            (spliced-earlier text (start + length (line_content line)) (start + length line) fixes
                (omega (arith, line-length)) later.0
              ∙ ap (λ (t : Text). t ++ spliced text (start + length line) fixes)
                  (ap (λ (k : ℕ). slice (start + length (line_content line)) k text) line-length
                    ∙ slice-front text ending (concat lines) (start + length (line_content line))
                        at_ending)
              ∙ ap (λ (t : Text). ending ++ t) later.1)
        ∙ sym (append_assoc (trimmed_content line) ending (concat (map trimmed_line lines)))

    kept-Disjoint : Disjoint text start fixes
    unfolding Trims fixes
    kept-Disjoint = earlier-Disjoint text start (start + length line) fixes (omega arith) later.0

    kept-spliced :
        w ≡ [] → spliced text start fixes ≡ trimmed_line line ++ concat (map trimmed_line lines)
    unfolding Trims fixes ending
    kept-spliced none_blank =
        spliced-earlier text start (start + length line) fixes (omega arith) later.0
        ∙ ap (λ (t : Text). t ++ spliced text (start + length line) fixes)
            (slice-front text line (concat lines) start rest
              ∙ parts
              ∙ ap (λ (t : Text). trimmed_content line ++ (t ++ ending)) none_blank)
        ∙ ap (λ (t : Text). trimmed_line line ++ t) later.1

    trimmed-line : Trims start (line ∷ lines)
    unfolding Trims trailing_from fixes_of diagnostic_at trailing fixes
    trimmed-line = elim (Bool-cases (length (trimmed_content line) == length (line_content line))) [
      | inl e ↦
          let same : length (trimmed_content line) ≡ length (line_content line) =
            ground (arith, e) in
          rw e (kept-Disjoint, kept-spliced (empty w (omega (arith, content-length, same))))
      | inr e ↦ rw e (trimmed-Disjoint, trimmed-spliced)
    ]

  trailing_from-Trims :
      (start : ℕ) (lines : List Text)
      → drop start text ≡ concat lines
      → start ≤ length text
      → LinesEnd lines
      → Trims start lines
  unfolding Trims trailing_from fixes_of
  trailing_from-Trims start [] rest inside ends = (tt, rest)
  trailing_from-Trims start (line ∷ lines) rest inside (ends, later) =
      let (w, blank, content) = trim_end_matches-IsBlank (line_content line) in
      let within : start + length line ≤ length text = omega (
        arith,
        inside,
        ap length rest,
        length-append line (concat lines),
        length-drop start text,
      ) in
      trimmed-line start line lines w blank content rest inside
        (split_line_ending-StartsAscii line (concat lines) ends)
        (trailing_from-Trims (start + length line) lines
          (drop-behind text line (concat lines) start rest) within later)

-- The fixes of the findings on trailing white space fit together, and they make of a text its
-- lines without the spaces and tabs before their endings.
pub check_trailing_whitespace-fixed :
    (text : Text)
    → apply_lint_fixes text (fixes_of (check_trailing_whitespace text))
      ≡ fixed (concat (map trimmed_line (split_inclusive text)))
unfolding check_trailing_whitespace Trims
check_trailing_whitespace-fixed text =
    let lines = split_inclusive text in
    let fixes = fixes_of (trailing_from text 0 lines) in
    let (disjoint, same) =
      trailing_from-Trims text 0 lines (sym (concat-split_inclusive text)) (omega arith)
        (split_inclusive-LinesEnd text) in
    let sorted = sort_by-Disjoint text 0 fixes disjoint in
    apply_lint_fixes-Disjoint text fixes (subst (Disjoint text 0) (sym sorted) disjoint)
    ∙ ap (λ (fs : List LintFix). fixed (spliced text 0 fs)) sorted
    ∙ ap fixed same
