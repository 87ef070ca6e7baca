-- ===== src/Lint/Fixes.antt =====
-- src/lint.rs: `LintFix` and `apply_lint_fixes`, over the fixes of the diagnostics.
use bbtidy.Base.{
  ℕ, zero, suc, Option, none, some, Bool, true, false, not, ◌&&◌, ◌||◌, List, [], ◌∷◌, ◌++◌,
  reverse, length, take, drop, leb, ltb, ◌==◌, if◌then◌else◌,
}
use bbtidy.Base.Sorting.{sort_by}
use bbtidy.Text.{Text}
use bbtidy.Syntax.Tree.{TextRange}

pub record LintFix : Type 0 where
  pub range : TextRange
  pub replacement : Text
  pub message : Text

pub data LintFixError : Type 0 where
  invalid_range : ℕ → ℕ → LintFixError
  overlapping_ranges : TextRange → TextRange → LintFixError

pub data FixResult : Type 0 where
  fix_error : LintFixError → FixResult
  fixed : Text → FixResult

-- `text.is_char_boundary(index)`: no continuation byte stands at the index.
unfoldable pub is_char_boundary : Text → ℕ → Bool
is_char_boundary [] zero = true
is_char_boundary [] (suc index) = false
is_char_boundary (c ∷ cs) zero = true
is_char_boundary (c ∷ []) (suc zero) = true
is_char_boundary (c ∷ d ∷ cs) (suc zero) = ltb d 0x80 || leb 0xC0 d
is_char_boundary (c ∷ cs) (suc (suc index)) = is_char_boundary cs (suc index)

-- The order of the sort key `(start, end)`.
abbrev pub fix_before : LintFix → LintFix → Bool
fix_before f g =
    ltb f.range.start g.range.start
    || ((f.range.start == g.range.start) && leb f.range.end g.range.end)

unfoldable pub is_invalid : Text → LintFix → Bool
is_invalid text fix =
    ltb fix.range.end fix.range.start
    || ltb (length text) fix.range.end
    || not (is_char_boundary text fix.range.start)
    || not (is_char_boundary text fix.range.end)

unfoldable pub first_invalid : Text → List LintFix → Option LintFixError
first_invalid text [] = none
first_invalid text (fix ∷ fixes) =
    let later = first_invalid text fixes in
    if is_invalid text fix then some (invalid_range fix.range.start fix.range.end) else later

-- The loop over `windows(2)`.
unfoldable pub first_overlap : List LintFix → Option LintFixError
first_overlap [] = none
first_overlap (first ∷ []) = none
first_overlap (first ∷ second ∷ fixes) =
    let later = first_overlap (second ∷ fixes) in
    if ltb second.range.start first.range.end
    then some (overlapping_ranges first.range second.range)
    else later

-- `text.replace_range(start..end, replacement)`
abbrev pub replace_range : Text → TextRange → Text → Text
replace_range text range replacement = take range.start text ++ (replacement ++ drop range.end text)

unfoldable pub replace_each : List LintFix → Text → Text
replace_each [] text = text
replace_each (fix ∷ fixes) text = replace_each fixes (replace_range text fix.range fix.replacement)

unfoldable pub apply_lint_fixes : Text → List LintFix → FixResult
apply_lint_fixes text proposed =
    let fixes = sort_by fix_before proposed in
    elim (first_invalid text fixes) [
      | some e ↦ fix_error e
      | none ↦ elim (first_overlap fixes) [
        | some e ↦ fix_error e
        | none ↦ fixed (replace_each (reverse fixes) text)
      ]
    ]
