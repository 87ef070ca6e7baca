-- ===== src/Lint/Autorev.antt =====
-- Where `check_autorev` of src/lint.rs reports.
use bbtidy.Base.{
  ℕ, ◌+◌, ◌-◌, ◌<◌, ◌≡◌, sym, ap, ◌∙◌, Option, none, some, ◌++◌, length, length-append, length-drop,
  take, drop, drop-drop, drop-append_le, take-append, take-append-drop, append_assoc, All,
  Option-cases, inl, inr, arith,
}
use bbtidy.Text.{Text, slice, find}
use bbtidy.Text.Search.{find-drop}
use bbtidy.Scanner.Quotes.{comment_start}
use bbtidy.Syntax.Tree.{AssignmentSyntax}
use bbtidy.Lint.Options.{LintDiagnostic, diagnostic_at}
use bbtidy.Lint.Assignments.{autorev, before_comment, code_value, check_autorev}

-- What stands in a part of a list at `k` stands there in the list.
drop-take_some :
    (n k : ℕ) (xs p r : Text)
    → 0 < length p
    → drop k (take n xs) ≡ p ++ r
    → (r' : Text) × (drop k xs ≡ p ++ r')
drop-take_some n k xs p r l e = (
  r ++ drop n xs,
  ap (drop k) (sym (take-append-drop n xs))
      ∙ drop-append_le k (take n xs) (drop n xs)
          (omega (arith, ap length e, length-append p r, length-drop k (take n xs)))
      ∙ ap (λ (t : Text). t ++ drop n xs) e
      ∙ append_assoc p r (drop n xs),
)

before_comment-drop :
    (value : Text) (o : Option ℕ) (k : ℕ) (p r : Text)
    → 0 < length p
    → drop k (before_comment value o) ≡ p ++ r
    → (r' : Text) × (drop k value ≡ p ++ r')
before_comment-drop value none k p r l e = (r, e)
before_comment-drop value (some end) k p r l e = drop-take_some end k value p r l e

-- If the value of an assignment is what stands at its range in the source, the report on it is at
-- a place where the reference to the revision stands in the source.
pub check_autorev-slice :
    (source : Text) (a : AssignmentSyntax)
    → a.value ≡ slice a.value_range.start a.value_range.end source
    → All
        (λ (d : LintDiagnostic). slice d.range.start d.range.end source ≡ autorev)
        (check_autorev source a)
unfolding check_autorev diagnostic_at
check_autorev-slice source a e = elim (Option-cases (find (code_value a.value) autorev)) [
  | inl f ↦ rw (f, check_autorev) tt
  | inr (k, f) ↦
      let start = a.value_range.start in
      let found = find-drop b'$' (drop 1 autorev) (code_value a.value) k f in
      let (r, here) =
        before_comment-drop a.value (comment_start a.value) k autorev _ (omega arith) found in
      let (r', there) =
        drop-take_some (a.value_range.end - start) k (drop start source) autorev r (omega arith)
          (ap (drop k) (sym e) ∙ here) in
      rw (f, check_autorev)
        (
          ap (λ (n : ℕ). take n (drop (start + k) source))
                {x = start + k + length autorev - (start + k)} {y = length autorev} (omega arith)
              ∙ ap (take (length autorev)) (sym (drop-drop k start source) ∙ there)
              ∙ take-append autorev r',
          tt,
        )
]
