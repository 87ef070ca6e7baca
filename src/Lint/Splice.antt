-- ===== src/Lint/Splice.antt =====
-- What `apply_lint_fixes` of src/lint.rs makes of a text.
use mathlib.Core.List.{reverse-append}
use bbtidy.Base.{
  ℕ, zero, suc, ◌≤◌, ◌≡◌, refl, sym, ap, ◌∙◌, none, true, List, [], ◌∷◌, ◌++◌, reverse, length,
  take, drop, append_assoc, take-append-drop, take-append-slice, Option-cases, inl, inr, arith,
}
use bbtidy.Base.Sorting.{sort_by}
use bbtidy.Text.{Text, slice}
use bbtidy.Lint.Fixes.{
  LintFix, fixed, is_char_boundary, fix_before, is_invalid, first_invalid, first_overlap,
  replace_range, replace_each, apply_lint_fixes,
}

-- The text from `a` on, with each fixed range replaced; the fixes stand in order.
abbrev pub spliced : Text → ℕ → List LintFix → Text
spliced text a [] = drop a text
spliced text a (fix ∷ fixes) =
    slice a fix.range.start text ++ (fix.replacement ++ spliced text fix.range.end fixes)

-- The fixes stand one behind the other from `a` on, on character boundaries of the text.
abbrev pub Disjoint : Text → ℕ → List LintFix → Type 0
Disjoint text a [] = Unit
Disjoint text a (fix ∷ fixes) =
    (a ≤ fix.range.start)
    × (fix.range.start ≤ fix.range.end)
    × (fix.range.end ≤ length text)
    × (is_char_boundary text fix.range.start ≡ true)
    × (is_char_boundary text fix.range.end ≡ true)
    × Disjoint text fix.range.end fixes

replace_each-append :
    (fixes : List LintFix) (fix : LintFix) (text : Text)
    → replace_each (fixes ++ fix ∷ []) text
      ≡ replace_range (replace_each fixes text) fix.range fix.replacement
unfolding replace_each
replace_each-append [] fix text = refl
replace_each-append (f ∷ fixes) fix text =
    replace_each-append fixes fix (replace_range text f.range f.replacement)

take-take_append : (a b : ℕ) (s t : Text) → a ≤ b → b ≤ length s → take a (take b s ++ t) ≡ take a s
take-take_append zero b s t h l = refl
take-take_append (suc a) zero s t h l = elim h [ ]
take-take_append (suc a) (suc b) [] t h l = elim l [ ]
take-take_append (suc a) (suc b) (x ∷ s) t h l =
    ap (◌∷◌ x) (take-take_append a b s t (omega arith) (omega arith))

drop-take_append : (b : ℕ) (s t : Text) → b ≤ length s → drop b (take b s ++ t) ≡ t
drop-take_append zero s t l = refl
drop-take_append (suc b) [] t l = elim l [ ]
drop-take_append (suc b) (x ∷ s) t l = drop-take_append b s t (omega arith)

replace_each-spliced :
    (text : Text) (a : ℕ) (fixes : List LintFix)
    → a ≤ length text
    → Disjoint text a fixes
    → replace_each (reverse fixes) text ≡ take a text ++ spliced text a fixes
unfolding replace_each
replace_each-spliced text a [] l d = sym (take-append-drop a text)
replace_each-spliced text a (fix ∷ fixes) l (p, q, r, _, _, later) =
    let rest = spliced text fix.range.end fixes in
    ap (λ (fs : List LintFix). replace_each fs text) (reverse-append (fix ∷ []) fixes)
    ∙ replace_each-append (reverse fixes) fix text
    ∙ ap (λ (t : Text). replace_range t fix.range fix.replacement)
        (replace_each-spliced text fix.range.end fixes r later)
    ∙ ap
        (λ (t : Text).
          t ++ (fix.replacement ++ drop fix.range.end (take fix.range.end text ++ rest)))
        (take-take_append fix.range.start fix.range.end text rest q r)
    ∙ ap (λ (t : Text). take fix.range.start text ++ (fix.replacement ++ t))
        (drop-take_append fix.range.end text rest r)
    ∙ ap (λ (t : Text). t ++ (fix.replacement ++ rest))
        (sym (take-append-slice a fix.range.start text p))
    ∙ append_assoc (take a text) (slice a fix.range.start text) (fix.replacement ++ rest)

-- The first fix starts at or behind `a`.
abbrev StartsFrom : ℕ → List LintFix → Type 0
StartsFrom a [] = Unit
StartsFrom a (fix ∷ fixes) = a ≤ fix.range.start

Disjoint-checked :
    (text : Text) (a : ℕ) (fixes : List LintFix)
    → StartsFrom a fixes
    → first_invalid text fixes ≡ none
    → first_overlap fixes ≡ none
    → Disjoint text a fixes
unfolding first_invalid first_overlap is_invalid
Disjoint-checked text a [] h v o = tt
Disjoint-checked text a (f ∷ []) h v o = ground arith
Disjoint-checked text a (f ∷ g ∷ fixes) h v o =
    ground (arith, Disjoint-checked text f.range.end (g ∷ fixes))

checked-Disjoint :
    (text : Text) (a : ℕ) (fixes : List LintFix)
    → Disjoint text a fixes
    → (first_invalid text fixes ≡ none) × (first_overlap fixes ≡ none)
unfolding first_invalid first_overlap is_invalid
checked-Disjoint text a [] d = (refl, refl)
checked-Disjoint text a (f ∷ []) d = ground arith
checked-Disjoint text a (f ∷ g ∷ fixes) d =
    ground (arith, checked-Disjoint text f.range.end (g ∷ fixes))

StartsFrom-zero : (fixes : List LintFix) → StartsFrom 0 fixes
StartsFrom-zero [] = tt
StartsFrom-zero (f ∷ fixes) = omega arith

-- If the fixes, in the order of their ranges, are disjoint and on character boundaries of the text,
-- they are all applied: the result is the text with each range replaced.
pub apply_lint_fixes-Disjoint :
    (text : Text) (proposed : List LintFix)
    → Disjoint text 0 (sort_by fix_before proposed)
    → apply_lint_fixes text proposed ≡ fixed (spliced text 0 (sort_by fix_before proposed))
unfolding apply_lint_fixes
apply_lint_fixes-Disjoint text proposed d =
    let (v, o) = checked-Disjoint text 0 (sort_by fix_before proposed) d in
    ground (arith, v, o, replace_each-spliced text 0 (sort_by fix_before proposed) (omega arith) d)

-- A text is returned only if the fixes are disjoint and on character boundaries of the text, and
-- then it is the text with each range replaced.
pub apply_lint_fixes-fixed :
    (text : Text) (proposed : List LintFix) (result : Text)
    → apply_lint_fixes text proposed ≡ fixed result
    → Disjoint text 0 (sort_by fix_before proposed)
      × (result ≡ spliced text 0 (sort_by fix_before proposed))
unfolding apply_lint_fixes
apply_lint_fixes-fixed text proposed result e =
    elim (Option-cases (first_invalid text (sort_by fix_before proposed))) [
      | inr (x, f) ↦ ground (arith, f)
      | inl f ↦ elim (Option-cases (first_overlap (sort_by fix_before proposed))) [
        | inr (x, g) ↦ ground (arith, f, g)
        | inl g ↦
            let d = Disjoint-checked text 0 (sort_by fix_before proposed) (StartsFrom-zero _) f g in
            let same : fixed (spliced text 0 (sort_by fix_before proposed)) ≡ fixed result =
              sym (apply_lint_fixes-Disjoint text proposed d) ∙ unfold apply_lint_fixes in e in
            (d, cc)
      ]
    ]
