-- ===== src/Lint/LineParts.antt =====
-- The parts of a line, and where the lines of `split_inclusive` end.
use mathlib.Core.List.{reverse-append, reverse-reverse}
use bbtidy.Base.{
  ℕ, ◌≡◌, ◌⊎◌, refl, sym, ap, ◌∙◌, none, some, true, List, [], ◌∷◌, ◌++◌, concat, reverse, All,
  All-reverse, Bool-cases, Option-cases, inl, inr, ◌==◌, arith,
}
use bbtidy.Text.{
  Text, strip_suffix, strip_suffix-append, is_space_or_tab, trim_start_matches, trim_end_matches,
}
use bbtidy.Scanner.Lines.{split_line_ending, crlf, newline}
use bbtidy.Lint.Boundaries.{StartsAscii}
use bbtidy.Lint.Suppression.{split_inclusive}

abbrev pub IsBlank : Text → Type 0
IsBlank w = All (λ (c : ℕ). is_space_or_tab c ≡ true) w

trim_start_matches-IsBlank :
    (s : Text) → (w : Text) × IsBlank w × (w ++ trim_start_matches is_space_or_tab s ≡ s)
unfolding trim_start_matches
trim_start_matches-IsBlank [] = ([], tt, refl)
trim_start_matches-IsBlank (c ∷ s) = elim (Bool-cases (is_space_or_tab c)) [
  | inl e ↦
      let (w, blank, same) = trim_start_matches-IsBlank s in
      rw (e, trim_start_matches) (c ∷ w, (e, blank), ap (λ (t : Text). c ∷ t) same)
  | inr e ↦ rw (e, trim_start_matches) ([], tt, refl)
]

pub trim_end_matches-IsBlank :
    (s : Text) → (w : Text) × IsBlank w × (s ≡ trim_end_matches is_space_or_tab s ++ w)
unfolding trim_end_matches
trim_end_matches-IsBlank s =
    let (w, blank, same) = trim_start_matches-IsBlank (reverse s) in
    (
      reverse w,
      All-reverse (λ (c : ℕ). is_space_or_tab c ≡ true) w blank,
      sym (reverse-reverse s)
          ∙ ap reverse (sym same)
          ∙ reverse-append w (trim_start_matches is_space_or_tab (reverse s)),
    )

abbrev pub EndsLine : Text → Type 0
EndsLine line = (p : Text) × (line ≡ p ++ newline)

-- Each line ends with a newline, but for the last one.
abbrev pub LinesEnd : List Text → Type 0
LinesEnd [] = Unit
LinesEnd (line ∷ lines) = (EndsLine line ⊎ (concat lines ≡ [])) × LinesEnd lines

longer-LinesEnd :
    (c : ℕ) (rest : List Text)
    → LinesEnd rest
    → LinesEnd (elim rest [ [] ↦ (c ∷ []) ∷ [] | line ∷ lines ↦ (c ∷ line) ∷ lines ])
longer-LinesEnd c [] e = (inr refl, tt)
longer-LinesEnd c (line ∷ lines) (inl (p, same), e) =
    (inl (c ∷ p, ap (λ (t : Text). c ∷ t) same), e)
longer-LinesEnd c (line ∷ lines) (inr last, e) = (inr last, e)

pub split_inclusive-LinesEnd : (s : Text) → LinesEnd (split_inclusive s)
unfolding split_inclusive
split_inclusive-LinesEnd [] = tt
split_inclusive-LinesEnd (c ∷ s) = elim (Bool-cases (c == b'\n')) [
  | inl e ↦
      rw (e, split_inclusive)
        (inl ([], ap (λ (d : ℕ). d ∷ []) (ground (arith, e))), split_inclusive-LinesEnd s)
  | inr e ↦ rw e (longer-LinesEnd c (split_inclusive s) (split_inclusive-LinesEnd s))
]

-- Behind the content of a line stands an ASCII line ending, or nothing.
pub split_line_ending-StartsAscii :
    (line rest : Text)
    → EndsLine line ⊎ (rest ≡ [])
    → StartsAscii ((split_line_ending line).1 ++ rest)
unfolding split_line_ending
split_line_ending-StartsAscii line rest ends = elim (Option-cases (strip_suffix line crlf)) [
  | inr (c, e) ↦ rw (e, split_line_ending) refl
  | inl e ↦ elim (Option-cases (strip_suffix line newline)) [
    | inr (c, f) ↦ rw (e, f, split_line_ending) refl
    | inl f ↦ elim ends [
      | inl (p, same) ↦
          let q : none ≡ some p =
            sym f
            ∙ ap (λ (t : Text). strip_suffix t newline) same
            ∙ strip_suffix-append p newline in
          cc
      | inr last ↦ rw (e, f, split_line_ending) (rw last tt)
    ]
  ]
]
