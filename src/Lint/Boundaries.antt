-- ===== src/Lint/Boundaries.antt =====
-- Character boundaries of a text before an ASCII byte, and texts that are spliced from a later place.
use bbtidy.Base.{
  ℕ, zero, suc, ◌-◌, ◌≤◌, ◌≡◌, refl, sym, ap, subst, ◌∙◌, true, List, [], ◌∷◌, ◌++◌, length, take,
  drop, append_assoc, drop-drop, drop-nil_short, take-append-drop, take-append-slice, ltb, arith,
}
use bbtidy.Base.Sorting.{insert_sorted, sort_by}
use bbtidy.Text.{Text, slice}
use bbtidy.Lint.Fixes.{LintFix, is_char_boundary, fix_before}
use bbtidy.Lint.Splice.{spliced, Disjoint}

-- The rest of a text that ends or goes on with an ASCII byte.
abbrev pub StartsAscii : Text → Type 0
StartsAscii [] = Unit
StartsAscii (c ∷ cs) = ltb c 0x80 ≡ true

is_char_boundary-length : (text : Text) → is_char_boundary text (length text) ≡ true
unfolding is_char_boundary
is_char_boundary-length [] = refl
is_char_boundary-length (c ∷ []) = refl
is_char_boundary-length (c ∷ d ∷ cs) = is_char_boundary-length (d ∷ cs)

is_char_boundary-cons :
    (text : Text) (i c : ℕ) (cs : Text)
    → drop i text ≡ c ∷ cs
    → ltb c 0x80 ≡ true
    → is_char_boundary text i ≡ true
unfolding is_char_boundary
is_char_boundary-cons [] zero c cs e a = cc
is_char_boundary-cons [] (suc i) c cs e a = cc
is_char_boundary-cons (x ∷ text) zero c cs e a = refl
is_char_boundary-cons (x ∷ []) (suc zero) c cs e a = refl
is_char_boundary-cons (x ∷ d ∷ text) (suc zero) c cs e a =
    let same : d ≡ c = cc in ground (arith, same, a)
is_char_boundary-cons (x ∷ text) (suc (suc i)) c cs e a =
    is_char_boundary-cons text (suc i) c cs e a

pub is_char_boundary-StartsAscii :
    (text : Text) (i : ℕ) (rest : Text)
    → drop i text ≡ rest
    → i ≤ length text
    → StartsAscii rest
    → is_char_boundary text i ≡ true
is_char_boundary-StartsAscii text i [] e l a =
    subst (λ (k : ℕ). is_char_boundary text k ≡ true) (omega (arith, drop-nil_short i text e))
      (is_char_boundary-length text)
is_char_boundary-StartsAscii text i (c ∷ cs) e l a = is_char_boundary-cons text i c cs e a

pub earlier-Disjoint :
    (text : Text) (a b : ℕ) (fixes : List LintFix)
    → a ≤ b
    → Disjoint text b fixes
    → Disjoint text a fixes
earlier-Disjoint text a b [] l d = tt
earlier-Disjoint text a b (f ∷ fixes) l (p, q, r, s, t, later) = (omega arith, q, r, s, t, later)

slice_join :
    (text : Text) (a b c : ℕ) → a ≤ b → b ≤ c → slice a c text ≡ slice a b text ++ slice b c text
slice_join text a b c p q =
    sym (take-append-slice (b - a) (c - a) (drop a text) (omega arith))
    ∙ ap (λ (t : Text). slice a b text ++ t)
        (ap (λ (k : ℕ). take k (drop (b - a) (drop a text))) {x = c - a - (b - a)} (omega arith)
          ∙ ap (take (c - b))
              (drop-drop (b - a) a text ∙ ap (λ (k : ℕ). drop k text) (omega arith)))

pub spliced-earlier :
    (text : Text) (a b : ℕ) (fixes : List LintFix)
    → a ≤ b
    → Disjoint text b fixes
    → spliced text a fixes ≡ slice a b text ++ spliced text b fixes
spliced-earlier text a b [] l d =
    sym (take-append-drop (b - a) (drop a text))
    ∙ ap (λ (t : Text). slice a b text ++ t)
        (drop-drop (b - a) a text ∙ ap (λ (k : ℕ). drop k text) (omega arith))
spliced-earlier text a b (f ∷ fixes) l (p, _, _, _, _, _) =
    ap (λ (t : Text). t ++ (f.replacement ++ spliced text f.range.end fixes))
      (slice_join text a b f.range.start l p)
    ∙ append_assoc (slice a b text) (slice b f.range.start text)
        (f.replacement ++ spliced text f.range.end fixes)

-- Fixes that stand one behind the other are in order.
pub sort_by-Disjoint :
    (text : Text) (a : ℕ) (fixes : List LintFix)
    → Disjoint text a fixes
    → sort_by fix_before fixes ≡ fixes
unfolding sort_by insert_sorted
sort_by-Disjoint text a [] d = refl
sort_by-Disjoint text a (f ∷ []) d = refl
sort_by-Disjoint text a (f ∷ g ∷ fixes) (p, q, r, _, _, later) =
    rw (sort_by-Disjoint text f.range.end (g ∷ fixes) later, sort_by)
      (rw (first_before later, insert_sorted) refl)
  where
    first_before : Disjoint text f.range.end (g ∷ fixes) → fix_before f g ≡ true
    first_before (x, y, _, _, _, _) = ground arith
