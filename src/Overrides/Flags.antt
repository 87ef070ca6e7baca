-- ===== src/Overrides/Flags.antt =====
-- The flag that `split_flag` of src/overrides.rs takes off a key.
use bbtidy.Base.{
  ℕ, ◌+◌, ◌-◌, ◌<◌, ◌≡◌, sym, ap, ◌∙◌, Option, none, some, Bool, true, false, [], ◌∷◌, ◌++◌, length,
  length-append, length-take, length-drop, take, drop, take-append, drop-append_le,
  take-append-drop, is_empty, is_some, Bool-cases, Option-cases, inl, inr, arith,
}
use bbtidy.Text.{Text, text, slice, find_byte, contains, ends_with, strip_suffix, strip_suffix-some}
use bbtidy.Text.Search.{find_byte-drop}
use bbtidy.Overrides.Keys.{KeyResult, refused, accepted, split_flag}

-- A key without a flag has no bracket; with one, it is the body and the flag in brackets.
abbrev pub FlagOf : Text → KeyResult (Text × Option Text) → Type 0
FlagOf name (refused e) = Unit
FlagOf name (accepted (body, none)) = (body ≡ name) × (contains name b'[' ≡ false)
FlagOf name (accepted (body, some flag)) =
    (body ++ (b'[' ∷ (flag ++ text "]")) ≡ name)
    × (is_empty flag ≡ false)
    × (contains flag b'[' ≡ false)

empty_short : (t : Text) → is_empty t ≡ false → 0 < length t
empty_short [] h = cc
empty_short (x ∷ t) h = omega arith

module _ (name : Text) (opening : ℕ) (found : find_byte name b'[' ≡ some opening) where
  abbrev flag : Text
  flag = slice (opening + 1) (length name - 1) name

  flag_closed :
      ends_with name (text "]") ≡ true
      → is_empty flag ≡ false
      → take opening name ++ (b'[' ∷ (flag ++ text "]")) ≡ name
  flag_closed e filled = elim (Option-cases (strip_suffix name (text "]"))) [
    | inl f ↦ let impossible : ◌≡◌ {A = Bool} false true = sym (ap is_some f) ∙ e in cc
    | inr (r, f) ↦
        let whole : name ≡ r ++ text "]" = strip_suffix-some name (text "]") r f in
        let size = length-append r (text "]") in
        let long : opening + 1 < length r = omega (
          arith,
          empty_short flag filled,
          length-take (length name - 1 - (opening + 1)) (drop (opening + 1) name),
          ap length whole,
          size,
        ) in
        let behind : drop (opening + 1) name ≡ drop (opening + 1) r ++ text "]" =
          ap (drop (opening + 1)) whole ∙ drop-append_le (opening + 1) r (text "]") (omega arith) in
        let same : flag ≡ drop (opening + 1) r =
          ap (take (length name - 1 - (opening + 1))) behind
          ∙ ap (λ (n : ℕ). take n (drop (opening + 1) r ++ text "]"))
              {y = length (drop (opening + 1) r)}
              (omega (arith, length-drop (opening + 1) r, ap length whole, size))
          ∙ take-append (drop (opening + 1) r) (text "]") in
        ap (λ (t : Text). take opening name ++ (b'[' ∷ (t ++ text "]"))) same
        ∙ ap (λ (t : Text). take opening name ++ (b'[' ∷ t)) (sym behind)
        ∙ ap (◌++◌ (take opening name)) (sym (find_byte-drop name b'[' opening found))
        ∙ take-append-drop opening name
  ]

-- A key that is split without a flag is the body and has no opening bracket; with one, it is the
-- body and the flag in brackets, and the flag is not empty and has no opening bracket.
pub split_flag-FlagOf : (name : Text) → FlagOf name (split_flag name)
unfolding split_flag
split_flag-FlagOf name = elim (Option-cases (find_byte name b'[')) [
  | inl e ↦ ground (arith, e)
  | inr (opening, e) ↦ elim (Bool-cases (ends_with name (text "]"))) [
    | inl closed ↦ elim (Bool-cases (is_empty (flag name opening e))) [
      | inl nothing ↦ ground (arith, e, closed, nothing)
      | inr filled ↦
          let put_together = flag_closed name opening e closed filled in
          ground (arith, e, closed, filled, put_together)
    ]
    | inr not_closed ↦ ground (arith, e, not_closed)
  ]
]
