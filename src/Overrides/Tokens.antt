-- ===== src/Overrides/Tokens.antt =====
-- The list of active overrides that `override_tokens` of src/overrides.rs reads.
use bbtidy.Base.{
  ℕ, ◌≡◌, refl, Bool, false, ◌||◌, List, [], ◌∷◌, ◌++◌, any, is_empty, All, All-map, Bool-cases,
  inl, inr, arith,
}
use bbtidy.Text.{Text, text_eq}
use bbtidy.Overrides.Static.{is_separator, tokens_from, override_tokens}

-- A text that is not empty and has no separator.
abbrev pub IsToken : Text → Type 0
IsToken t = (is_empty t ≡ false) × (any is_separator t ≡ false)

-- No text stands twice.
abbrev pub Distinct : List Text → Type 0
Distinct [] = Unit
Distinct (t ∷ ts) = All (λ u. text_eq u t ≡ false) ts × Distinct ts

abbrev IsNew : List Text → Text → Type 0
IsNew seen t = any (text_eq t) seen ≡ false

any-snoc : (p : ℕ → Bool) (s : Text) (c : ℕ) → any p (s ++ c ∷ []) ≡ (any p s || p c)
any-snoc p [] c = ground arith
any-snoc p (d ∷ s) c = ground (arith, any-snoc p s c)

tokens_from-IsToken :
    (seen : List Text) (word s : Text)
    → any is_separator word ≡ false
    → All (λ t. IsToken t × IsNew seen t) (tokens_from seen word s)
      × Distinct (tokens_from seen word s)
unfolding tokens_from
tokens_from-IsToken seen word [] f = elim (Bool-cases (is_empty word || any (text_eq word) seen)) [
  | inl e ↦ rw (e, tokens_from) (tt, tt)
  | inr e ↦ rw (e, tokens_from) ((((ground (arith, e), f), ground (arith, e)), tt), (tt, tt))
]
tokens_from-IsToken seen word (c ∷ s) f = elim (Bool-cases (is_separator c)) [
  | inl g ↦ elim (Bool-cases (is_empty word || any (text_eq word) seen)) [
    | inl e ↦ rw (g, tokens_from) (rw e (tokens_from-IsToken seen [] s refl))
    | inr e ↦
        let (p, q) = tokens_from-IsToken (word ∷ seen) [] s refl in
        rw (g, tokens_from)
          (rw e (
            (
              ((ground (arith, e), f), ground (arith, e)),
              All-map (tokens_from (word ∷ seen) [] s) (λ t h. (h.0, ground (arith, h.1))) p,
            ),
            (All-map (tokens_from (word ∷ seen) [] s) (λ t h. ground (arith, h.1)) p, q),
          ))
  ]
  | inr g ↦
      rw (g, tokens_from)
        (tokens_from-IsToken seen (word ++ c ∷ []) s
          (rw (any-snoc is_separator word c) (rw (f, g) refl)))
]

-- An active override is not empty and has no separator in it, and none stands twice in the list.
pub override_tokens-IsToken :
    (value : Text) → All IsToken (override_tokens value) × Distinct (override_tokens value)
unfolding override_tokens
override_tokens-IsToken value =
    let (p, q) = tokens_from-IsToken [] [] value refl in
    (All-map (tokens_from [] [] value) (λ t h. h.0) p, q)
