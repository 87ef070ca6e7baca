-- ===== src/Overrides/Suffixes.antt =====
-- The legacy suffixes that `parse_key` of src/overrides.rs takes off a name.
use bbtidy.Base.{
  ℕ, zero, suc, ◌≤◌, ◌≡◌, refl, sym, subst, ap, ◌∙◌, none, some, true, false, List, [], ◌∷◌, ◌++◌,
  length, length-append, any, is_empty, leb, All, All-map, append_assoc, Bool-cases, Option-cases,
  inl, inr, arith,
}
use mathlib.Core.List.{Memᴰ}
use mathlib.Core.List.Memᴰ
use mathlib.Core.List.Memᴰ.{head, tail}
use bbtidy.Text.{Text, text_eq, text_eq_refl, strip_suffix, strip_suffix-some, strip_suffix-append}
use bbtidy.Overrides.Legacy.{
  legacy_suffixes, longest_component, longest_legacy_suffix, legacy_components,
}

-- The components with an underscore before each.
abbrev pub underscored : List Text → Text
underscored [] = []
underscored (c ∷ cs) = b'_' ∷ (c ++ underscored cs)

abbrev pub IsActive : List Text → Text → Type 0
IsActive active c = any (text_eq c) active ≡ true

-- What is before the suffix, and the component of the suffix.
abbrev IsSuffix : Text → List Text → Text × Text → Type 0
IsSuffix name active (prefix, c) =
    (name ≡ prefix ++ b'_' ∷ c) × IsActive active c × (is_empty prefix ≡ false)

IsSuffix-cons :
    (name : Text) (a : Text) (active : List Text) (found : Text × Text)
    → IsSuffix name active found
    → IsSuffix name (a ∷ active) found
IsSuffix-cons name a active (prefix, c) (e, h, f) = (e, ground (arith, h), f)

legacy_suffixes-All :
    (name : Text) (active : List Text) → All (IsSuffix name active) (legacy_suffixes name active)
unfolding legacy_suffixes
legacy_suffixes-All name [] = tt
legacy_suffixes-All name (a ∷ active) =
    let later =
      All-map (legacy_suffixes name active) (λ found h. IsSuffix-cons name a active found h)
        (legacy_suffixes-All name active) in
    elim (Option-cases (strip_suffix name (b'_' ∷ a))) [
      | inl e ↦ rw (e, legacy_suffixes) later
      | inr (prefix, e) ↦ elim (Bool-cases (is_empty prefix)) [
        | inl f ↦ rw (e, legacy_suffixes) (rw f later)
        | inr f ↦
            rw (e, legacy_suffixes)
              (rw f
                ((strip_suffix-some name (b'_' ∷ a) prefix e, rw (text_eq_refl a) refl, f), later))
      ]
    ]

longest_component-All :
    (P : Text × Text → Type 0) (candidates : List (Text × Text))
    → All P candidates
    → (found : Text × Text) → longest_component candidates ≡ some found
    → P found
unfolding longest_component
longest_component-All P [] a found e = cc
longest_component-All P (candidate ∷ candidates) a found e =
    elim (Option-cases (longest_component candidates)) [
      | inl f ↦
          let q : some candidate ≡ some found = rw f at e in
          let same : candidate ≡ found = cc in subst P same a.0
      | inr (best, f) ↦ elim (Bool-cases (leb (length candidate.1) (length best.1))) [
        | inl g ↦
            let q : some best ≡ some found = rw g at (rw f at e) in
            let same : best ≡ found = cc in
            subst P same (longest_component-All P candidates a.1 best f)
        | inr g ↦
            let q : some candidate ≡ some found = rw g at (rw f at e) in
            let same : candidate ≡ found = cc in subst P same a.0
      ]
    ]

-- The name is not an active override behind an underscore and a name that is not empty.
abbrev pub IsBare : List Text → Text → Type 0
IsBare active name = ¬ (
    (prefix : Text) × (c : Text) × Memᴰ c active
    × (is_empty prefix ≡ false)
    × (name ≡ prefix ++ b'_' ∷ c))

legacy_suffixes-found :
    (name : Text) (active : List Text) (prefix : Text) (c : Text)
    → Memᴰ c active
    → is_empty prefix ≡ false
    → name ≡ prefix ++ b'_' ∷ c
    → is_empty (legacy_suffixes name active) ≡ false
unfolding legacy_suffixes
legacy_suffixes-found name [] prefix c m f e = absurd (Memᴰ.not-nil m)
legacy_suffixes-found name (a ∷ active) prefix c (head same) f e =
    let stripped : strip_suffix name (b'_' ∷ a) ≡ some prefix =
      ap (λ (n : Text). strip_suffix n (b'_' ∷ a)) e
      ∙ ap (λ (t : Text). strip_suffix (prefix ++ b'_' ∷ c) (b'_' ∷ t)) (sym same)
      ∙ strip_suffix-append prefix (b'_' ∷ c) in
    rw (stripped, legacy_suffixes) (rw f refl)
legacy_suffixes-found name (a ∷ active) prefix c (tail m) f e =
    let later = legacy_suffixes-found name active prefix c m f e in
    elim (Option-cases (strip_suffix name (b'_' ∷ a))) [
      | inl g ↦ rw (g, legacy_suffixes) later
      | inr (found, g) ↦ elim (Bool-cases (is_empty found)) [
        | inl h ↦ rw (g, legacy_suffixes) (rw h later)
        | inr h ↦ rw (g, legacy_suffixes) (rw h refl)
      ]
    ]

longest_component-none :
    (candidates : List (Text × Text))
    → longest_component candidates ≡ none
    → is_empty candidates ≡ true
unfolding longest_component
longest_component-none [] e = refl
longest_component-none (candidate ∷ candidates) e =
    elim (Option-cases (longest_component candidates)) [
      | inl f ↦ let q : some candidate ≡ none = rw f at e in cc
      | inr (best, f) ↦ elim (Bool-cases (leb (length candidate.1) (length best.1))) [
        | inl g ↦ let q : some best ≡ none = rw g at (rw f at e) in cc
        | inr g ↦ let q : some candidate ≡ none = rw g at (rw f at e) in cc
      ]
    ]

longest_legacy_suffix-IsBare :
    (name : Text) (active : List Text)
    → longest_legacy_suffix name active ≡ none
    → IsBare active name
unfolding longest_legacy_suffix
longest_legacy_suffix-IsBare name active e (prefix, c, m, f, same) =
    let p = longest_component-none (legacy_suffixes name active) e in
    let q = legacy_suffixes-found name active prefix c m f same in ground (arith, p, q)

longest_legacy_suffix-IsSuffix :
    (name : Text) (active : List Text) (found : Text × Text)
    → longest_legacy_suffix name active ≡ some found
    → IsSuffix name active found
unfolding longest_legacy_suffix
longest_legacy_suffix-IsSuffix name active found e =
    longest_component-All (IsSuffix name active) (legacy_suffixes name active)
      (legacy_suffixes-All name active) found e

IsBare-short : (active : List Text) (name : Text) → length name ≤ 0 → IsBare active name
IsBare-short active name l (prefix, c, m, f, same) =
    absurd (omega (arith, ap length same, length-append prefix (b'_' ∷ c)))

-- With one round for each byte of the name, the base that is left is not an active override behind
-- an underscore and a name that is not empty. The base and the components, with an underscore before
-- each, are the name and those found before it again, and the components are active overrides if
-- those found before were.
pub legacy_components-underscored :
    (fuel : ℕ) (active : List Text) (base : Text) (components : List Text)
    → length base ≤ fuel
    → All (IsActive active) components
    → ((legacy_components fuel active base components).0
          ++ underscored (legacy_components fuel active base components).1
        ≡ base ++ underscored components)
      × IsBare active (legacy_components fuel active base components).0
      × All (IsActive active) (legacy_components fuel active base components).1
unfolding legacy_components
legacy_components-underscored zero active base components l a =
    (refl, IsBare-short active base l, a)
legacy_components-underscored (suc fuel) active base components l a =
    elim (Option-cases (longest_legacy_suffix base active)) [
      | inl e ↦ rw (e, legacy_components) (refl, longest_legacy_suffix-IsBare base active e, a)
      | inr (found, e) ↦
          let (same, h, filled) = longest_legacy_suffix-IsSuffix base active found e in
          let (p, q, r) =
            legacy_components-underscored fuel active found.0 (found.1 ∷ components)
              (omega (arith, ap length same, length-append found.0 (b'_' ∷ found.1))) (h, a) in
          rw (e, legacy_components)
            (
              p
                  ∙ sym (append_assoc found.0 (b'_' ∷ found.1) (underscored components))
                  ∙ ap (λ (t : Text). t ++ underscored components) (sym same),
              q,
              r,
            )
    ]
