-- ===== src/Text/Search.antt =====
-- What `find` tells of a text: what stands where it points, and what does not stand before.
use bbtidy.Base.{
  ℕ, zero, suc, ◌+◌, ◌≡◌, refl, sym, subst, ap, ◌∙◌, Option, none, some, false, [], ◌∷◌, ◌++◌,
  length, take, drop, is_some, ◌==◌, Bool-cases, Option-cases, inl, inr, arith,
}
use bbtidy.Text.Defs.{Text, strip_prefix, starts_with, find, find_byte}
use bbtidy.Text.Laws.{Option-map-some, strip_prefix-some}

pub find_byte-drop : (s : Text) (b k : ℕ) → find_byte s b ≡ some k → drop k s ≡ b ∷ drop (k + 1) s
unfolding find_byte
find_byte-drop [] b k h = cc
find_byte-drop (x ∷ s) b k h = elim (Bool-cases (x == b)) [
  | inl same ↦ ground arith
  | inr other ↦
      let (j, e, f) = Option-map-some suc (find_byte s b) (rw other at h) in
      ap (λ (i : ℕ). drop i (x ∷ s)) (sym f)
      ∙ find_byte-drop s b j e
      ∙ ap (λ (i : ℕ). b ∷ drop i (x ∷ s)) {x = suc (j + 1)} (omega (arith, f))
]

pub find_byte-take : (s : Text) (b k : ℕ) → find_byte s b ≡ some k → find_byte (take k s) b ≡ none
unfolding find_byte
find_byte-take [] b k h = cc
find_byte-take (x ∷ s) b k h = elim (Bool-cases (x == b)) [
  | inl same ↦ ground arith
  | inr other ↦
      let (j, e, f) = Option-map-some suc (find_byte s b) (rw other at h) in
      ap (λ (i : ℕ). find_byte (take i (x ∷ s)) b) (sym f)
      ∙ rw other (rw (find_byte-take s b j e) refl)
]

drop-append : (p r : Text) → drop (length p) (p ++ r) ≡ r
drop-append [] r = refl
drop-append (x ∷ p) r = drop-append p r

starts_with-take : (n : ℕ) (s p : Text) → starts_with s p ≡ false → starts_with (take n s) p ≡ false
unfolding strip_prefix
starts_with-take n [] [] h = cc
starts_with-take n (x ∷ s) [] h = cc
starts_with-take zero [] (y ∷ p) h = refl
starts_with-take zero (x ∷ s) (y ∷ p) h = refl
starts_with-take (suc n) [] (y ∷ p) h = refl
starts_with-take (suc n) (x ∷ s) (y ∷ p) h = elim (Bool-cases (x == y)) [
  | inl same ↦ rw same (starts_with-take n s p (rw same at h))
  | inr other ↦ rw other refl
]

module _ (y : ℕ) (p : Text) where
  pub find-drop :
      (s : Text) (k : ℕ)
      → find s (y ∷ p) ≡ some k
      → drop k s ≡ (y ∷ p) ++ drop (k + length (y ∷ p)) s
  unfolding find
  find-drop [] k h = cc
  find-drop (x ∷ s) k h = elim (Option-cases (strip_prefix (x ∷ s) (y ∷ p))) [
    | inr (r, here) ↦
        let q = strip_prefix-some (x ∷ s) (y ∷ p) r here in
        let z : ◌≡◌ {A = Option ℕ} (some 0) (some k) = rw here at h in
        let first : 0 ≡ k = cc in
        subst (λ (i : ℕ). drop i (x ∷ s) ≡ (y ∷ p) ++ drop (i + length (y ∷ p)) (x ∷ s)) first
          (q
            ∙ ap (◌++◌ (y ∷ p)) (sym (ap (drop (length (y ∷ p))) q ∙ drop-append (y ∷ p) r))
            ∙ ap (λ (i : ℕ). (y ∷ p) ++ drop i (x ∷ s)) {x = length (y ∷ p)} (omega arith))
    | inl elsewhere ↦
        let (j, e, f) = Option-map-some suc (find s (y ∷ p)) (rw elsewhere at h) in
        ap (λ (i : ℕ). drop i (x ∷ s)) (sym f)
        ∙ find-drop s j e
        ∙ ap (λ (i : ℕ). (y ∷ p) ++ drop i (x ∷ s)) {x = suc (j + length (y ∷ p))}
            (omega (arith, f))
  ]

  pub find-take : (s : Text) (k : ℕ) → find s (y ∷ p) ≡ some k → find (take k s) (y ∷ p) ≡ none
  unfolding find
  find-take [] k h = cc
  find-take (x ∷ s) k h = elim (Option-cases (strip_prefix (x ∷ s) (y ∷ p))) [
    | inr (r, here) ↦
        let z : ◌≡◌ {A = Option ℕ} (some 0) (some k) = rw here at h in
        let first : 0 ≡ k = cc in subst (λ (i : ℕ). find (take i (x ∷ s)) (y ∷ p) ≡ none) first refl
    | inl elsewhere ↦
        let (j, e, f) = Option-map-some suc (find s (y ∷ p)) (rw elsewhere at h) in
        let differs : starts_with (take (suc j) (x ∷ s)) (y ∷ p) ≡ false =
          starts_with-take (suc j) (x ∷ s) (y ∷ p) (ap is_some elsewhere) in
        subst (λ (i : ℕ). find (take i (x ∷ s)) (y ∷ p) ≡ none) f
          (rw differs (rw (find-take s j e) refl))
  ]
