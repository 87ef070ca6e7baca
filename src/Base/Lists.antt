-- ===== src/Base/Lists.antt =====
-- Lists measured and cut by native numbers.
use Prim.Native.Nat.{ℕ, zero, suc, ◌+◌, ◌-◌, ◌≤◌, ◌<◌, min}
use mathlib.Core.Path.{◌≡◌, refl, ap, ◌∙◌, sym}
use mathlib.Core.List.{List, [], ◌∷◌, ◌++◌, append_assoc, append-nil}
use mathlib.Core.Option.{Option, none, some}
use mathlib.Core.Bool.{Bool, true, false, ◌||◌, ◌&&◌}
use native.Mathlib.Omega.{arith}

module _ {ℓ} {A : Type ℓ} where
  abbrev pub length : List A → ℕ
  length [] = 0
  length (x ∷ xs) = suc (length xs)

  abbrev pub take : ℕ → List A → List A
  take zero xs = []
  take (suc n) [] = []
  take (suc n) (x ∷ xs) = x ∷ take n xs

  abbrev pub drop : ℕ → List A → List A
  drop zero xs = xs
  drop (suc n) [] = []
  drop (suc n) (x ∷ xs) = drop n xs

  abbrev pub head? : List A → Option A
  head? [] = none
  head? (x ∷ xs) = some x

  abbrev pub is_empty : List A → Bool
  is_empty [] = true
  is_empty (x ∷ xs) = false

  abbrev pub concat : List (List A) → List A
  concat [] = []
  concat (x ∷ xs) = x ++ concat xs

  abbrev pub any : (A → Bool) → List A → Bool
  any p [] = false
  any p (x ∷ xs) = p x || any p xs

  abbrev pub all : (A → Bool) → List A → Bool
  all p [] = true
  all p (x ∷ xs) = p x && all p xs

module _ {ℓ} {A : Type ℓ} where
  pub length-append : (xs ys : List A) → length (xs ++ ys) ≡ length xs + length ys
  length-append [] ys = omega arith
  length-append (x ∷ xs) ys = omega (arith, length-append xs ys)

  pub length-take : (n : ℕ) (xs : List A) → length (take n xs) ≡ min n (length xs)
  length-take zero xs = omega arith
  length-take (suc n) [] = omega arith
  length-take (suc n) (x ∷ xs) = omega (arith, length-take n xs)

  pub length-drop : (n : ℕ) (xs : List A) → length (drop n xs) ≡ length xs - n
  length-drop zero xs = omega arith
  length-drop (suc n) [] = omega arith
  length-drop (suc n) (x ∷ xs) = omega (arith, length-drop n xs)

  pub take-append-drop : (n : ℕ) (xs : List A) → take n xs ++ drop n xs ≡ xs
  take-append-drop zero xs = refl
  take-append-drop (suc n) [] = refl
  take-append-drop (suc n) (x ∷ xs) = ap (◌∷◌ x) (take-append-drop n xs)

  pub drop-nil : (n : ℕ) → ◌≡◌ {A = List A} (drop n []) []
  drop-nil zero = refl
  drop-nil (suc n) = refl

  pub take-nil : (n : ℕ) → ◌≡◌ {A = List A} (take n []) []
  take-nil zero = refl
  take-nil (suc n) = refl

  pub drop-drop : (m n : ℕ) (xs : List A) → drop m (drop n xs) ≡ drop (n + m) xs
  drop-drop m zero xs = ap (λ (k : ℕ). drop k xs) (omega arith)
  drop-drop m (suc n) [] = drop-nil m ∙ sym (drop-nil (suc n + m))
  drop-drop m (suc n) (x ∷ xs) =
      drop-drop m n xs ∙ ap (λ (k : ℕ). drop k (x ∷ xs)) {x = suc (n + m)} (omega arith)

  -- What the cut at `a` lacks of the cut at `b` is the slice between them.
  pub take-append-slice :
      (a b : ℕ) (xs : List A) → a ≤ b → take a xs ++ take (b - a) (drop a xs) ≡ take b xs
  take-append-slice zero b xs h = ap (λ (k : ℕ). take k xs) (omega arith)
  take-append-slice (suc a) zero xs h = elim h [ ]
  take-append-slice (suc a) (suc b) [] h = rw (take-nil (suc b - suc a))
  take-append-slice (suc a) (suc b) (x ∷ xs) h = ap (◌∷◌ x) (
      ap (λ (k : ℕ). take a xs ++ take k (drop a xs)) {x = suc b - suc a} (omega arith)
      ∙ take-append-slice a b xs (omega arith))

  pub take-all : (n : ℕ) (xs : List A) → length xs ≤ n → take n xs ≡ xs
  take-all n [] h = take-nil n
  take-all zero (x ∷ xs) h = elim h [ ]
  take-all (suc n) (x ∷ xs) h = ap (◌∷◌ x) (take-all n xs (omega arith))

  pub concat-concat : (xs : List (List A)) (ys : List A) → concat (xs ++ ys ∷ []) ≡ concat xs ++ ys
  concat-concat [] ys = append-nil ys
  concat-concat (x ∷ xs) ys =
      ap (◌++◌ x) (concat-concat xs ys) ∙ sym (append_assoc x (concat xs) ys)

  pub drop-nil_short : (n : ℕ) (xs : List A) → drop n xs ≡ [] → length xs ≤ n
  drop-nil_short n xs e = omega (arith, ap length e, length-drop n xs)

  pub drop-cons_lt :
      (n : ℕ) (xs : List A) {x : A} {ys : List A}
      → drop n xs ≡ x ∷ ys
      → (n < length xs) × (length xs ≡ n + suc (length ys))
  drop-cons_lt n xs e = omega (arith, ap length e, length-drop n xs)

  pub drop_step :
      (n : ℕ) (xs : List A) {x : A} {ys : List A} → drop n xs ≡ x ∷ ys → drop (n + 1) xs ≡ ys
  drop_step n xs e = sym (drop-drop 1 n xs) ∙ ap (drop 1) e

module _ {ℓ} {A : Type ℓ} where
  pub take_step :
      (n : ℕ) (xs : List A) {x : A} {ys : List A}
      → drop n xs ≡ x ∷ ys
      → take n xs ++ x ∷ [] ≡ take (n + 1) xs
  take_step n xs {x} {ys} e =
      ap (λ (r : List A). take n xs ++ take 1 r) (sym e)
      ∙ ap (λ (k : ℕ). take n xs ++ take k (drop n xs)) {x = 1} (omega arith)
      ∙ take-append-slice n (n + 1) xs (omega arith)

  pub slice_step :
      (a n : ℕ) (xs : List A) {x : A} {ys : List A}
      → a ≤ n
      → drop n xs ≡ x ∷ ys
      → take (n - a) (drop a xs) ++ x ∷ [] ≡ take ((n + 1) - a) (drop a xs)
  slice_step a n xs h e =
      take_step (n - a) (drop a xs)
        (drop-drop (n - a) a xs ∙ ap (λ (k : ℕ). drop k xs) {x = a + (n - a)} (omega arith) ∙ e)
      ∙ ap (λ (k : ℕ). take k (drop a xs)) {x = (n - a) + 1} (omega arith)

  pub drop-all : (n : ℕ) (xs : List A) → length xs ≤ n → drop n xs ≡ []
  drop-all n [] h = drop-nil n
  drop-all zero (x ∷ xs) h = elim h [ ]
  drop-all (suc n) (x ∷ xs) h = drop-all n xs (omega arith)

  pub take-append : (xs ys : List A) → take (length xs) (xs ++ ys) ≡ xs
  take-append [] ys = refl
  take-append (x ∷ xs) ys = ap (◌∷◌ x) (take-append xs ys)

  pub drop-append_le :
      (n : ℕ) (xs ys : List A) → n ≤ length xs → drop n (xs ++ ys) ≡ drop n xs ++ ys
  drop-append_le zero xs ys h = refl
  drop-append_le (suc n) [] ys h = elim h [ ]
  drop-append_le (suc n) (x ∷ xs) ys h = drop-append_le n xs ys (omega arith)
