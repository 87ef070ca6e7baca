-- ===== src/Base/Everywhere.antt =====
-- A predicate at every element of a list.
use mathlib.Core.List.{List, [], ◌∷◌, ◌++◌, reverse, reverse_aux}

abbrev pub All {ℓ κ} : {A : Type ℓ} (P : A → Type κ) (xs : List A) → Type κ
All P [] = Unit
All P (first ∷ others) = P first × All P others

module _ {ℓ κ} {A : Type ℓ} (P : A → Type κ) where
  pub All-append : (xs ys : List A) → All P xs → All P ys → All P (xs ++ ys)
  All-append [] ys p q = q
  All-append (x ∷ xs) ys p q = (p.0, All-append xs ys p.1 q)

  pub All-reverse_aux : (xs ys : List A) → All P xs → All P ys → All P (reverse_aux xs ys)
  All-reverse_aux [] ys p q = q
  All-reverse_aux (x ∷ xs) ys p q = All-reverse_aux xs (x ∷ ys) p.1 (p.0, q)

  pub All-reverse : (xs : List A) → All P xs → All P (reverse xs)
  All-reverse xs p = All-reverse_aux xs [] p tt

pub All-map {ℓ κ μ} :
    {A : Type ℓ} {P : A → Type κ} {Q : A → Type μ} (xs : List A)
    → ((x : A) → P x → Q x)
    → All P xs
    → All Q xs
All-map [] f p = tt
All-map (x ∷ xs) f p = (f x p.0, All-map xs f p.1)

pub All-zip {ℓ κ μ ν} :
    {A : Type ℓ} {P : A → Type κ} {R : A → Type μ} {Q : A → Type ν} (xs : List A)
    → ((x : A) → P x → R x → Q x)
    → All P xs
    → All R xs
    → All Q xs
All-zip [] f p r = tt
All-zip (x ∷ xs) f p r = (f x p.0 r.0, All-zip xs f p.1 r.1)

pub All-swap {ℓ κ μ} :
    {A : Type ℓ} {B : Type κ} (R : A → B → Type μ) (xs : List A) (ys : List B)
    → All (λ x. All (R x) ys) xs
    → All (λ y. All (λ x. R x y) xs) ys
All-swap R xs [] a = tt
All-swap R xs (y ∷ ys) a = (All-map xs (λ x p. p.0) a, All-swap R xs ys (All-map xs (λ x p. p.1) a))
