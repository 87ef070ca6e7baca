-- ===== src/Base/Membership.antt =====
-- Elements of lists that are cut, joined and sorted.
use mathlib.Core.Path.{◌≡◌, refl, sym, ap, subst}
use mathlib.Core.Bool.{Bool, true}
use mathlib.Core.List.{List, [], ◌∷◌, ◌++◌, Memᴰ}
use mathlib.Core.List.Memᴰ
use mathlib.Core.List.Memᴰ.{head, tail}
use mathlib.Core.Logic.{inl, inr}
use native.Mathlib.Omega.{arith}
use bbtidy.Base.Boolean.{Bool-cases}
use bbtidy.Base.Lists.{any}
use bbtidy.Base.Everywhere.{All}
use bbtidy.Base.Sorting.{insert_sorted, sort_by}

module _ {ℓ} {A : Type ℓ} where
  pub Mem-append_left : {x : A} (xs ys : List A) → Memᴰ x xs → Memᴰ x (xs ++ ys)
  Mem-append_left [] ys m = absurd (Memᴰ.not-nil m)
  Mem-append_left (y ∷ xs) ys (head e) = head e
  Mem-append_left (y ∷ xs) ys (tail m) = tail (Mem-append_left xs ys m)

  pub Mem-append_right : {x : A} (xs ys : List A) → Memᴰ x ys → Memᴰ x (xs ++ ys)
  Mem-append_right [] ys m = m
  Mem-append_right (y ∷ xs) ys m = tail (Mem-append_right xs ys m)

  pub Mem-behind :
      {x y : A} {xs ys : List A} → (Memᴰ x xs → Memᴰ x ys) → Memᴰ x (y ∷ xs) → Memᴰ x (y ∷ ys)
  Mem-behind f (head e) = head e
  Mem-behind f (tail m) = tail (f m)

  pub Mem-All {κ} : (P : A → Type κ) {x : A} (xs : List A) → All P xs → Memᴰ x xs → P x
  Mem-All P [] a m = absurd (Memᴰ.not-nil m)
  Mem-All P (y ∷ xs) a (head e) = subst P (sym e) a.0
  Mem-All P (y ∷ xs) a (tail m) = Mem-All P xs a.1 m

  pub Mem-any : (p : A → Bool) {x : A} (xs : List A) → Memᴰ x xs → p x ≡ true → any p xs ≡ true
  Mem-any p [] m e = absurd (Memᴰ.not-nil m)
  Mem-any p {x} (y ∷ xs) (head same) e = ground (arith, ap p same, e)
  Mem-any p {x} (y ∷ xs) (tail m) e = ground (arith, Mem-any p xs m e)

  module _ (le : A → A → Bool) where
    Mem-insert_first : (x : A) (ys : List A) → Memᴰ x (insert_sorted le x ys)
    unfolding insert_sorted
    Mem-insert_first x [] = head refl
    Mem-insert_first x (y ∷ ys) = elim (Bool-cases (le x y)) [
      | inl e ↦ rw (e, insert_sorted) (head refl)
      | inr e ↦ rw (e, insert_sorted) (tail (Mem-insert_first x ys))
    ]

    Mem-insert_other : {z : A} (x : A) (ys : List A) → Memᴰ z ys → Memᴰ z (insert_sorted le x ys)
    unfolding insert_sorted
    Mem-insert_other x [] m = absurd (Memᴰ.not-nil m)
    Mem-insert_other {z} x (y ∷ ys) m = elim (Bool-cases (le x y)) [
      | inl e ↦ rw (e, insert_sorted) (tail m)
      | inr e ↦ rw (e, insert_sorted) (Mem-behind (Mem-insert_other x ys) m)
    ]

    pub Mem-sort_by : {z : A} (xs : List A) → Memᴰ z xs → Memᴰ z (sort_by le xs)
    unfolding sort_by
    Mem-sort_by [] m = m
    Mem-sort_by {z} (x ∷ xs) (head same) =
        subst (λ (w : A). Memᴰ w (insert_sorted le x (sort_by le xs))) (sym same)
          (Mem-insert_first x (sort_by le xs))
    Mem-sort_by (x ∷ xs) (tail m) = Mem-insert_other x (sort_by le xs) (Mem-sort_by xs m)
