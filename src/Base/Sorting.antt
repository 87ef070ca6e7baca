-- ===== src/Base/Sorting.antt =====
-- The stable sort of the standard library, by a Boolean order, and ascending lists.
use mathlib.Core.Path.{◌≡◌}
use mathlib.Core.Bool.{Bool, true, false}
use mathlib.Core.List.{List, [], ◌∷◌}
use native.Mathlib.Omega.{arith}
use bbtidy.Base.Boolean.{Bool-cases, if◌then◌else◌}
use mathlib.Core.Logic.{inl, inr}
use bbtidy.Base.Everywhere.{All}

module _ {ℓ} {A : Type ℓ} (le : A → A → Bool) where
  -- `x` before the first element that is not below it
  unfoldable pub insert_sorted : A → List A → List A
  insert_sorted x [] = x ∷ []
  insert_sorted x (y ∷ ys) =
      let rest = insert_sorted x ys in if le x y then x ∷ y ∷ ys else y ∷ rest

  -- `sort_by`: elements that compare as equal keep their order
  unfoldable pub sort_by : List A → List A
  unfolding insert_sorted
  sort_by [] = []
  sort_by (x ∷ xs) = insert_sorted x (sort_by xs)

  -- Each element is in order with the one behind it.
  abbrev pub Ascending : List A → Type 0
  Ascending [] = Unit
  Ascending (x ∷ []) = Unit
  Ascending (x ∷ y ∷ ys) = (le x y ≡ true) × Ascending (y ∷ ys)

  module _ {κ} (P : A → Type κ) where
    All-insert_sorted : (x : A) (ys : List A) → P x → All P ys → All P (insert_sorted x ys)
    unfolding insert_sorted
    All-insert_sorted x [] p a = (p, tt)
    All-insert_sorted x (y ∷ ys) p a = elim (Bool-cases (le x y)) [
      | inl e ↦ rw (e, insert_sorted) (p, a)
      | inr e ↦ rw (e, insert_sorted) (a.0, All-insert_sorted x ys p a.1)
    ]

    pub All-sort_by : (xs : List A) → All P xs → All P (sort_by xs)
    unfolding sort_by
    All-sort_by [] a = tt
    All-sort_by (x ∷ xs) a = All-insert_sorted x (sort_by xs) a.0 (All-sort_by xs a.1)

  module _ (total : (a b : A) → le a b ≡ false → le b a ≡ true) where
    Ascending-insert_sorted : (x : A) (ys : List A) → Ascending ys → Ascending (insert_sorted x ys)
    unfolding insert_sorted
    Ascending-insert_sorted x [] a = tt
    Ascending-insert_sorted x (y ∷ []) a = ground (arith, total x y)
    Ascending-insert_sorted x (y ∷ z ∷ ys) a =
        ground (arith, total x y, Ascending-insert_sorted x (z ∷ ys) a.1)

    pub sort_by-Ascending : (xs : List A) → Ascending (sort_by xs)
    unfolding sort_by
    sort_by-Ascending [] = tt
    sort_by-Ascending (x ∷ xs) = Ascending-insert_sorted x (sort_by xs) (sort_by-Ascending xs)
