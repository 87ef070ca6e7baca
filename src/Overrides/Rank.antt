-- ===== src/Overrides/Rank.antt =====
-- src/overrides.rs: `override_rank`, and the choice of `max_by`.
use bbtidy.Base.{
  ℕ, suc, Option, none, some, Bool, not, ◌&&◌, ◌||◌, List, [], ◌∷◌, length, leb, ltb, ◌==◌,
  if◌then◌else◌,
}
use mathlib.Core.Option
use bbtidy.Base.Sorting.{sort_by}
use bbtidy.Text.{Text, text_eq}
use bbtidy.Text.Maps.{lex_lt}

-- `active.iter().position(|item| item == wanted)`
unfoldable pub position : Text → List Text → Option ℕ
position wanted [] = none
position wanted (item ∷ items) =
    let later = position wanted items in
    if text_eq item wanted then some 0 else Option.map suc later

unfoldable pub positions : List Text → List Text → List ℕ
positions active [] = []
positions active (item ∷ items) = elim (position item active) [
  | none ↦ positions active items
  | some p ↦ p ∷ positions active items
]

-- The number of overrides, and their positions among the active ones in ascending order.
unfoldable pub override_rank : List Text → List Text → ℕ × List ℕ
override_rank overrides active = (length overrides, sort_by leb (positions active overrides))

-- A variant of a variable: its overrides, its value and its last place in the source.
pub record Candidate : Type 0 where
  pub overrides : List Text
  pub value : Text
  pub sequence : ℕ

-- The first comparison, and the second where the first ones are equal.
abbrev pub rank_lt : ℕ × List ℕ → ℕ × List ℕ → Bool
rank_lt (a, xs) (b, ys) = ltb a b || ((a == b) && lex_lt ltb ◌==◌ xs ys)

-- Not greater, by rank and then by sequence.
abbrev pub not_above : List Text → Candidate → Candidate → Bool
not_above active a b =
    rank_lt (override_rank a.overrides active) (override_rank b.overrides active)
    || (not (rank_lt (override_rank b.overrides active) (override_rank a.overrides active))
        && leb a.sequence b.sequence)

-- `max_by`: the last of the greatest.
unfoldable pub max_from {ℓ} : {A : Type ℓ} → (A → A → Bool) → A → List A → A
max_from le best [] = best
max_from le best (x ∷ xs) = max_from le (if le best x then x else best) xs

unfoldable pub max_by {ℓ} : {A : Type ℓ} → (A → A → Bool) → List A → Option A
unfolding max_from
max_by le [] = none
max_by le (x ∷ xs) = some (max_from le x xs)
