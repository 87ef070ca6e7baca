-- ===== src/Text/Maps.antt =====
-- `BTreeMap`: entries in ascending order of their keys. The order and the equality of the keys are
-- parameters; that of texts is the order of their bytes.
use bbtidy.Base.{
  Option, none, some, Bool, true, false, ◌&&◌, ◌||◌, List, [], ◌∷◌, ltb, ◌==◌, if◌then◌else◌,
}
use bbtidy.Text.Defs.{Text, text_eq}

module _ {ℓ κ} {K : Type ℓ} {A : Type κ} (lt same : K → K → Bool) where
  -- `get`
  unfoldable pub get : K → List (K × A) → Option A
  get key [] = none
  get key ((k, value) ∷ entries) =
      let later = get key entries in if same key k then some value else later

  -- `entry(key)` with what is put there, given what is there
  unfoldable pub update : K → (Option A → A) → List (K × A) → List (K × A)
  update key f [] = (key, f none) ∷ []
  update key f ((k, value) ∷ entries) =
      let later = update key f entries in
      if same key k
      then (k, f (some value)) ∷ entries
      else if lt key k
      then (key, f none) ∷ (k, value) ∷ entries
      else (k, value) ∷ later

-- Lists in the order of their first elements that differ.
unfoldable pub lex_lt {ℓ} : {A : Type ℓ} → (A → A → Bool) → (A → A → Bool) → List A → List A → Bool
lex_lt lt same [] [] = false
lex_lt lt same [] (y ∷ ys) = true
lex_lt lt same (x ∷ xs) [] = false
lex_lt lt same (x ∷ xs) (y ∷ ys) = lt x y || (same x y && lex_lt lt same xs ys)

unfoldable pub list_eq {ℓ} : {A : Type ℓ} → (A → A → Bool) → List A → List A → Bool
list_eq same [] [] = true
list_eq same (x ∷ xs) (y ∷ ys) = same x y && list_eq same xs ys
list_eq same _ _ = false

abbrev pub text_lt : Text → Text → Bool
text_lt = lex_lt ltb ◌==◌

-- Texts to texts, and its equality.
abbrev pub TextMap : Type 0
TextMap = List (Text × Text)

abbrev pub text_map_eq : TextMap → TextMap → Bool
text_map_eq = list_eq (λ a b. text_eq a.0 b.0 && text_eq a.1 b.1)
