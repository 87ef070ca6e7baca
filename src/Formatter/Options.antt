-- ===== src/Formatter/Options.antt =====
-- src/formatter.rs: the formatting options, and lines of a text.
use bbtidy.Base.{
  all, ℕ, ◌+◌, Option, none, some, Bool, ◌||◌, List, [], ◌∷◌, ◌==◌, if◌then◌else◌, is_empty,
}
use bbtidy.Text.{Text, text_eq, starts_with_whitespace}
use bbtidy.Scanner.Lines.{split_line_ending}

pub data MetadataListLayout : Type 0 where
  preserve one_per_line : MetadataListLayout

pub record FormatOptions : Type 0 where
  pub max_top_level_blank_lines : ℕ
  pub metadata_list_layout : MetadataListLayout

-- `FormatOptions::default`
abbrev pub default_options : FormatOptions
default_options = record { max_top_level_blank_lines = 1; metadata_list_layout = preserve }

abbrev first_of_line : ℕ → List Text → List Text
first_of_line c [] = (c ∷ []) ∷ []
first_of_line c (l ∷ ls) = (c ∷ l) ∷ ls

-- `s.split_inclusive('\n')`
unfoldable pub split_inclusive : Text → List Text
split_inclusive [] = []
split_inclusive (c ∷ cs) =
    let rest = split_inclusive cs in if c == b'\n' then (c ∷ []) ∷ rest else first_of_line c rest

-- The line endings of the lines that have one.
unfoldable pub line_endings : List Text → List Text
line_endings [] = []
line_endings (l ∷ ls) =
    let rest = line_endings ls in
    if is_empty (split_line_ending l).1 then rest else (split_line_ending l).1 ∷ rest

-- The first ending, if the others are the same.
unfoldable pub agreed : List Text → Option Text
agreed [] = none
agreed (e ∷ es) = if all (text_eq e) es then some e else none

unfoldable pub consistent_line_ending : Text → Option Text
consistent_line_ending s = agreed (line_endings (split_inclusive s))

-- `s.chars().any(char::is_whitespace)`
unfoldable pub has_whitespace : Text → Bool
has_whitespace [] = starts_with_whitespace []
has_whitespace (c ∷ cs) = starts_with_whitespace (c ∷ cs) || has_whitespace cs

-- A loop over numbered lines that may give up.
unfoldable pub fold_lines {ℓ} :
    {S : Type ℓ} → (ℕ → Text → S → Option S) → ℕ → List Text → S → Option S
fold_lines step number [] s = some s
fold_lines step number (l ∷ ls) s = elim (step number l s) [
  | none ↦ none
  | some s' ↦ fold_lines step (number + 1) ls s'
]
