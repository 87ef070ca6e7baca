-- ===== src/Overrides/ParseKey.antt =====
-- src/overrides.rs: `OverrideKey` and `parse_key`.
use bbtidy.Base.{
  ℕ, ◌+◌, Option, none, some, Bool, true, false, not, ◌&&◌, ◌||◌, List, [], ◌∷◌, ◌++◌, map, any,
  length, is_empty, is_some, ltb, if◌then◌else◌,
}
use bbtidy.Text.{Text, text, find, contains}
use bbtidy.Overrides.Keys.{
  OverrideOperation, unchanged, KeyResult, refused, accepted, empty_base, more_than_one_operation,
  split_flag, operation_for,
}
use bbtidy.Overrides.Components.{split_components}
use bbtidy.Overrides.References.{expand_references}
use bbtidy.Overrides.Legacy.{◌>>=◌, LegacyOperation, remove_legacy_operation, legacy_components}

pub record OverrideKey : Type 0 where
  pub raw : Text
  pub base : Text
  pub overrides : List Text
  pub operation : OverrideOperation
  pub flag : Option Text
  pub legacy : Bool
  pub dynamic : Bool
  pub operation_on_selected_value : Bool
  pub key_expanded : Bool

-- The loop variables over the parts behind the base.
pub record ModernParts : Type 0 where
  pub operation : OverrideOperation
  pub operation_position : Option ℕ
  pub components : List Text

abbrev pub is_operation : OverrideOperation → Bool
is_operation unchanged = false
is_operation _ = true

unfoldable pub modern_parts : ℕ → List Text → ModernParts → KeyResult ModernParts
modern_parts position [] m = accepted m
modern_parts position (component ∷ parts) m =
    let chosen = λ (operation : OverrideOperation).
      modern_parts (position + 1) parts
        (record m { operation = operation; operation_position = some position }) in
    let kept =
      modern_parts (position + 1) parts
        (record m { components = m.components ++ component ∷ [] }) in
    elim (operation_for component) [
      | some candidate ↦
          if is_operation m.operation then refused more_than_one_operation else chosen candidate
      | none ↦ kept
    ]

abbrev pub contains_reference : Text → Bool
contains_reference s = is_some (find s (text "${"))

-- `operation_position.is_some_and(|position| position > 0)`
abbrev pub behind_overrides : Option ℕ → Bool
behind_overrides none = false
behind_overrides (some position) = ltb 0 position

module _ (values : Text → Option Text) where
  -- `expand_components`
  unfoldable pub expand_components : List Text → List Text × Bool
  expand_components components = (
    map (λ c. (expand_references values c).output) components,
    any (λ c. (expand_references values c).dynamic) components,
  )

  unfoldable pub modern_key : Text → Option Text → List Text → KeyResult OverrideKey
  modern_key name flag [] = refused empty_base
  modern_key name flag (base ∷ parts) =
      if is_empty base
      then refused empty_base
      else modern_parts 0 parts
          (record { operation = unchanged; operation_position = none; components = [] })
        >>= λ m. accepted (record {
          raw = name;
          base = (expand_references values base).output;
          overrides = (expand_components m.components).0;
          operation = m.operation;
          flag = flag;
          legacy = false;
          dynamic = (expand_references values base).dynamic || (expand_components m.components).1;
          operation_on_selected_value = behind_overrides m.operation_position;
          key_expanded = contains_reference base || any contains_reference m.components;
        })

  unfoldable pub legacy_key : Text → Text → Option Text → List Text → LegacyOperation → OverrideKey
  legacy_key name body flag active l =
      let (base, components) =
        legacy_components (length l.without_operation) active l.without_operation [] in
      record {
        raw = name;
        base = (expand_references values base).output;
        overrides = components;
        operation = l.operation;
        flag = flag;
        legacy = l.had_operation || not (is_empty components) || contains body b'_';
        dynamic = (expand_references values base).dynamic;
        operation_on_selected_value =
            l.had_operation && l.operation_after_suffix && not (is_empty components);
        key_expanded = contains_reference base || any contains_reference components;
      }

  unfoldable pub parse_key : Text → List Text → KeyResult OverrideKey
  parse_key name active = split_flag name >>= λ (body, flag).
      if contains body b':'
      then (split_components body >>= λ parts. modern_key name flag parts)
      else remove_legacy_operation body >>= λ l. accepted (legacy_key name body flag active l)
