-- ===== src/Overrides/Legacy.antt =====
-- src/overrides.rs: legacy underscore notation. The set of active overrides is the list of its
-- elements in order.
use bbtidy.Base.{
  ℕ, zero, suc, ◌+◌, ◌-◌, Option, none, some, Bool, true, false, not, ◌&&◌, ◌||◌, List, [], ◌∷◌,
  ◌++◌, length, take, drop, is_empty, is_some, leb, ◌==◌, if◌then◌else◌,
}
use bbtidy.Text.{Text, text, find, rfind, find_byte, strip_suffix}
use bbtidy.Text.Scan.{Move, go, stop, scan}
use bbtidy.Overrides.Keys.{
  OverrideOperation, unchanged, append, prepend, remove, KeyResult, refused, accepted,
  more_than_one_legacy_operation,
}

unfoldable pub inside_reference : Text → ℕ → Bool
inside_reference name index =
    let prefix = take index name in
    elim (rfind prefix (text "${")) [
      | none ↦ false
      | some start ↦ not (is_some (find_byte (drop (start + 2) prefix) b'}'))
    ]

-- The place of an operation that was found: its start, its end and itself.
abbrev pub Found : Type 0
Found = Option (ℕ × ℕ × OverrideOperation)

abbrev pub at_boundary : Text → ℕ → Bool
at_boundary name end =
    (end == length name) || elim (drop end name) [ [] ↦ false | c ∷ _ ↦ c == b'_' ]

-- One round of the `while let` for one operation; the index is `search`.
unfoldable pub marker_step :
    Text → Text → OverrideOperation → ℕ → Text → Found → Move Found (KeyResult Found)
marker_step name marker operation search rest found = elim (find rest marker) [
  | none ↦ stop (accepted found)
  | some relative ↦
      let start = search + relative in
      let end = start + length marker in
      if at_boundary name end && not (inside_reference name start)
      then if is_some found
        then stop (refused more_than_one_legacy_operation)
        else go (some (start, end, operation)) (end - (search + 1))
      else go found (end - (search + 1))
]

unfoldable pub find_marker : Text → Text → OverrideOperation → Found → KeyResult Found
find_marker name marker operation found =
    scan (marker_step name marker operation) (λ found. accepted found) 0 0 found name

infixl 5 ◌>>=◌
abbrev pub ◌>>=◌ {ℓ} : {A B : Type ℓ} (part : KeyResult A) (rest : A → KeyResult B) → KeyResult B
◌>>=◌ (refused error) rest = refused error
◌>>=◌ (accepted value) rest = rest value

pub record LegacyOperation : Type 0 where
  pub without_operation : Text
  pub operation : OverrideOperation
  pub had_operation : Bool
  pub operation_after_suffix : Bool

abbrev pub compacted : Text → Found → LegacyOperation
compacted name none = record {
  without_operation = name;
  operation = unchanged;
  had_operation = false;
  operation_after_suffix = false;
}
compacted name (some (start, end, operation)) = record {
  without_operation = take start name ++ drop end name;
  operation = operation;
  had_operation = true;
  operation_after_suffix = is_empty (drop end name) && not (is_empty (take start name));
}

unfoldable pub remove_legacy_operation : Text → KeyResult LegacyOperation
remove_legacy_operation name = find_marker name (text "_append") append none >>= λ found.
    find_marker name (text "_prepend") prepend found >>= λ found.
    find_marker name (text "_remove") remove found >>= λ found. accepted (compacted name found)

-- The candidates of `longest_legacy_suffix`: what is before the suffix, and the component.
unfoldable pub legacy_suffixes : Text → List Text → List (Text × Text)
legacy_suffixes name [] = []
legacy_suffixes name (component ∷ active) =
    let later = legacy_suffixes name active in
    elim (strip_suffix name (text "_" ++ component)) [
      | none ↦ later
      | some prefix ↦ if is_empty prefix then later else (prefix, component) ∷ later
    ]

-- `max_by_key`: the last of the longest.
unfoldable pub longest_component : List (Text × Text) → Option (Text × Text)
longest_component [] = none
longest_component (candidate ∷ candidates) = elim (longest_component candidates) [
  | none ↦ some candidate
  | some best ↦ if leb (length candidate.1) (length best.1) then some best else some candidate
]

unfoldable pub longest_legacy_suffix : Text → List Text → Option (Text × Text)
longest_legacy_suffix name active = longest_component (legacy_suffixes name active)

-- The `loop`: the components are found last first, and the list is that of the `reverse` behind it.
unfoldable pub legacy_components : ℕ → List Text → Text → List Text → Text × List Text
legacy_components zero active base components = (base, components)
legacy_components (suc fuel) active base components = elim (longest_legacy_suffix base active) [
  | none ↦ (base, components)
  | some (prefix, component) ↦ legacy_components fuel active prefix (component ∷ components)
]
