-- ===== src/Overrides/Resolve.antt =====
-- src/overrides.rs: `resolve_override_list`, `resolve_with_active_overrides`,
-- `resolve_direct_entries` and `resolve_overrides`.
use bbtidy.Base.{
  ℕ, Option, none, some, Bool, true, false, not, ◌&&◌, ◌||◌, List, [], ◌∷◌, ◌++◌, map, any, all,
  is_empty, is_some, leb, max, if◌then◌else◌,
}
use bbtidy.Base.Sorting.{sort_by}
use bbtidy.Text.{Text, text, text_eq}
use bbtidy.Text.Maps.{update, text_lt, lex_lt, list_eq, TextMap}
use bbtidy.Scanner.Operators.{AssignmentOperator}
use bbtidy.Syntax.Tree.{SyntaxTree}
use bbtidy.Overrides.Keys.{
  OverrideOperation, unchanged, append, prepend, remove, KeyResult, refused, accepted,
}
use bbtidy.Overrides.ParseKey.{OverrideKey, parse_key, is_operation}
use bbtidy.Overrides.Rank.{Candidate, not_above, max_by}
use bbtidy.Overrides.Static.{
  RawAssignment, collect_assignments, static_value, known, resolve_static_environment,
  override_tokens,
}
use bbtidy.Overrides.Values.{apply_assignment_operator, remove_override_tokens}

pub record ResolvedAssignment : Type 0 where
  pub key : OverrideKey
  pub operator : AssignmentOperator
  pub value : Text
  pub sequence : ℕ

abbrev pub same_operation : OverrideOperation → OverrideOperation → Bool
same_operation unchanged unchanged = true
same_operation append append = true
same_operation prepend prepend = true
same_operation remove remove = true
same_operation _ _ = false

unfoldable pub apply_operation : OverrideOperation → Text → Text → Text
apply_operation unchanged value entry = value
apply_operation append value entry = value ++ entry
apply_operation prepend value entry = entry ++ value
apply_operation remove value entry = remove_override_tokens value entry

-- The entries of one operation, in their order.
unfoldable pub apply_entries : OverrideOperation → List (OverrideOperation × Text) → Text → Text
apply_entries operation [] value = value
apply_entries operation ((o, entry) ∷ entries) value =
    apply_entries operation entries
      (if same_operation o operation then apply_operation operation value entry else value)

-- All appends, then all prepends, then all removals.
unfoldable pub apply_operations : List (OverrideOperation × Text) → Text → Text
unfolding apply_entries
apply_operations entries value =
    apply_entries remove entries
      (apply_entries prepend entries (apply_entries append entries value))

-- `resolve_override_list`: the value so far, and the operations with their sequence.
pub record OverrideList : Type 0 where
  pub value : Text
  pub operations : List ((OverrideOperation × Text) × ℕ)

abbrev pub is_overrides_key : OverrideKey → Bool
is_overrides_key key =
    text_eq key.base (text "OVERRIDES") && is_empty key.overrides && not (is_some key.flag)

unfoldable pub override_list_step : TextMap → RawAssignment → OverrideList → OverrideList
override_list_step known_values a s = elim (parse_key (λ _. none) a.name []) [
  | refused e ↦ s
  | accepted key ↦
      if not (is_overrides_key key) then s else elim (static_value a.value (known known_values)) [
        | none ↦ s
        | some value ↦
            if is_operation key.operation
            then record s { operations = s.operations ++ ((key.operation, value), a.sequence) ∷ [] }
            else record s { value = apply_assignment_operator s.value a.operator value }
      ]
]

unfoldable pub override_list_from : TextMap → List RawAssignment → OverrideList → OverrideList
override_list_from known_values [] s = s
override_list_from known_values (a ∷ assignments) s =
    override_list_from known_values assignments (override_list_step known_values a s)

unfoldable pub resolve_override_list : List RawAssignment → Text
resolve_override_list assignments =
    let s =
      override_list_from (resolve_static_environment assignments) assignments
        (record { value = []; operations = [] }) in
    apply_operations (map (λ entry. entry.0) (sort_by (λ a b. leb a.1 b.1) s.operations)) s.value

-- The entries of a base whose operator or operation is applied by `entry.key.key_expanded` and
-- sequence.
abbrev pub entry_before : ResolvedAssignment → ResolvedAssignment → Bool
entry_before a b =
    if a.key.key_expanded
    then b.key.key_expanded && leb a.sequence b.sequence
    else b.key.key_expanded || leb a.sequence b.sequence

unfoldable pub keep_entries {ℓ} : {A : Type ℓ} → (A → Bool) → List A → List A
keep_entries p [] = []
keep_entries p (e ∷ entries) =
    let later = keep_entries p entries in if p e then e ∷ later else later

unfoldable pub apply_assignments : List ResolvedAssignment → Text → Text
apply_assignments [] value = value
apply_assignments (e ∷ entries) value =
    apply_assignments entries (apply_assignment_operator value e.operator e.value)

-- A variant while its entries are read: value, sequence and operations.
pub record Variant : Type 0 where
  pub value : Text
  pub sequence : ℕ
  pub operations : List (OverrideOperation × Text)

unfoldable pub add_entry : ResolvedAssignment → Option Variant → Variant
add_entry e found =
    let v : Variant = elim found [
      | none ↦ record { value = []; sequence = 0; operations = [] }
      | some v ↦ v
    ] in
    let v' = record v { sequence = max v.sequence e.sequence } in
    if not (is_operation e.key.operation)
    then record v' { value = apply_assignment_operator v.value e.operator e.value }
    else if e.key.operation_on_selected_value
    then record v' { operations = v.operations ++ (e.key.operation, e.value) ∷ [] }
    else v'

abbrev pub texts_lt : List Text → List Text → Bool
texts_lt = lex_lt text_lt text_eq

unfoldable pub add_variants :
    List ResolvedAssignment → List (List Text × Variant) → List (List Text × Variant)
add_variants [] variants = variants
add_variants (e ∷ entries) variants =
    add_variants entries (update texts_lt (list_eq text_eq) e.key.overrides (add_entry e) variants)

abbrev pub candidate_of : List Text × Variant → Candidate
candidate_of (overrides, v) = record {
  overrides = overrides;
  value = apply_operations v.operations v.value;
  sequence = v.sequence;
}

abbrev pub is_base_entry : ResolvedAssignment → Bool
is_base_entry e = not (is_operation e.key.operation) && is_empty e.key.overrides

abbrev pub is_variant_entry : ResolvedAssignment → Bool
is_variant_entry e =
    not (is_empty e.key.overrides)
    && (not (is_operation e.key.operation) || e.key.operation_on_selected_value)

unfoldable pub base_value : List ResolvedAssignment → Text
base_value entries =
    apply_assignments (sort_by entry_before (keep_entries is_base_entry entries)) []

unfoldable pub variant_candidates : List ResolvedAssignment → List Candidate
variant_candidates entries =
    map candidate_of
      (add_variants (sort_by entry_before (keep_entries is_variant_entry entries)) [])

unfoldable pub resolve_direct_entries : List ResolvedAssignment → List Text → Text
resolve_direct_entries entries active =
    elim (max_by (not_above active) (variant_candidates entries)) [
      | none ↦ base_value entries
      | some selected ↦ selected.value
    ]

-- `resolve_with_active_overrides`: the assignment of an entry, if it counts.
unfoldable pub resolved_entry : List Text → TextMap → RawAssignment → Option ResolvedAssignment
resolved_entry active known_values a = elim (parse_key (known known_values) a.name active) [
  | refused e ↦ none
  | accepted key ↦
      if is_some key.flag
        || key.dynamic
        || not (all (λ item. any (text_eq item) active) key.overrides)
      then none
      else elim (static_value a.value (known known_values)) [
        | none ↦ none
        | some value ↦
            some (record { key = key; operator = a.operator; value = value; sequence = a.sequence })
      ]
]

unfoldable pub group_entries :
    List Text
    → TextMap
    → List RawAssignment
    → List (Text × List ResolvedAssignment)
    → List (Text × List ResolvedAssignment)
group_entries active known_values [] grouped = grouped
group_entries active known_values (a ∷ assignments) grouped =
    group_entries active known_values assignments (elim (resolved_entry active known_values a) [
      | none ↦ grouped
      | some entry ↦
          update text_lt text_eq entry.key.base
            (λ old. elim old [ none ↦ entry ∷ [] | some entries ↦ entries ++ entry ∷ [] ]) grouped
    ])

-- The operations of a base that are not on a selected value.
abbrev pub late_operations : List ResolvedAssignment → List (OverrideOperation × Text)
late_operations entries =
    map (λ (e : ResolvedAssignment). (e.key.operation, e.value))
      (keep_entries (λ (e : ResolvedAssignment). not e.key.operation_on_selected_value) entries)

unfoldable pub resolve_entries : List Text → List ResolvedAssignment → Text
resolve_entries active entries =
    let ordered = sort_by (λ (a b : ResolvedAssignment). leb a.sequence b.sequence) entries in
    apply_operations (late_operations ordered) (resolve_direct_entries ordered active)

-- `active_overrides.join(":")`
unfoldable pub join_overrides : List Text → Text
join_overrides [] = []
join_overrides (o ∷ []) = o
join_overrides (o ∷ p ∷ os) = o ++ (b':' ∷ join_overrides (p ∷ os))

pub record OverrideResolution : Type 0 where
  pub overrides : List Text
  pub values : TextMap

-- The set of active overrides in its order, for `parse_key`.
unfoldable pub ordered_set : List Text → List (Text × Unit {0}) → List (Text × Unit {0})
ordered_set [] s = s
ordered_set (t ∷ ts) s = ordered_set ts (update text_lt text_eq t (λ _. tt) s)

unfoldable pub resolve_with_active_overrides : List RawAssignment → List Text → OverrideResolution
resolve_with_active_overrides assignments active_overrides =
    let active = map (λ entry. entry.0) (ordered_set active_overrides []) in
    let grouped = group_entries active (resolve_static_environment assignments) assignments [] in
    record {
      overrides = active_overrides;
      values =
          update text_lt text_eq (text "OVERRIDES") (λ _. join_overrides active_overrides)
            (map (λ entry. (entry.0, resolve_entries active_overrides entry.1)) grouped);
    }

unfoldable pub resolve_overrides : SyntaxTree → OverrideResolution
resolve_overrides tree =
    let raw = collect_assignments tree in
    resolve_with_active_overrides raw (override_tokens (resolve_override_list raw))

-- The names that are not empty, each where it stands first.
unfoldable pub named_overrides : List Text → List Text → List Text
named_overrides seen [] = []
named_overrides seen (value ∷ values) =
    let dropped = named_overrides seen values in
    let kept = named_overrides (value ∷ seen) values in
    if is_empty value || any (text_eq value) seen then dropped else value ∷ kept

unfoldable pub resolve_overrides_with_active : SyntaxTree → List Text → OverrideResolution
unfolding named_overrides
resolve_overrides_with_active tree active_overrides =
    resolve_with_active_overrides (collect_assignments tree) (named_overrides [] active_overrides)

unfoldable pub parse_override_key_with_overrides : Text → List Text → KeyResult OverrideKey
parse_override_key_with_overrides name active_overrides =
    parse_key (λ _. none) name (map (λ entry. entry.0) (ordered_set active_overrides []))

abbrev pub parse_override_key : Text → KeyResult OverrideKey
parse_override_key name = parse_override_key_with_overrides name []
