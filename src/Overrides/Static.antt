-- ===== src/Overrides/Static.antt =====
-- src/overrides.rs: statically known values, `collect_assignments`, `static_value`,
-- `resolve_static_environment` and `override_tokens`.
use bbtidy.Base.{
  ℕ, zero, suc, ◌+◌, ◌-◌, Option, none, some, Bool, not, ◌&&◌, ◌||◌, List, [], ◌∷◌, ◌++◌, length,
  any, is_empty, is_some, leb, ltb, ◌==◌, if◌then◌else◌,
}
use bbtidy.Base.Sorting.{sort_by}
use bbtidy.Text.{Text, slice, text_eq, trim, ends_with, is_quote, is_ascii_whitespace}
use bbtidy.Text.Maps.{get, update, text_lt, TextMap, text_map_eq}
use bbtidy.Scanner.Operators.{AssignmentOperator}
use bbtidy.Syntax.Tree.{assignment, SyntaxNode, SyntaxTree}
use bbtidy.Overrides.Keys.{refused, accepted}
use bbtidy.Overrides.References.{expand_references}
use bbtidy.Overrides.ParseKey.{OverrideKey, parse_key, is_operation, contains_reference}
use bbtidy.Overrides.Values.{apply_assignment_operator}

pub record RawAssignment : Type 0 where
  pub name : Text
  pub operator : AssignmentOperator
  pub value : Text
  pub sequence : ℕ

unfoldable pub collect_from : ℕ → List SyntaxNode → List RawAssignment
collect_from sequence [] = []
collect_from sequence (n ∷ ns) =
    let later = collect_from (sequence + 1) ns in
    elim n.kind [
      | assignment a ↦
          record { name = a.name; operator = a.operator; value = a.value; sequence = sequence }
          ∷ later
      | _ ↦ later
    ]

unfoldable pub collect_assignments : SyntaxTree → List RawAssignment
collect_assignments tree = collect_from 0 tree.nodes

-- `replace("\\\n", " ")`
unfoldable pub join_lines : Text → Text
join_lines [] = []
join_lines (c ∷ []) = c ∷ []
join_lines (c ∷ d ∷ s) =
    let joined = join_lines s in
    let later = join_lines (d ∷ s) in
    if (c == b'\\') && (d == b'\n') then b' ' ∷ joined else c ∷ later

-- The text between the quotes, or a text without quotes.
unfoldable pub unquoted_value : Text → Option Text
unquoted_value [] = some []
unquoted_value (c ∷ s) =
    if is_quote c
    then if not (ends_with (c ∷ s) (c ∷ [])) || ltb (length (c ∷ s)) 2
      then none
      else some (slice 1 (length (c ∷ s) - 1) (c ∷ s))
    else some (c ∷ s)

unfoldable pub static_value : Text → (Text → Option Text) → Option Text
static_value raw values = elim (unquoted_value (trim raw)) [
  | none ↦ none
  | some value ↦
      let expanded = expand_references values value in
      if expanded.dynamic then none else some (join_lines expanded.output)
]

abbrev pub known : TextMap → Text → Option Text
known values name = get text_lt text_eq name values

-- The sort key `(name.contains("${"), sequence)`.
abbrev pub literal_before : RawAssignment → RawAssignment → Bool
literal_before a b =
    if contains_reference a.name
    then contains_reference b.name && leb a.sequence b.sequence
    else contains_reference b.name || leb a.sequence b.sequence

-- An assignment that `resolve_static_environment` applies.
abbrev pub is_plain : OverrideKey → Bool
is_plain key = not (is_some key.flag) && is_empty key.overrides && not (is_operation key.operation)

unfoldable pub apply_static : TextMap → RawAssignment → TextMap → TextMap
apply_static known_values a next = elim (parse_key (known known_values) a.name []) [
  | refused e ↦ next
  | accepted key ↦
      if not (is_plain key) then next else elim (static_value a.value (known known_values)) [
        | none ↦ next
        | some value ↦
            update text_lt text_eq key.base
              (λ old.
                apply_assignment_operator (elim old [ none ↦ [] | some t ↦ t ]) a.operator value)
              next
      ]
]

unfoldable pub static_round : TextMap → List RawAssignment → TextMap → TextMap
static_round known_values [] next = next
static_round known_values (a ∷ ordered) next =
    static_round known_values ordered (apply_static known_values a next)

-- The values that one round reads off the assignments.
abbrev pub next_environment : List RawAssignment → TextMap → TextMap
next_environment assignments known_values =
    static_round known_values (sort_by literal_before assignments) []

unfoldable pub static_rounds : ℕ → List RawAssignment → TextMap → TextMap
static_rounds zero assignments known_values = known_values
static_rounds (suc rounds) assignments known_values =
    let next = next_environment assignments known_values in
    let later = static_rounds rounds assignments next in
    if text_map_eq next known_values then known_values else later

unfoldable pub resolve_static_environment : List RawAssignment → TextMap
resolve_static_environment assignments = static_rounds (length assignments + 1) assignments []

abbrev pub is_separator : ℕ → Bool
is_separator c = (c == b':') || is_ascii_whitespace c

-- The tokens between separators, each where it stands first; `word` is the part of one that was
-- read.
unfoldable pub tokens_from : List Text → Text → Text → List Text
tokens_from seen word [] = if is_empty word || any (text_eq word) seen then [] else word ∷ []
tokens_from seen word (c ∷ s) =
    let longer = tokens_from seen (word ++ c ∷ []) s in
    let dropped = tokens_from seen [] s in
    let kept = tokens_from (word ∷ seen) [] s in
    if is_separator c
    then if is_empty word || any (text_eq word) seen then dropped else word ∷ kept
    else longer

unfoldable pub override_tokens : Text → List Text
override_tokens value = tokens_from [] [] value
