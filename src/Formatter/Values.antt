-- ===== src/Formatter/Values.antt =====
-- src/formatter.rs: static metadata lists in assignments.
use mathlib.Core.Option
use bbtidy.Base.{
  reverse, ℕ, Option, none, some, Bool, true, false, not, ◌&&◌, ◌||◌, List, [], ◌∷◌, ◌++◌, length,
  take, drop, head?, any, is_empty, ltb, ◌==◌, if◌then◌else◌,
}
use bbtidy.Text.{
  Text, text, text_eq, strip_prefix, strip_suffix, starts_with, trim_start_matches,
  trim_end_matches, is_space_or_tab, is_quote,
}
use bbtidy.Text.Scan.{Move, go, stop, scan}
use bbtidy.Scanner.Lines.{split_line_ending, newline}
use bbtidy.Scanner.Shell.{holds_at}
use bbtidy.Syntax.Tree.{AssignmentSyntax, SyntaxNode}
use bbtidy.Syntax.Definitions.{split_ascii_whitespace}
use bbtidy.Formatter.Options.{consistent_line_ending, has_whitespace, split_inclusive, fold_lines}

pub record StaticMetadataList : Type 0 where
  pub quote : ℕ
  pub items : List Text
  pub closing_tail : Text
  pub line_ending : Text

abbrev list_variables : List Text
list_variables =
    text "BBFILE_COLLECTIONS"
    ∷ text "BBFILES"
    ∷ text "BBLAYERS"
    ∷ text "COMBINED_FEATURES"
    ∷ text "CONFFILES"
    ∷ text "DEPENDS"
    ∷ text "DISTRO_FEATURES"
    ∷ text "EXTRA_IMAGE_FEATURES"
    ∷ text "FILES"
    ∷ text "IMAGE_FEATURES"
    ∷ text "IMAGE_LINGUAS"
    ∷ text "INHERIT"
    ∷ text "LAYERDEPENDS"
    ∷ text "MACHINE_FEATURES"
    ∷ text "PACKAGECONFIG"
    ∷ text "PACKAGES"
    ∷ text "PROVIDES"
    ∷ text "RCONFLICTS"
    ∷ text "RDEPENDS"
    ∷ text "RRECOMMENDS"
    ∷ text "RREPLACES"
    ∷ text "RSUGGESTS"
    ∷ text "SRC_URI"
    ∷ text "USER_CLASSES"
    ∷ []

-- `name` is `base`, or goes on behind it with an override or a legacy suffix.
abbrev names_list : Text → Text → Bool
names_list name base = text_eq name base || elim (strip_prefix name base) [
  | none ↦ false
  | some suffix ↦ starts_with suffix (text ":") || starts_with suffix (text "_")
]

unfoldable pub is_known_metadata_list : Text → Bool
is_known_metadata_list name = any (names_list name) list_variables

unfoldable pub is_comment_or_whitespace : Text → Bool
is_comment_or_whitespace s =
    let trimmed = trim_start_matches is_space_or_tab s in
    is_empty trimmed || starts_with trimmed (text "#")

-- One character of the loop of `split_closing_quote`; the state is `escaped`.
unfoldable pub closing_step : Text → ℕ → ℕ → Text → Bool → Move Bool (Option (Text × Text))
closing_step value quote index [] escaped = go escaped 0
closing_step value quote index (c ∷ cs) escaped =
    if c == b'\\'
    then go (not escaped) 0
    else if (c == quote) && not escaped && is_comment_or_whitespace cs
    then stop (some (take index value, cs))
    else go false 0

unfoldable pub split_closing_quote : Text → ℕ → Option (Text × Text)
split_closing_quote value quote = scan (closing_step value quote) (λ _. none) 0 0 false value

unfoldable pub is_static_metadata_list_item : Text → ℕ → Bool
is_static_metadata_list_item item quote =
    not (is_empty item)
    && not (
        has_whitespace item
        || any (λ c. (c == b'$') || (c == b'{') || (c == b'}') || (c == b'\\') || (c == quote))
            item)

pub record Items : Type 0 where
  pub items : List Text
  pub has_continuation : Bool

abbrev add_item : Text → Items → Items
add_item item s = record s { items = s.items ++ item ∷ [] }

-- The last line of a value, which has no line ending.
unfoldable pub last_value_line : ℕ → Text → Items → Option Items
last_value_line quote content s =
    if is_empty content
    then some s
    else if not (text_eq (trim_end_matches is_space_or_tab content) content)
    then none
    else if not (is_static_metadata_list_item content quote)
    then none
    else some (add_item content s)

-- `s.ends_with([' ', '\t'])`
abbrev ends_in_blank : Text → Bool
ends_in_blank s = holds_at is_space_or_tab (head? (reverse s))

-- A line that ends in a backslash; `before` is what stands in front of it.
unfoldable pub continued_value_line : ℕ → ℕ → Text → Items → Option Items
continued_value_line quote number before s =
    if is_empty before
    then if not (number == 0) then none else some (record s { has_continuation = true })
    else if not (ends_in_blank before)
    then none
    else if not (is_static_metadata_list_item (trim_end_matches is_space_or_tab before) quote)
    then none
    else some
        (add_item (trim_end_matches is_space_or_tab before) (record s { has_continuation = true }))

unfoldable pub value_line : ℕ → Text → ℕ → Text → Items → Option Items
value_line quote line_ending number line s =
    let (bare, current) = split_line_ending line in
    let content = trim_start_matches is_space_or_tab bare in
    if not (is_empty current) && not (text_eq current line_ending)
    then none
    else if is_empty current
    then last_value_line quote content s
    else elim (strip_suffix content (text "\\")) [
      | none ↦ none
      | some before ↦ continued_value_line quote number before s
    ]

abbrev enough : List Text → Bool
enough items = not (ltb (length items) 2)

-- The items of the contents between the quotes.
unfoldable pub value_items : Bool → ℕ → Text → Text → Option (List Text)
value_items false quote line_ending contents =
    let items = split_ascii_whitespace contents in
    if not (enough items) || any (λ i. not (is_static_metadata_list_item i quote)) items
    then none
    else some items
value_items true quote line_ending contents =
    elim (fold_lines (value_line quote line_ending) 0 (split_inclusive contents)
      (record { items = []; has_continuation = false })) [
        | none ↦ none
        | some s ↦ if not s.has_continuation || not (enough s.items) then none else some s.items
      ]

-- The ending for the lines of a list: a continued node must have one that is consistent.
unfoldable pub list_line_ending : Bool → Text → Option Text
list_line_ending true s = consistent_line_ending s
list_line_ending false s = some (Option.get_or (consistent_line_ending s) newline)

unfoldable pub parse_static_metadata_list :
    SyntaxNode → AssignmentSyntax → Option StaticMetadataList
parse_static_metadata_list node a =
    let value = trim_start_matches is_space_or_tab a.value in
    if not (is_known_metadata_list a.name)
    then none
    else elim (list_line_ending a.continued node.contents) [
      | none ↦ none
      | some line_ending ↦ elim (head? value) [
        | none ↦ none
        | some quote ↦
            if not (is_quote quote) then none else elim (split_closing_quote (drop 1 value) quote) [
              | none ↦ none
              | some (contents, closing_tail) ↦
                  if not (is_comment_or_whitespace closing_tail)
                  then none
                  else elim (value_items a.continued quote line_ending contents) [
                    | none ↦ none
                    | some items ↦ some (record {
                      quote = quote;
                      items = items;
                      closing_tail = closing_tail;
                      line_ending = line_ending;
                    })
                  ]
            ]
      ]
    ]
