-- ===== src/Formatter/Directives.antt =====
-- src/formatter.rs: static lists in directives.
use bbtidy.Base.{
  ℕ, Option, none, some, Bool, true, false, not, ◌&&◌, ◌||◌, List, [], ◌∷◌, ◌++◌, length, any,
  is_empty, is_some, ltb, ◌==◌, if◌then◌else◌,
}
use bbtidy.Text.{Text, text, text_eq, strip_suffix, contains, trim, is_quote}
use bbtidy.Scanner.Lines.{split_line_ending}
use bbtidy.Scanner.Quotes.{comment_start}
use bbtidy.Syntax.Tree.{
  DirectiveKeyword, add_fragments, add_py_lib, add_task, DirectiveSyntax, SyntaxNode,
}
use bbtidy.Syntax.Definitions.{split_ascii_whitespace}
use bbtidy.Formatter.Options.{has_whitespace, split_inclusive, fold_lines}
use bbtidy.Formatter.Values.{Items, list_line_ending}

pub record StaticDirectiveList : Type 0 where
  pub items : List Text
  pub line_ending : Text
  pub final_line_ending : Text

unfoldable pub is_list_directive : DirectiveKeyword → Bool
is_list_directive add_fragments = false
is_list_directive add_py_lib = false
is_list_directive add_task = false
is_list_directive _ = true

unfoldable pub is_static_directive_item : Text → Bool
is_static_directive_item item =
    not (is_empty item)
    && not (
        has_whitespace item
        || any (λ c. (c == b'$') || (c == b'{') || (c == b'}') || (c == b'\\') || is_quote c) item)

-- An item of a line; the flag says whether the line is continued.
unfoldable pub add_directive_item : ℕ → Text → Bool → Items → Option Items
add_directive_item number item continued s =
    if is_empty item
    then if (number == 0) && continued then some s else none
    else if not (is_static_directive_item item)
    then none
    else some (record s { items = s.items ++ item ∷ [] })

unfoldable pub directive_line : Text → ℕ → Text → Items → Option Items
directive_line line_ending number line s =
    let (bare, current) = split_line_ending line in
    let content = trim bare in
    if not (is_empty current) && not (text_eq current line_ending)
    then none
    else if is_empty content || contains content b'#'
    then none
    else elim (strip_suffix content (text "\\")) [
      | some before ↦
          add_directive_item number (trim before) true (record s { has_continuation = true })
      | none ↦ add_directive_item number content false s
    ]

unfoldable pub directive_items : Bool → Text → Text → Option (List Text)
directive_items false line_ending arguments =
    let items = split_ascii_whitespace arguments in
    if is_some (comment_start arguments)
    then none
    else if ltb (length items) 2 || any (λ i. not (is_static_directive_item i)) items
    then none
    else some items
directive_items true line_ending arguments =
    elim (fold_lines (directive_line line_ending) 0 (split_inclusive arguments)
      (record { items = []; has_continuation = false })) [
        | none ↦ none
        | some s ↦ if not s.has_continuation || ltb (length s.items) 2 then none else some s.items
      ]

unfoldable pub parse_static_directive_list :
    SyntaxNode → DirectiveSyntax → Option StaticDirectiveList
parse_static_directive_list node d =
    if not (is_list_directive d.keyword)
    then none
    else elim (list_line_ending d.continued node.contents) [
      | none ↦ none
      | some line_ending ↦ elim (directive_items d.continued line_ending d.arguments) [
        | none ↦ none
        | some items ↦ some (record {
          items = items;
          line_ending = line_ending;
          final_line_ending = (split_line_ending node.contents).1;
        })
      ]
    ]
