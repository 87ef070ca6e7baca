-- ===== src/Formatter/Output.antt =====
-- src/formatter.rs: what the formatter writes for each node. The functions that push onto
-- `output` return the text that they push; only blank lines look at the output so far.
use bbtidy.Base.{
  ℕ, suc, ◌-◌, Option, none, some, Bool, not, ◌||◌, List, [], ◌∷◌, ◌++◌, take, reverse, is_empty,
  leb, if◌then◌else◌,
}
use bbtidy.Text.{Text, text, contains, trim_end, trim_start_matches, is_space_or_tab}
use bbtidy.Scanner.Lines.{split_line_ending, is_blank_line}
use bbtidy.Scanner.Operators.{operator_lexeme}
use bbtidy.Syntax.Tree.{
  AssignmentSyntax, DirectiveSyntax, keyword_lexeme, SyntaxKind, blank, assignment, directive,
  SyntaxNode, SyntaxTree,
}
use bbtidy.Syntax.Result.{Result, ok, ◌>>=◌}
use bbtidy.Syntax.Parse.{parse}
use bbtidy.Formatter.Options.{
  MetadataListLayout, preserve, one_per_line, FormatOptions, default_options, split_inclusive,
}
use bbtidy.Formatter.Values.{StaticMetadataList, parse_static_metadata_list}
use bbtidy.Formatter.Directives.{StaticDirectiveList, parse_static_directive_list}

unfoldable pub is_format_safe_assignment : AssignmentSyntax → Bool
is_format_safe_assignment a = not (contains a.name b'/')

unfoldable pub assignment_left : SyntaxNode → AssignmentSyntax → Text
assignment_left node a =
    if a.exported
    then text "export " ++ a.name
    else trim_end (take (a.operator_range.start - node.range.start) node.contents)

abbrev indent : Text
indent = text "    "

abbrev continuation : Text
continuation = text " \\"

unfoldable pub list_lines : Text → List Text → Text
list_lines line_ending [] = []
list_lines line_ending (i ∷ is) =
    indent ++ (i ++ (continuation ++ (line_ending ++ list_lines line_ending is)))

unfoldable pub format_metadata_list : SyntaxNode → AssignmentSyntax → StaticMetadataList → Text
format_metadata_list node a list =
    assignment_left node a
    ++ (text " "
        ++ (operator_lexeme a.operator
            ++ (text " "
                ++ (list.quote
                    ∷ (continuation
                        ++ (list.line_ending
                            ++ (list_lines list.line_ending list.items
                                ++ (indent
                                    ++ (list.quote
                                        ∷ (list.closing_tail
                                            ++ (split_line_ending node.contents).1))))))))))

unfoldable pub format_plain_assignment : SyntaxNode → AssignmentSyntax → Text
format_plain_assignment node a =
    let value = trim_start_matches is_space_or_tab a.value in
    assignment_left node a
    ++ (text " "
        ++ (operator_lexeme a.operator
            ++ ((if is_empty value then [] else text " " ++ value)
                ++ (split_line_ending node.contents).1)))

-- `none` where the layout is not asked for, or the value is no static list.
abbrev list_of {ℓ} : {A : Type ℓ} → MetadataListLayout → Option A → Option A
list_of preserve found = none
list_of one_per_line found = found

unfoldable pub format_assignment : SyntaxNode → AssignmentSyntax → FormatOptions → Text
format_assignment node a options =
    elim (list_of options.metadata_list_layout (parse_static_metadata_list node a)) [
      | some list ↦ format_metadata_list node a list
      | none ↦ format_plain_assignment node a
    ]

-- The items on lines of their own; the last one ends as the node did.
unfoldable pub directive_lines : StaticDirectiveList → List Text → Text
directive_lines list [] = []
directive_lines list (i ∷ []) = indent ++ (i ++ list.final_line_ending)
directive_lines list (i ∷ j ∷ js) =
    indent ++ (i ++ (continuation ++ (list.line_ending ++ directive_lines list (j ∷ js))))

abbrev directive_left : SyntaxNode → DirectiveSyntax → Text
directive_left node d =
    take (d.keyword_range.start - node.range.start) node.contents ++ keyword_lexeme d.keyword

unfoldable pub format_directive_list : SyntaxNode → DirectiveSyntax → StaticDirectiveList → Text
format_directive_list node d list =
    directive_left node d ++ (continuation ++ (list.line_ending ++ directive_lines list list.items))

unfoldable pub format_plain_directive : SyntaxNode → DirectiveSyntax → Text
format_plain_directive node d =
    directive_left node d
    ++ ((if is_empty d.arguments then [] else text " " ++ d.arguments)
        ++ (split_line_ending node.contents).1)

unfoldable pub format_directive : SyntaxNode → DirectiveSyntax → FormatOptions → Text
format_directive node d options =
    elim (list_of options.metadata_list_layout (parse_static_directive_list node d)) [
      | some list ↦ format_directive_list node d list
      | none ↦ format_plain_directive node d
    ]

-- `iter().take_while(is_blank_line).count()`
unfoldable pub leading_blank : List Text → ℕ
leading_blank [] = 0
leading_blank (l ∷ ls) = let rest = leading_blank ls in if is_blank_line l then suc rest else 0

unfoldable pub trailing_blank_lines : Text → ℕ
trailing_blank_lines output = leading_blank (reverse (split_inclusive output))

unfoldable pub append_normalized_blank_line : Text → Text → FormatOptions → Text
append_normalized_blank_line output line options =
    let line_ending = (split_line_ending line).1 in
    if is_empty line_ending || leb options.max_top_level_blank_lines (trailing_blank_lines output)
    then output
    else output ++ line_ending

-- The text for a node that is no blank line.
unfoldable pub node_text : FormatOptions → SyntaxNode → SyntaxKind → Text
node_text options node (assignment a) =
    if is_format_safe_assignment a then format_assignment node a options else node.contents
node_text options node (directive d) = format_directive node d options
node_text options node _ = node.contents

unfoldable pub format_node : FormatOptions → Text → SyntaxNode → SyntaxKind → Text
format_node options output node blank = append_normalized_blank_line output node.contents options
format_node options output node kind = output ++ node_text options node kind

unfoldable pub format_nodes : FormatOptions → Text → List SyntaxNode → Text
format_nodes options output [] = output
format_nodes options output (n ∷ ns) = format_nodes options (format_node options output n n.kind) ns

unfoldable pub format_syntax_with_options : SyntaxTree → FormatOptions → Text
format_syntax_with_options tree options = format_nodes options [] tree.nodes

unfoldable pub format_syntax : SyntaxTree → Text
format_syntax tree = format_syntax_with_options tree default_options

-- `format` and `format_with_options` of src/lib.rs
unfoldable pub format_with_options : Text → FormatOptions → Result Text
format_with_options s options = parse s >>= λ tree. ok (format_syntax_with_options tree options)

unfoldable pub format : Text → Result Text
format s = parse s >>= λ tree. ok (format_syntax tree)
