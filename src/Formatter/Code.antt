-- ===== src/Formatter/Code.antt =====
-- To run the formatter, open `formatter_code`: its line names all that `format` calls.
use bbtidy.Text.{trim_end_matches}
use bbtidy.Scanner.Quotes.{comment_start}
use bbtidy.Syntax.Code.{parser_code}
use bbtidy.Formatter.Options.{
  split_inclusive, line_endings, agreed, consistent_line_ending, has_whitespace, fold_lines,
}
use bbtidy.Formatter.Values.{
  is_known_metadata_list, is_comment_or_whitespace, closing_step, split_closing_quote,
  is_static_metadata_list_item, last_value_line, continued_value_line, value_line, value_items,
  list_line_ending, parse_static_metadata_list,
}
use bbtidy.Formatter.Directives.{
  is_list_directive, is_static_directive_item, add_directive_item, directive_line, directive_items,
  parse_static_directive_list,
}
use bbtidy.Formatter.Output.{
  is_format_safe_assignment, assignment_left, list_lines, format_metadata_list,
  format_plain_assignment, format_assignment, directive_lines, format_directive_list,
  format_plain_directive, format_directive, leading_blank, trailing_blank_lines,
  append_normalized_blank_line, node_text, format_node, format_nodes, format_syntax_with_options,
  format_syntax, format_with_options, format,
}

unfoldable pub formatter_code : Unit {0}
unfolding parser_code trim_end_matches comment_start split_inclusive line_endings agreed
    consistent_line_ending has_whitespace fold_lines is_known_metadata_list is_comment_or_whitespace
    closing_step split_closing_quote is_static_metadata_list_item last_value_line
    continued_value_line value_line value_items list_line_ending parse_static_metadata_list
    is_list_directive is_static_directive_item add_directive_item directive_line directive_items
    parse_static_directive_list is_format_safe_assignment assignment_left list_lines
    format_metadata_list format_plain_assignment format_assignment directive_lines
    format_directive_list format_plain_directive format_directive leading_blank trailing_blank_lines
    append_normalized_blank_line node_text format_node format_nodes format_syntax_with_options
    format_syntax format_with_options format
formatter_code = tt
