-- ===== src/Syntax/Code.antt =====
-- To run the parser, open `parser_code`: its line names all that `parse` calls.
use bbtidy.Text.{
  strip_suffix, strip_prefix, starts_with_whitespace, trim_start_matches, trim_start, trim_end,
  text_eq, rfind, find_byte, count_byte, is_ascii_whitespace,
}
use bbtidy.Text.Scan.{scan}
use bbtidy.Scanner.Lines.{
  next_line_end, split_line_ending, is_blank_line, has_line_continuation, find_continuation_end,
}
use bbtidy.Scanner.Quotes.{has_balanced_quotes}
use bbtidy.Scanner.Operators.{find_assignment_operator}
use bbtidy.Scanner.Names.{split_export, is_assignment_left_hand_side}
use bbtidy.Scanner.Braces.{find_brace_block_end}
use bbtidy.Scanner.Python.{python_def_header, find_python_def_end}
use bbtidy.Scanner.Functions.{function_opening_brace, code_part, split_signature}
use bbtidy.Syntax.Statement.{
  text_without_final_line_ending, assignment_node, parse_assignment, find_keyword, parse_directive,
  directive_kind, statement_kind, classify_statement,
}
use bbtidy.Syntax.Definitions.{
  ascii_words, function_name, function_kind, name_range_of, parse_function, name_length,
  parse_python_definition,
}
use bbtidy.Syntax.Parse.{
  function_node, python_node, statement_end, statement_node, node_at, after_node, parse_step, parse,
}

unfoldable pub parser_code : Unit {0}
unfolding strip_suffix strip_prefix starts_with_whitespace trim_start_matches trim_start trim_end
    text_eq rfind find_byte count_byte is_ascii_whitespace scan next_line_end split_line_ending
    is_blank_line has_line_continuation find_continuation_end has_balanced_quotes
    find_assignment_operator split_export is_assignment_left_hand_side find_brace_block_end
    python_def_header find_python_def_end function_opening_brace code_part split_signature
    text_without_final_line_ending assignment_node parse_assignment find_keyword parse_directive
    directive_kind statement_kind classify_statement ascii_words function_name function_kind
    name_range_of parse_function name_length parse_python_definition function_node python_node
    statement_end statement_node node_at after_node parse_step parse
parser_code = tt
