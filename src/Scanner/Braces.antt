-- ===== src/Scanner/Braces.antt =====
-- src/lib.rs: `find_brace_block_end`, the end of a shell or Python function body.
use bbtidy.Base.{
  ℕ, ◌+◌, ◌-◌, Option, none, some, Bool, true, false, not, ◌&&◌, List, [], ◌∷◌, ◌++◌, drop,
  is_empty, ltb, ◌==◌, if◌then◌else◌,
}
use bbtidy.Text.{Text, text, strip_prefix, starts_with, is_quote}
use bbtidy.Text.Scan.{Move, go, stop, scan}
use bbtidy.Scanner.Lines.{next_line_end}
use bbtidy.Scanner.Shell.{
  ScannerFunctionKind, shell, python, ShellHereDoc, bitbake_expression_end,
  is_comment_start_in_function, skip_shell_command_substitution, parse_shell_here_document,
  skip_shell_here_documents,
}

pub data FunctionQuote : Type 0 where
  single triple : ℕ → FunctionQuote

-- The loop variables.
pub record Block : Type 0 where
  pub depth : ℕ
  pub quote : Option FunctionQuote
  pub escaped : Bool
  pub comment : Bool
  pub here_documents : List ShellHereDoc
  pub arithmetic_depth : ℕ

-- The end of the block behind its last line, and the place of its closing brace.
abbrev pub BlockEnd : Type 0
BlockEnd = Option (ℕ × ℕ)

abbrev pub is_shell : ScannerFunctionKind → Bool
is_shell shell = true
is_shell python = false

is_single : ℕ → Option FunctionQuote → Bool
is_single b none = false
is_single b (some (single c)) = c == b
is_single b (some (triple c)) = false

-- `index = found?; continue`, in the round at `index`
abbrev jump : ℕ → Block → Option ℕ → Move Block BlockEnd
jump index s none = stop none
jump index s (some target) = go s (target - (index + 1))

-- At a line end outside quotes the pending here-documents are skipped.
line_end_move : Text → ℕ → Block → Move Block BlockEnd
unfolding skip_shell_here_documents
line_end_move bytes index s =
    jump index (record s { here_documents = [] })
      (skip_shell_here_documents bytes (index + 1) s.here_documents)

abbrev three : ℕ → Text
three b = b ∷ b ∷ b ∷ []

-- A byte inside quotes.
unfoldable pub quoted_move :
    Text → ScannerFunctionKind → ℕ → Text → FunctionQuote → Block → Move Block BlockEnd
unfolding strip_prefix skip_shell_command_substitution
quoted_move bytes kind index [] active s = go s 0
quoted_move bytes kind index (byte ∷ rest) (single delimiter) s =
    if is_shell kind && (delimiter == b'"') && starts_with (byte ∷ rest) (text "$(")
    then jump index s (skip_shell_command_substitution bytes (index + 2))
    else go (if byte == delimiter then record s { quote = none } else s) 0
quoted_move bytes kind index (byte ∷ rest) (triple delimiter) s =
    if starts_with (byte ∷ rest) (three delimiter) then go (record s { quote = none }) 2 else go s 0

-- The `match byte` at the end of the loop.
unfoldable pub plain_move : Text → ScannerFunctionKind → ℕ → ℕ → Block → Move Block BlockEnd
unfolding is_comment_start_in_function line_end_move next_line_end
plain_move bytes kind index byte s =
    if is_quote byte
    then go (record s { quote = some (single byte) }) 0
    else if (byte == b'#') && is_comment_start_in_function bytes index kind
    then go (record s { comment = true }) 0
    else if (byte == b'\n') && not (is_empty s.here_documents)
    then line_end_move bytes index s
    else if byte == b'{'
    then go (record s { depth = s.depth + 1 }) 0
    else if byte == b'}'
    then (if s.depth == 0
        then stop none
        else if (s.depth - 1) == 0
        then stop (some (next_line_end bytes index, index))
        else go (record s { depth = s.depth - 1 }) 0)
    else go s 0

-- A byte of a shell body outside quotes, from the test for `((` on.
unfoldable pub shell_move : Text → ℕ → ℕ → Text → Block → Move Block BlockEnd
unfolding strip_prefix skip_shell_command_substitution parse_shell_here_document plain_move
shell_move bytes index byte rest s =
    if starts_with rest (text "((")
    then go (record s { arithmetic_depth = s.arithmetic_depth + 1 }) 1
    else if starts_with rest (text "$(")
    then jump index s (skip_shell_command_substitution bytes (index + 2))
    else if ltb 0 s.arithmetic_depth && starts_with rest (text "))")
    then go (record s { arithmetic_depth = s.arithmetic_depth - 1 }) 1
    else if (s.arithmetic_depth == 0) && starts_with rest (text "<<")
    then elim (parse_shell_here_document bytes index) [
      | some (document, after) ↦
          go (record s { here_documents = s.here_documents ++ document ∷ [] }) (after - (index + 1))
      | none ↦ plain_move bytes shell index byte s
    ]
    else plain_move bytes shell index byte s

-- A byte outside quotes and comments.
unfoldable pub unquoted_move : Text → ScannerFunctionKind → ℕ → Text → Block → Move Block BlockEnd
unfolding strip_prefix bitbake_expression_end shell_move plain_move
unquoted_move bytes kind index [] s = go s 0
unquoted_move bytes python index (byte ∷ rest) s =
    if is_quote byte && starts_with (byte ∷ rest) (three byte)
    then go (record s { quote = some (triple byte) }) 2
    else plain_move bytes python index byte s
unquoted_move bytes shell index (byte ∷ rest) s = elim (bitbake_expression_end bytes index) [
  | some after ↦ go s (after - (index + 1))
  | none ↦ shell_move bytes index byte (byte ∷ rest) s
]

unfoldable pub block_step : Text → ScannerFunctionKind → ℕ → Text → Block → Move Block BlockEnd
unfolding line_end_move is_single quoted_move unquoted_move
block_step bytes kind index [] s = go s 0
block_step bytes kind index (byte ∷ rest) s =
    if s.comment
    then (if byte == b'\n'
        then (if is_empty s.here_documents
            then go (record s { comment = false }) 0
            else line_end_move bytes index (record s { comment = false }))
        else go s 0)
    else if s.escaped
    then go (record s { escaped = false }) 0
    else if (byte == b'\\') && not (is_shell kind && is_single b'\'' s.quote)
    then go (record s { escaped = true }) 0
    else elim s.quote [
      | some active ↦ quoted_move bytes kind index (byte ∷ rest) active s
      | none ↦ unquoted_move bytes kind index (byte ∷ rest) s
    ]

abbrev pub outside : Block
outside = record {
  depth = 0;
  quote = none;
  escaped = false;
  comment = false;
  here_documents = [];
  arithmetic_depth = 0;
}

unfoldable pub find_brace_block_end : Text → ℕ → ScannerFunctionKind → BlockEnd
unfolding block_step scan
find_brace_block_end s opening_brace kind =
    scan (block_step s kind) (λ _. none) opening_brace 0 outside (drop opening_brace s)
