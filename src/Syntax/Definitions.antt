-- ===== src/Syntax/Definitions.antt =====
-- src/syntax.rs: `parse_function` and `parse_python_definition`. `none` stands for the panic of an
-- `expect`.
use mathlib.Core.Option
use bbtidy.Base.{
  ℕ, ◌+◌, Option, none, some, ◌||◌, List, [], ◌∷◌, ◌++◌, length, take, drop, any, is_empty,
  if◌then◌else◌,
}
use bbtidy.Text.{Text, text, slice, text_eq, find_byte, rfind, trim, trim_end, is_ascii_whitespace}
use bbtidy.Scanner.Lines.{split_line_ending}
use bbtidy.Scanner.Shell.{ScannerFunctionKind}
use bbtidy.Scanner.Functions.{code_part, split_signature}
use bbtidy.Syntax.Tree.{TextRange, range, FunctionKind, FunctionSyntax, PythonDefinitionSyntax}

-- `split_ascii_whitespace`; `word` holds the part of a word that was read.
unfoldable pub ascii_words : Text → Text → List Text
ascii_words word [] = if is_empty word then [] else word ∷ []
ascii_words word (c ∷ cs) =
    let longer = ascii_words (word ++ c ∷ []) cs in
    let rest = ascii_words [] cs in
    if is_ascii_whitespace c then if is_empty word then rest else word ∷ rest else longer

abbrev pub split_ascii_whitespace : Text → List Text
split_ascii_whitespace s = ascii_words [] s

-- The first word that is no modifier, or the empty text.
unfoldable pub function_name : List Text → Text
function_name [] = []
function_name (w ∷ ws) =
    let later = function_name ws in
    if text_eq w (text "python") || text_eq w (text "fakeroot") then later else w

unfoldable pub function_kind : ScannerFunctionKind → FunctionKind
function_kind ScannerFunctionKind.shell = FunctionKind.shell
function_kind ScannerFunctionKind.python = FunctionKind.python

-- The range of the name, which is searched from the end of the text before the parentheses.
unfoldable pub name_range_of : ℕ → Text → Text → Option (Option TextRange)
name_range_of start before name = if is_empty name then some none else elim (rfind before name) [
  | none ↦ none
  | some relative ↦ some (some (range (start + relative) (start + relative + length name)))
]

unfoldable pub parse_function :
    Text → ℕ → Text → ScannerFunctionKind → TextRange → Option FunctionSyntax
parse_function source start line kind body_range =
    elim (split_signature (trim_end (code_part (split_line_ending line).0))) [
      | none ↦ none
      | some (before, parameters) ↦
          let words = split_ascii_whitespace (trim before) in
          elim (name_range_of start before (function_name words)) [
            | none ↦ none
            | some found ↦ some (record {
              kind = function_kind kind;
              name = Option.map (λ r. slice r.start r.end source) found;
              name_range = found;
              body_range = body_range;
              fakeroot = any (λ w. text_eq w (text "fakeroot")) words;
            })
          ]
    ]

-- `find('(')`, or else `find(':')`
unfoldable pub name_length : Text → Option ℕ
name_length s = elim (find_byte s b'(') [ some k ↦ some k | none ↦ find_byte s b':' ]

unfoldable pub parse_python_definition : Text → ℕ → ℕ → TextRange → Option PythonDefinitionSyntax
parse_python_definition source def_start header_end body_range =
    let behind_def = drop 4 (slice def_start header_end source) in
    elim (name_length behind_def) [
      | none ↦ none
      | some k ↦
          let name = trim_end (take k behind_def) in
          let found = range (def_start + 4) (def_start + 4 + length name) in
          some (record {
            name = slice found.start found.end source;
            name_range = found;
            body_range = body_range;
          })
    ]
