-- ===== src/Body/Python.antt =====
-- src/body.rs: `analyze_python_tokens`.
use bbtidy.Base.{
  ℕ, ◌+◌, ◌-◌, min, Option, none, some, Bool, true, false, ◌||◌, List, [], ◌∷◌, ◌++◌, length, ◌==◌,
  if◌then◌else◌,
}
use bbtidy.Text.{Text, text, starts_with, strip_prefix}
use bbtidy.Text.Scan.{Move, go, scan}
use bbtidy.Scanner.Python.{next_char_boundary}
use bbtidy.Syntax.Tree.{range}
use bbtidy.Body.Diagnostics.{python_syntax, BodyDiagnostic}

pub data PythonQuote : Type 0 where
  single_quote double_quote triple_single triple_double : PythonQuote

pub record PythonDelimiter : Type 0 where
  pub opening : ℕ
  pub offset : ℕ

-- The loop variables; the last delimiter comes first, and the diagnostics stand in their order.
pub record PythonScan : Type 0 where
  pub diagnostics : List BodyDiagnostic
  pub delimiters : List PythonDelimiter
  pub delimiter_uncertain : Bool
  pub quote : Option PythonQuote
  pub quote_start : ℕ
  pub escaped : Bool
  pub comment : Bool

abbrev pub quote_text : PythonQuote → Text
quote_text single_quote = text "'"
quote_text double_quote = text "\""
quote_text triple_single = text "'''"
quote_text triple_double = text "\"\"\""

-- The quote that begins at the front of the bytes.
abbrev pub quote_at : ℕ → Text → PythonQuote
quote_at c bytes =
    if starts_with bytes (c ∷ c ∷ c ∷ [])
    then if c == b'\'' then triple_single else triple_double
    else if c == b'\''
    then single_quote
    else double_quote

abbrev pub opening_of : ℕ → ℕ
opening_of c = if c == b')' then b'(' else if c == b']' then b'[' else b'{'

abbrev pub closing_of : ℕ → ℕ
closing_of c = if c == b'(' then b')' else if c == b'[' then b']' else b'}'

abbrev pub python_error : ℕ → ℕ → Text → BodyDiagnostic
python_error start end message = record {
  kind = python_syntax;
  range = range start end;
  message = message;
}

abbrev pub opens_with : ℕ → List PythonDelimiter → Bool
opens_with opening [] = false
opens_with opening (d ∷ ds) = d.opening == opening

abbrev pub without_last : List PythonDelimiter → List PythonDelimiter
without_last [] = []
without_last (d ∷ ds) = ds

abbrev unmatched_message : ℕ → Text
unmatched_message c = text "Python closing delimiter '" ++ (c ∷ text "' has no matching opener")

-- A closing delimiter, while none was found to be wrong.
unfoldable pub close_delimiter : ℕ → ℕ → PythonScan → PythonScan
close_delimiter index c s =
    if s.delimiter_uncertain
    then s
    else if opens_with (opening_of c) s.delimiters
    then record s { delimiters = without_last s.delimiters }
    else record s {
      diagnostics = s.diagnostics ++ python_error index (index + 1) (unmatched_message c) ∷ [];
      delimiter_uncertain = true;
    }

unfoldable pub bracket_step : ℕ → ℕ → PythonScan → PythonScan
unfolding close_delimiter
bracket_step index c s =
    if (c == b'(') || (c == b'[') || (c == b'{')
    then if s.delimiter_uncertain
      then s
      else record s { delimiters = record { opening = c; offset = index } ∷ s.delimiters }
    else if (c == b')') || (c == b']') || (c == b'}')
    then close_delimiter index c s
    else s

-- A byte inside a string.
unfoldable pub string_move :
    ℕ → PythonQuote → Text → ℕ → PythonScan → Move PythonScan (List BodyDiagnostic)
unfolding strip_prefix
string_move char_skip active bytes c s =
    if s.escaped
    then go (record s { escaped = false }) char_skip
    else if c == b'\\'
    then go (record s { escaped = true }) 0
    else if starts_with bytes (quote_text active)
    then go (record s { quote = none }) (length (quote_text active) - 1)
    else go s char_skip

-- A byte outside of strings and comments.
unfoldable pub code_move : ℕ → ℕ → Text → ℕ → PythonScan → Move PythonScan (List BodyDiagnostic)
unfolding bracket_step strip_prefix
code_move index char_skip bytes c s =
    if c == b'#'
    then go (record s { comment = true }) 0
    else if (c == b'\'') || (c == b'"')
    then go (record s { quote = some (quote_at c bytes); quote_start = index })
        (length (quote_text (quote_at c bytes)) - 1)
    else go (bracket_step index c s) char_skip

unfoldable pub python_step : Text → ℕ → Text → PythonScan → Move PythonScan (List BodyDiagnostic)
unfolding next_char_boundary string_move code_move
python_step source index [] s = go s 0
python_step source index (c ∷ cs) s =
    let char_skip = next_char_boundary source index - (index + 1) in
    if s.comment
    then if c == b'\n' then go (record s { comment = false }) 0 else go s char_skip
    else elim s.quote [
      | some active ↦ string_move char_skip active (c ∷ cs) c s
      | none ↦ code_move index char_skip (c ∷ cs) c s
    ]

-- What is reported of a string that is open at the end.
abbrev pub open_string : Text → PythonScan → List BodyDiagnostic
open_string source s = elim s.quote [
  | none ↦ []
  | some active ↦
      python_error s.quote_start (min (s.quote_start + length (quote_text active)) (length source))
        (text "Python string is missing closing delimiter " ++ quote_text active)
      ∷ []
]

abbrev open_message : ℕ → Text
open_message c =
    text "Python delimiter '" ++ (c ∷ text "' is missing closing '") ++ (closing_of c ∷ text "'")

unfoldable pub open_delimiters : List PythonDelimiter → List BodyDiagnostic
open_delimiters [] = []
open_delimiters (d ∷ ds) =
    python_error d.offset (d.offset + 1) (open_message d.opening) ∷ open_delimiters ds

unfoldable pub python_finish : Text → PythonScan → List BodyDiagnostic
unfolding open_delimiters
python_finish source s =
    if s.delimiter_uncertain
    then s.diagnostics ++ open_string source s
    else s.diagnostics ++ (open_string source s ++ open_delimiters s.delimiters)

abbrev pub first_python_scan : PythonScan
first_python_scan = record {
  diagnostics = [];
  delimiters = [];
  delimiter_uncertain = false;
  quote = none;
  quote_start = 0;
  escaped = false;
  comment = false;
}

unfoldable pub analyze_python_tokens : Text → List BodyDiagnostic
unfolding scan python_step python_finish
analyze_python_tokens source =
    scan (python_step source) (python_finish source) 0 0 first_python_scan source
