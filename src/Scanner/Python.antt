-- ===== src/Scanner/Python.antt =====
-- src/lib.rs: the headers and the ends of top-level Python definitions.
use bbtidy.Base.{
  ℕ, ◌+◌, ◌-◌, Option, none, some, Bool, true, false, not, ◌&&◌, ◌||◌, [], ◌∷◌, length, drop, min,
  is_empty, is_some, ltb, ◌==◌, if◌then◌else◌,
}
use bbtidy.Text.{
  Text, text, slice, strip_prefix, starts_with, trim, trim_start, trim_end, trim_start_matches,
  is_quote, is_space_or_tab, is_ascii_whitespace,
}
use bbtidy.Text.Scan.{Move, go, stop, scan}
use bbtidy.Scanner.Lines.{next_line_end, split_line_ending, has_line_continuation}

-- The bytes of the character that begins with this byte.
utf8_len : ℕ → ℕ
utf8_len lead =
    if ltb lead 0x80 then 1 else if ltb lead 0xE0 then 2 else if ltb lead 0xF0 then 3 else 4

unfoldable pub next_char_boundary : Text → ℕ → ℕ
unfolding utf8_len
next_char_boundary source index = elim (drop index source) [
  | [] ↦ length source
  | lead ∷ rest ↦ min (index + utf8_len lead) (length source)
]

-- The loop variables `quote` (the delimiter, and whether it is tripled), `escaped`, `depth`.
pub record PythonState : Type 0 where
  pub quote : Option (ℕ × Bool)
  pub escaped : Bool
  pub depth : ℕ

abbrev is_opening : ℕ → Bool
is_opening c = (c == b'(') || (c == b'[') || (c == b'{')

abbrev is_closing : ℕ → Bool
is_closing c = (c == b')') || (c == b']') || (c == b'}')

abbrev three : ℕ → Text
three b = b ∷ b ∷ b ∷ []

-- How far a byte under an escape or inside quotes moves the index, and the state behind it; `none`
-- outside quotes. Both line scanners treat such bytes alike.
unfoldable pub string_step : Text → ℕ → ℕ → Text → PythonState → Option (PythonState × ℕ)
unfolding next_char_boundary strip_prefix
string_step content index byte rest s =
    let char_skip = next_char_boundary content index - (index + 1) in
    if s.escaped then some (record s { escaped = false }, char_skip) else elim s.quote [
      | none ↦ none
      | some (delimiter, tripled) ↦
          if tripled && starts_with rest (three delimiter)
          then some (record s { quote = none }, 2)
          else if not tripled && (byte == delimiter)
          then some (record s { quote = none }, 0)
          else if (byte == b'\\') && not (delimiter == b'\'')
          then some (record s { escaped = true }, char_skip)
          else some (s, char_skip)
    ]

-- An opening quote.
unfoldable pub open_quote : ℕ → Text → PythonState → PythonState × ℕ
unfolding strip_prefix
open_quote byte rest s =
    let tripled = starts_with rest (three byte) in
    (record s { quote = some (byte, tripled) }, if tripled then 2 else 0)

-- The result of one header line: the whole search fails, the header ends on this line, or the
-- next line is read.
pub data HeaderLine : Type 0 where
  refused : HeaderLine
  complete : HeaderLine
  open_line : PythonState → Bool → HeaderLine

pub record Header : Type 0 where
  pub state : PythonState
  pub saw_header_token : Bool

unfoldable pub header_byte : Text → ℕ → ℕ → Header → Move Header HeaderLine
unfolding trim_start trim_end strip_prefix next_char_boundary is_ascii_whitespace
header_byte content index byte h =
    let char_skip = next_char_boundary content index - (index + 1) in
    let s = h.state in
    if is_opening byte
    then go (record { state = record s { depth = s.depth + 1 }; saw_header_token = true }) char_skip
    else if is_closing byte
    then (if s.depth == 0
        then stop refused
        else go (record { state = record s { depth = s.depth - 1 }; saw_header_token = true })
            char_skip)
    else if (byte == b':') && (s.depth == 0)
    then (let trailing = trim (drop (index + 1) content) in
        if not (is_empty trailing) && not (starts_with trailing (text "#"))
        then stop refused
        else stop complete)
    else go (record h { saw_header_token = not (is_ascii_whitespace byte) || h.saw_header_token })
        char_skip

unfoldable pub header_step : Text → ℕ → Text → Header → Move Header HeaderLine
unfolding string_step open_quote header_byte
header_step content index [] h = go h 0
header_step content index (byte ∷ rest) h =
    elim (string_step content index byte (byte ∷ rest) h.state) [
      | some (s, skip) ↦ go (record h { state = s }) skip
      | none ↦
          if byte == b'#'
          then stop (open_line h.state h.saw_header_token)
          else if is_quote byte
          then go
              (record {
                state = (open_quote byte (byte ∷ rest) h.state).0;
                saw_header_token = true;
              })
              (open_quote byte (byte ∷ rest) h.state).1
          else header_byte content index byte h
    ]

unfoldable pub header_line : Text → Header → HeaderLine
unfolding header_step scan
header_line content h =
    scan (header_step content) (λ h'. open_line h'.state h'.saw_header_token) 0 0 h content

pub record PythonDefHeader : Type 0 where
  pub def_start : ℕ
  pub header_end : ℕ

-- One line of the outer loop.
unfoldable pub header_round : Text → ℕ → ℕ → Text → Header → Move Header (Option PythonDefHeader)
unfolding next_line_end split_line_ending header_line has_line_continuation
header_round s def_start offset rest h =
    let line_end = next_line_end s offset in
    let line = slice offset line_end s in
    elim (header_line (split_line_ending line).0 h) [
      | refused ↦ stop none
      | complete ↦ stop (some (record { def_start = def_start; header_end = line_end }))
      | open_line state saw ↦
          let at_rest = (state.depth == 0) && not (has_line_continuation line) in
          if at_rest && (not saw || not (offset == def_start))
          then stop none
          else go (record { state = state; saw_header_token = saw }) (line_end - (offset + 1))
    ]

abbrev pub fresh : PythonState
fresh = record { quote = none; escaped = false; depth = 0 }

-- Where the `def` line begins: at `start`, or behind one decorator line.
unfoldable pub def_line_start : Text → ℕ → Option ℕ
def_line_start s start =
    let first_line_end = next_line_end s start in
    let first_line = slice start first_line_end s in
    let first_content = (split_line_ending first_line).0 in
    if starts_with first_content (text "def ")
    then some start
    else if not (starts_with first_content (text "@")) || has_line_continuation first_line
    then none
    else let def_line = slice first_line_end (next_line_end s first_line_end) s in
      if starts_with (split_line_ending def_line).0 (text "def ") then some first_line_end else none

unfoldable pub python_def_header : Text → ℕ → Option PythonDefHeader
unfolding def_line_start header_round scan next_line_end split_line_ending strip_prefix
    has_line_continuation
python_def_header s start = elim (def_line_start s start) [
  | none ↦ none
  | some def_start ↦
      scan (header_round s def_start) (λ _. none) def_start 0
        (record { state = fresh; saw_header_token = false }) (drop def_start s)
]

-- A byte of a body line outside quotes.
line_byte : Text → ℕ → ℕ → PythonState → Move PythonState PythonState
unfolding next_char_boundary
line_byte content index byte s =
    let char_skip = next_char_boundary content index - (index + 1) in
    if is_opening byte
    then go (record s { depth = s.depth + 1 }) char_skip
    else if is_closing byte
    then go (if ltb 0 s.depth then record s { depth = s.depth - 1 } else s) char_skip
    else go s char_skip

unfoldable pub line_step : Text → ℕ → Text → PythonState → Move PythonState PythonState
unfolding string_step open_quote line_byte
line_step content index [] s = go s 0
line_step content index (byte ∷ rest) s = elim (string_step content index byte (byte ∷ rest) s) [
  | some (s', skip) ↦ go s' skip
  | none ↦
      if byte == b'#'
      then stop s
      else if is_quote byte
      then go (open_quote byte (byte ∷ rest) s).0 (open_quote byte (byte ∷ rest) s).1
      else line_byte content index byte s
]

unfoldable pub scan_python_line : Text → PythonState → PythonState
unfolding line_step scan
scan_python_line content s = scan (line_step content) (λ s'. s') 0 0 s content

pub record PythonBody : Type 0 where
  pub saw_body : Bool
  pub state : PythonState

-- One line of the loop of `find_python_def_end`.
unfoldable pub body_round : Text → ℕ → Text → PythonBody → Move PythonBody ℕ
unfolding next_line_end split_line_ending trim_start_matches trim_start trim_end strip_prefix
    scan_python_line
body_round s offset rest b =
    let line_end = next_line_end s offset in
    let content = (split_line_ending (slice offset line_end s)).0 in
    let leading = length content - length (trim_start_matches is_space_or_tab content) in
    let trimmed = trim (drop leading content) in
    let in_continuation = is_some b.state.quote || ltb 0 b.state.depth in
    if b.saw_body && not in_continuation && (leading == 0) && not (is_empty trimmed)
    then stop offset
    else go
        (record {
          saw_body = (not (is_empty trimmed) && not (starts_with trimmed (text "#"))) || b.saw_body;
          state = scan_python_line content b.state;
        })
        (line_end - (offset + 1))

unfoldable pub find_python_def_end : Text → ℕ → ℕ
unfolding body_round scan
find_python_def_end s offset =
    scan (body_round s) (λ _. length s) offset 0 (record { saw_body = false; state = fresh })
      (drop offset s)
