-- ===== src/Scanner/Shell.antt =====
-- src/lib.rs: the parts of a shell body that the block scanner jumps over: `${...}` expressions,
-- `$(...)` substitutions and here-documents.
use bbtidy.Base.{
  ℕ, ◌+◌, ◌-◌, Option, none, some, Bool, true, false, not, ◌&&◌, ◌||◌, List, [], ◌∷◌, ◌++◌, length,
  drop, head?, is_empty, ◌==◌, if◌then◌else◌,
}
use bbtidy.Text.{
  Text, text, slice, strip_prefix, starts_with, strip_suffix, find_byte, text_eq,
  trim_start_matches, is_ascii_whitespace, is_quote, is_space_or_tab,
}
use bbtidy.Text.Scan.{Move, go, stop, scan}
use bbtidy.Scanner.Quotes.{Quoting, unquoted, quote_step}

pub data ScannerFunctionKind : Type 0 where
  shell python : ScannerFunctionKind

-- `bytes.get(index)`
abbrev pub byte_at : Text → ℕ → Option ℕ
byte_at bytes index = head? (drop index bytes)

-- `matches!(found, Some(b) if p(b))`
abbrev pub holds_at : (ℕ → Bool) → Option ℕ → Bool
holds_at p none = false
holds_at p (some byte) = p byte

abbrev pub is_byte : ℕ → Option ℕ → Bool
is_byte b = holds_at (λ c. c == b)

pub record Depth : Type 0 where
  pub depth : ℕ
  pub quoting : Quoting

-- The start of the bytes after a closing delimiter, if it closes the outermost one.
abbrev close : ℕ → Depth → Move Depth (Option ℕ)
close index d =
    if d.depth == 0
    then stop none
    else if (d.depth - 1) == 0
    then stop (some (index + 1))
    else go (record d { depth = d.depth - 1 }) 0

unfoldable pub expression_step : ℕ → Text → Depth → Move Depth (Option ℕ)
unfolding quote_step
expression_step index [] d = go d 0
expression_step index (byte ∷ rest) d = elim (quote_step d.quoting byte) [
  | some q ↦ go (record d { quoting = q }) 0
  | none ↦
      if byte == b'{'
      then go (record d { depth = d.depth + 1 }) 0
      else if byte == b'}'
      then close index d
      else go d 0
]

unfoldable pub bitbake_expression_end : Text → ℕ → Option ℕ
unfolding expression_step scan strip_prefix
bitbake_expression_end bytes start =
    if starts_with (drop start bytes) (text "${")
    then scan expression_step (λ _. none) (start + 2) 0 (record { depth = 1; quoting = unquoted })
        (drop (start + 2) bytes)
    else none

is_boundary : ℕ → Bool
is_boundary c =
    is_ascii_whitespace c
    || (c == b';')
    || (c == b'|')
    || (c == b'&')
    || (c == b'(')
    || (c == b')')
    || (c == b'{')
    || (c == b'}')

unfoldable pub is_comment_start_in_function : Text → ℕ → ScannerFunctionKind → Bool
unfolding is_boundary is_ascii_whitespace
is_comment_start_in_function bytes index python = true
is_comment_start_in_function bytes index shell =
    (index == 0) || holds_at is_boundary (byte_at bytes (index - 1))

pub record Substitution : Type 0 where
  pub depth : ℕ
  pub quote : Option ℕ
  pub escaped : Bool
  pub comment : Bool

-- The `match byte` of `skip_shell_command_substitution`, outside quotes and comments.
substitution_byte : Text → ℕ → ℕ → Substitution → Move Substitution (Option ℕ)
unfolding is_comment_start_in_function
substitution_byte bytes index byte s =
    if is_quote byte
    then go (record s { quote = some byte }) 0
    else if (byte == b'#') && is_comment_start_in_function bytes index shell
    then go (record s { comment = true }) 0
    else if byte == b'('
    then go (record s { depth = s.depth + 1 }) 0
    else if byte == b')'
    then (if s.depth == 0
        then stop none
        else if (s.depth - 1) == 0
        then stop (some (index + 1))
        else go (record s { depth = s.depth - 1 }) 0)
    else go s 0

unfoldable pub substitution_step : Text → ℕ → Text → Substitution → Move Substitution (Option ℕ)
unfolding substitution_byte
substitution_step bytes index [] s = go s 0
substitution_step bytes index (byte ∷ rest) s =
    if s.comment
    then go (if byte == b'\n' then record s { comment = false } else s) 0
    else if s.escaped
    then go (record s { escaped = false }) 0
    else if not (is_byte b'\'' s.quote) && (byte == b'\\')
    then go (record s { escaped = true }) 0
    else elim s.quote [
      | some delimiter ↦ go (if byte == delimiter then record s { quote = none } else s) 0
      | none ↦ substitution_byte bytes index byte s
    ]

unfoldable pub skip_shell_command_substitution : Text → ℕ → Option ℕ
unfolding substitution_step scan
skip_shell_command_substitution bytes index =
    scan (substitution_step bytes) (λ _. none) index 0
      (record { depth = 1; quote = none; escaped = false; comment = false }) (drop index bytes)

pub record ShellHereDoc : Type 0 where
  pub delimiter : Text
  pub strip_tabs : Bool

is_shell_operator : ℕ → Bool
is_shell_operator c =
    (c == b';')
    || (c == b'|')
    || (c == b'&')
    || (c == b'<')
    || (c == b'>')
    || (c == b'(')
    || (c == b')')

-- `while matches!(bytes.get(index), Some(b' ' | b'\t')) { index += 1 }`
blanks_end : Text → ℕ → ℕ
unfolding scan
blanks_end bytes index =
    scan {S = Unit {0}}
      (λ i rest s. if holds_at is_space_or_tab (head? rest) then go s 0 else stop i)
      (λ _. length bytes) index 0 tt (drop index bytes)

-- A quoted delimiter, read up to its closing quote.
quoted_delimiter_step : ℕ → ℕ → Text → Text → Move Text (Option (Text × ℕ))
quoted_delimiter_step quote index [] word = go word 0
quoted_delimiter_step quote index (byte ∷ rest) word =
    if byte == quote then stop (some (word, index + 1)) else go (word ++ byte ∷ []) 0

-- A bare delimiter, read up to white space or an operator; a backslash takes the next byte.
delimiter_step : ℕ → Text → Text → Move Text (Option (Text × ℕ))
unfolding is_shell_operator is_ascii_whitespace
delimiter_step index [] word = go word 0
delimiter_step index (byte ∷ rest) word =
    if is_ascii_whitespace byte || is_shell_operator byte
    then stop (some (word, index))
    else if byte == b'\\'
    then elim rest [ [] ↦ stop none | escaped ∷ _ ↦ go (word ++ escaped ∷ []) 1 ]
    else go (word ++ byte ∷ []) 0

bare_delimiter : Text → ℕ → Text → Option (Text × ℕ)
unfolding delimiter_step scan
bare_delimiter bytes index word =
    scan delimiter_step (λ w. some (w, length bytes)) index 0 word (drop index bytes)

-- The delimiter that begins with `byte` at `index`, and the index behind it.
here_document_word : Text → ℕ → ℕ → Option (Text × ℕ)
unfolding quoted_delimiter_step bare_delimiter scan
here_document_word bytes index byte =
    if is_quote byte
    then scan (quoted_delimiter_step byte) (λ _. none) (index + 1) 0 [] (drop (index + 1) bytes)
    else if byte == b'\\'
    then elim (byte_at bytes (index + 1)) [
      | none ↦ none
      | some escaped ↦ bare_delimiter bytes (index + 2) (escaped ∷ [])
    ]
    else bare_delimiter bytes index []

unfoldable pub parse_shell_here_document : Text → ℕ → Option (ShellHereDoc × ℕ)
unfolding strip_prefix blanks_end here_document_word
parse_shell_here_document bytes start =
    if not (starts_with (drop start bytes) (text "<<")) || is_byte b'<' (byte_at bytes (start + 2))
    then none
    else let strip_tabs = is_byte b'-' (byte_at bytes (start + 2)) in
      let index = blanks_end bytes (if strip_tabs then start + 3 else start + 2) in
      elim (byte_at bytes index) [
        | none ↦ none
        | some byte ↦ elim (here_document_word bytes index byte) [
          | none ↦ none
          | some (delimiter, after) ↦
              if is_empty delimiter
              then none
              else some (record { delimiter = delimiter; strip_tabs = strip_tabs }, after)
        ]
      ]

-- The line of a here-document that is compared with its delimiter.
document_line : ShellHereDoc → Text → Text
unfolding strip_suffix trim_start_matches
document_line d line =
    let bare : Text = elim (strip_suffix line (text "\r")) [
      | some content ↦ content
      | none ↦ line
    ] in
    if d.strip_tabs then trim_start_matches (λ c. c == 9) bare else bare

unfoldable pub document_step :
    Text → ShellHereDoc → ℕ → Text → Unit {0} → Move (Unit {0}) (Option ℕ)
unfolding document_line find_byte text_eq
document_step bytes d offset rest _ = elim (find_byte rest b'\n') [
  | none ↦
      if text_eq (document_line d rest) d.delimiter then stop (some (length bytes)) else stop none
  | some relative ↦
      if text_eq (document_line d (slice 0 relative rest)) d.delimiter
      then stop (some (offset + relative + 1))
      else go tt relative
]

-- At the end of the input the last, empty line is looked at too.
unfoldable pub skip_document : Text → ShellHereDoc → ℕ → Option ℕ
unfolding document_step scan
skip_document bytes d offset =
    scan (document_step bytes d) (λ _. if is_empty d.delimiter then some (length bytes) else none)
      offset 0 tt (drop offset bytes)

unfoldable pub skip_shell_here_documents : Text → ℕ → List ShellHereDoc → Option ℕ
unfolding skip_document
skip_shell_here_documents bytes offset [] = some offset
skip_shell_here_documents bytes offset (d ∷ ds) = elim (skip_document bytes d offset) [
  | none ↦ none
  | some next ↦ skip_shell_here_documents bytes next ds
]
