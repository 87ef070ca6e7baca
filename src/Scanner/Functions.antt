-- ===== src/Scanner/Functions.antt =====
-- src/lib.rs: the signature lines of shell and Python functions.
use bbtidy.Base.{
  ℕ, zero, suc, ◌+◌, ◌-◌, Option, none, some, Bool, not, ◌&&◌, ◌||◌, length, take, drop, any,
  is_empty, ◌==◌, if◌then◌else◌,
}
use bbtidy.Text.{
  Text, text, strip_prefix, strip_suffix, rfind_byte, trim, trim_start, trim_end,
  starts_with_whitespace, is_ascii_whitespace,
}
use bbtidy.Scanner.Lines.{split_line_ending}
use bbtidy.Scanner.Quotes.{comment_start}
use bbtidy.Scanner.Shell.{ScannerFunctionKind, shell, python}
use bbtidy.Scanner.Braces.{is_shell}

unfoldable pub strip_keyword : Text → Text → Option Text
unfolding strip_prefix starts_with_whitespace trim_start
strip_keyword s keyword = elim (strip_prefix s keyword) [
  | none ↦ none
  | some rest ↦
      if is_empty rest
      then some rest
      else if starts_with_whitespace rest
      then some (trim_start rest)
      else none
]

-- The loop over the modifiers before a function's name: each round takes a keyword off, so the
-- length of the declaration is enough fuel.
unfoldable pub strip_modifiers : ℕ → ScannerFunctionKind → Text → ScannerFunctionKind × Text
unfolding strip_keyword
strip_modifiers zero kind name = (kind, name)
strip_modifiers (suc fuel) kind name = elim (strip_keyword name (text "python")) [
  | some rest ↦ strip_modifiers fuel python rest
  | none ↦ elim (strip_keyword name (text "fakeroot")) [
    | some rest ↦ strip_modifiers fuel kind rest
    | none ↦ (kind, name)
  ]
]

unfoldable pub is_function_name : Text → Bool
unfolding is_ascii_whitespace
is_function_name name =
    not (any (λ c. is_ascii_whitespace c || (c == b'(') || (c == b')') || (c == b'#')) name)

-- The content of a line up to its comment.
unfoldable pub code_part : Text → Text
unfolding comment_start
code_part content = elim (comment_start content) [
  | none ↦ content
  | some index ↦ take index content
]

-- The declaration before the parentheses and what stands between these, for the code of a line
-- that ends in `) {`.
unfoldable pub split_signature : Text → Option (Text × Text)
unfolding strip_suffix trim_end rfind_byte
split_signature code = elim (strip_suffix code (text "{")) [
  | none ↦ none
  | some opening_brace ↦ elim (strip_suffix (trim_end opening_brace) (text ")")) [
    | none ↦ none
    | some closing_paren ↦ elim (rfind_byte closing_paren b'(') [
      | none ↦ none
      | some opening_paren ↦
          some (take opening_paren closing_paren, drop (opening_paren + 1) closing_paren)
    ]
  ]
]

unfoldable pub function_opening_brace : Text → Option (ℕ × ScannerFunctionKind)
unfolding split_line_ending code_part trim_end trim_start split_signature strip_modifiers
    is_function_name
function_opening_brace line =
    let code = trim_end (code_part (split_line_ending line).0) in
    elim (split_signature code) [
      | none ↦ none
      | some (before, parameters) ↦
          if not (is_empty (trim parameters))
          then none
          else let declaration = trim before in
            let (kind, name) = strip_modifiers (length declaration) shell declaration in
            if is_empty name && is_shell kind
            then none
            else if not (is_empty name) && not (is_function_name name)
            then none
            else some (length code - 1, kind)
    ]
