-- ===== src/Scanner/Lines.antt =====
-- src/lib.rs: line ends, blank lines and backslash continuations.
use bbtidy.Base.{
  ℕ, ◌+◌, ◌-◌, ◌%◌, Option, none, some, Bool, not, ◌||◌, [], ◌∷◌, reverse, length, drop, ◌==◌,
  if◌then◌else◌, is_empty,
}
use bbtidy.Text.{
  Text, text, slice, strip_suffix, find_byte, trim_matches, trim_end_matches, trim_start_matches,
  is_space_or_tab,
}
use bbtidy.Text.Scan.{Move, go, stop, scan}

unfoldable pub next_line_end : Text → ℕ → ℕ
unfolding find_byte
next_line_end s start = elim (find_byte (drop start s) b'\n') [
  | some relative ↦ start + relative + 1
  | none ↦ length s
]

abbrev pub crlf : Text
crlf = text "\r\n"

abbrev pub newline : Text
newline = text "\n"

-- The content of a line and its ending.
unfoldable pub split_line_ending : Text → Text × Text
unfolding strip_suffix
split_line_ending line = elim (strip_suffix line crlf) [
  | some content ↦ (content, crlf)
  | none ↦ elim (strip_suffix line newline) [
    | some content ↦ (content, newline)
    | none ↦ (line, [])
  ]
]

-- space, tab or carriage return
abbrev pub is_line_blank : ℕ → Bool
is_line_blank c = is_space_or_tab c || (c == b'\r')

unfoldable pub is_blank_line : Text → Bool
unfolding split_line_ending trim_start_matches trim_end_matches
is_blank_line line = is_empty (trim_matches is_line_blank (split_line_ending line).0)

-- `iter().take_while(|byte| byte == b).count()`
unfoldable pub leading_count : ℕ → Text → ℕ
leading_count b [] = 0
leading_count b (c ∷ cs) = let rest = leading_count b cs in if c == b then 1 + rest else 0

unfoldable pub has_line_continuation : Text → Bool
unfolding split_line_ending trim_end_matches leading_count
has_line_continuation line =
    let content = trim_end_matches is_line_blank (split_line_ending line).0 in
    let backslashes = leading_count b'\\' (reverse content) in (backslashes % 2) == 1

-- One line of the loop of `find_continuation_end`.
unfoldable pub continuation_step : Text → ℕ → Text → Unit {0} → Move (Unit {0}) (Option ℕ)
unfolding next_line_end has_line_continuation
continuation_step s offset rest _ =
    let line_end = next_line_end s offset in
    let line = slice offset line_end s in
    if not (has_line_continuation line)
    then stop (some line_end)
    else if line_end == length s
    then stop none
    else go tt (line_end - (offset + 1))

unfoldable pub find_continuation_end : Text → ℕ → Option ℕ
unfolding continuation_step scan
find_continuation_end s start =
    scan (continuation_step s) (λ _. some (length s)) start 0 tt (drop start s)
