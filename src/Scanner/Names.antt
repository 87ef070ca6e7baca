-- ===== src/Scanner/Names.antt =====
-- src/lib.rs: which texts are variable names and left-hand sides.
use bbtidy.Base.{
  ℕ, ◌+◌, ◌-◌, Option, none, some, Bool, true, false, not, ◌&&◌, ◌||◌, [], ◌∷◌, length, take, drop,
  all, any, is_empty, ltb, ◌==◌, if◌then◌else◌,
}
use bbtidy.Text.{
  Text, text, slice, strip_prefix, starts_with, find_byte, contains, trim_start,
  starts_with_whitespace, is_ascii_alphanumeric, is_ascii_whitespace, text_eq, ends_with,
  strip_suffix,
}
use bbtidy.Text.Scan.{Move, go, stop, scan}

abbrev name_byte : ℕ → Bool
name_byte c = is_ascii_alphanumeric c || (c == b'_') || (c == b'-') || (c == b'+') || (c == b'.')

unfoldable pub variable_reference_end : Text → ℕ → Option ℕ
unfolding text_eq find_byte is_ascii_whitespace
variable_reference_end bytes start =
    if not (text_eq (take 2 (drop start bytes)) (text "${"))
    then none
    else elim (find_byte (drop (start + 2) bytes) b'}') [
      | none ↦ none
      | some relative ↦
          let last = start + 2 + relative in
          let contents = slice (start + 2) last bytes in
          if is_empty contents || any is_ascii_whitespace contents then none else some (last + 1)
    ]

unfoldable pub variable_flag_is_valid : Text → Bool
unfolding strip_suffix is_ascii_alphanumeric
variable_flag_is_valid flag =
    if ltb (length flag) 3 || not (ends_with flag (text "]"))
    then false
    else all name_byte (slice 1 (length flag - 1) flag)

-- One round of the loop over the components of a name; the state is `component_has_content`.
unfoldable pub name_step : Text → ℕ → Text → Bool → Move Bool Bool
unfolding variable_reference_end variable_flag_is_valid is_ascii_alphanumeric
name_step bytes index [] content = go content 0
name_step bytes index (byte ∷ rest) content =
    if name_byte byte || (byte == b'/')
    then go true 0
    else if byte == b'$'
    then elim (variable_reference_end bytes index) [
      | none ↦ stop false
      | some reference_end ↦ go true (reference_end - (index + 1))
    ]
    else if (byte == b':') && content
    then go false 0
    else if (byte == b'[') && content
    then stop (variable_flag_is_valid (drop index bytes))
    else stop false

-- A slash is allowed in the reviewed namespaces and behind an override.
unfoldable pub slash_is_reviewed : Text → Bool
unfolding find_byte strip_prefix
slash_is_reviewed name =
    not (contains name b'/')
    || starts_with name (text "PREFERRED_PROVIDER_")
    || starts_with name (text "PREFERRED_VERSION_")
    || elim (find_byte name b'/') [ none ↦ false | some slash ↦ contains (take slash name) b':' ]

unfoldable pub is_variable_name : Text → Bool
unfolding slash_is_reviewed name_step scan is_ascii_alphanumeric
is_variable_name [] = false
is_variable_name (first ∷ rest) =
    let name = first ∷ rest in
    if not (slash_is_reviewed name)
    then false
    else if not (is_ascii_alphanumeric first || (first == b'_') || (first == b'$'))
    then false
    else scan (name_step name) (λ content. content) 0 0 false name

-- The variable name of a left-hand side, its offset in it and whether `export` stands before it.
unfoldable pub split_export : Text → Text × ℕ × Bool
unfolding strip_prefix trim_start starts_with_whitespace
split_export left = elim (strip_prefix left (text "export")) [
  | none ↦ (left, 0, false)
  | some rest ↦
      if starts_with_whitespace rest
      then (trim_start rest, 6 + (length rest - length (trim_start rest)), true)
      else (left, 0, false)
]

unfoldable pub is_assignment_left_hand_side : Text → Bool
unfolding split_export is_variable_name
is_assignment_left_hand_side left = is_variable_name (split_export left).0
