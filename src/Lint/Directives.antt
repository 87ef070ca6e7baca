-- ===== src/Lint/Directives.antt =====
-- What `parse_suppression_directives` of src/lint.rs reads.
use bbtidy.Base.{
  ℕ, ◌+◌, ◌≤◌, ◌<◌, ◌≡◌, ◌⊎◌, refl, sym, ap, ◌∙◌, Option, none, some, Bool, true, false, [], ◌∷◌,
  length, length-append, length-drop, drop, is_empty, is_some, Bool-cases, Option-cases, inl, inr,
  ◌==◌, arith,
}
use bbtidy.Text.{
  Text, text, text_eq, find_byte, strip_prefix, strip_suffix, strip_suffix-some, trim,
}
use bbtidy.Text.Search.{find_byte-drop}
use bbtidy.Syntax.Tree.{TextRange, range}
use bbtidy.Lint.Suppression.{
  SuppressionKind, same_line, next_line, file, SuppressionDirective, split_once, bare_line,
  unwrap_or, without_suffix, is_known_rule, reason_of, Command, directs, rejects, command_kind,
  Reading, rule_problem, read_rule, read_command, read_directive, line_directive,
}

-- A directive for a whole file is on its first line.
abbrev pub is_placed : SuppressionKind → ℕ → Bool
is_placed same_line line = true
is_placed next_line line = true
is_placed file line = line == 1

-- A directive that is not in error: a known rule other than that of the directives, and a reason.
abbrev pub IsValid : SuppressionDirective → Type 0
IsValid s =
    (rule_id : Text) × (reason : Text) × (s.rule_id ≡ some rule_id)
    × (s.reason ≡ some reason)
    × (is_known_rule rule_id ≡ true)
    × (text_eq rule_id (text "BBT038") ≡ false)
    × (is_empty reason ≡ false)
    × (is_placed s.kind s.line ≡ true)

-- A directive as it is read: not used, in error or valid, and within `first` and `last`.
abbrev pub IsRead : ℕ → ℕ → SuppressionDirective → Type 0
IsRead first last s =
    (s.used ≡ false)
    × ((is_some s.problem ≡ true) ⊎ IsValid s)
    × (first ≤ s.span.start)
    × (s.span.start ≤ s.span.end)
    × (s.span.end ≤ last)

-- What holds of a directive wherever it stands, with its counts.
abbrev Sound : TextRange → Reading → Type 0
Sound span r =
    (r.directive.used ≡ false)
    × ((is_some r.directive.problem ≡ true) ⊎ IsValid r.directive)
    × (r.directive.span ≡ span)
    × (r.malformed + r.unknown_rules ≤ 1)

reason_of_lem : (suffix reason : Text) → reason_of suffix ≡ some reason → is_empty reason ≡ false
unfolding reason_of strip_prefix
reason_of_lem suffix reason e = elim (Option-cases (strip_prefix suffix (text "--"))) [
  | inl f ↦ let q : ◌≡◌ {A = Option Text} none (some reason) = rw f at e in cc
  | inr (rest, f) ↦ elim (Bool-cases (is_empty (trim rest))) [
    | inl g ↦ let q : ◌≡◌ {A = Option Text} none (some reason) = rw g at (rw f at e) in cc
    | inr g ↦
        let q : ◌≡◌ {A = Option Text} (some (trim rest)) (some reason) = rw g at (rw f at e) in
        let same : trim rest ≡ reason = cc in sym (ap is_empty same) ∙ g
  ]
]

read_rule-Sound :
    (kind : SuppressionKind) (line_number : ℕ) (span : TextRange) (remainder : Text)
    → is_placed kind line_number ≡ true
    → Sound span (read_rule kind line_number span remainder)
unfolding read_rule rule_problem
read_rule-Sound kind line_number span remainder placed =
    elim (Option-cases (split_once remainder b']')) [
      | inl e ↦ rw (e, read_rule) (refl, inl refl, refl, omega arith)
      | inr (split, e) ↦ elim (Bool-cases (is_known_rule (trim split.0))) [
        | inr f ↦ rw (e, read_rule) (rw f (refl, inl refl, refl, omega arith))
        | inl f ↦ elim (Bool-cases (text_eq (trim split.0) (text "BBT038"))) [
          | inl g ↦ rw (e, read_rule) (rw f (rw g (refl, inl refl, refl, omega arith)))
          | inr g ↦ elim (Option-cases (reason_of (trim split.1))) [
            | inl h ↦ rw (e, read_rule) (rw f (rw g (rw h (refl, inl refl, refl, omega arith))))
            | inr (reason, h) ↦
                rw (e, read_rule)
                  (rw f (
                    rw g (
                      rw h (
                        refl,
                        inr (
                          trim split.0,
                          reason,
                          refl,
                          refl,
                          f,
                          g,
                          reason_of_lem (trim split.1) reason h,
                          placed,
                        ),
                        refl,
                        omega arith,
                      ))))
          ]
        ]
      ]
    ]

Placed : ℕ → Command → Type 0
Placed line_number (directs kind) = is_placed kind line_number ≡ true
Placed line_number (rejects kind message) = Unit

command_kind-Placed :
    (line_number : ℕ) (command : Text) → Placed line_number (command_kind line_number command)
unfolding command_kind Placed
command_kind-Placed line_number command = elim (Bool-cases (text_eq command (text "ignore"))) [
  | inl e ↦ rw (e, command_kind) refl
  | inr e ↦ elim (Bool-cases (text_eq command (text "ignore-next-line"))) [
    | inl f ↦ rw (e, command_kind) (rw f refl)
    | inr f ↦ elim (Bool-cases (text_eq command (text "disable-file"))) [
      | inr g ↦ rw (e, command_kind) (rw f (rw g tt))
      | inl g ↦ elim (Bool-cases (line_number == 1)) [
        | inl h ↦ rw (e, command_kind) (rw f (rw g (rw h h)))
        | inr h ↦ rw (e, command_kind) (rw f (rw g (rw h tt)))
      ]
    ]
  ]
]

read_command-Sound :
    (line_number : ℕ) (span : TextRange) (remainder : Text) (c : Command)
    → Placed line_number c
    → Sound span (read_command line_number span remainder c)
unfolding Placed read_command
read_command-Sound line_number span remainder (directs kind) placed =
    read_rule-Sound kind line_number span remainder placed
read_command-Sound line_number span remainder (rejects kind message) placed =
    (refl, inl refl, refl, omega arith)

read_directive-Sound :
    (line_number : ℕ) (span : TextRange) (payload : Text)
    → Sound span (read_directive line_number span payload)
unfolding read_directive
read_directive-Sound line_number span payload =
    elim (Option-cases (split_once (trim payload) b'[')) [
      | inl e ↦ rw (e, read_directive) (refl, inl refl, refl, omega arith)
      | inr (split, e) ↦
          rw (e, read_directive)
            (read_command-Sound line_number span split.1 (command_kind line_number (trim split.0))
              (command_kind-Placed line_number (trim split.0)))
    ]

unwrap_or-length :
    (s suffix : Text) (o : Option Text)
    → strip_suffix s suffix ≡ o
    → length (unwrap_or s o) ≤ length s
unwrap_or-length s suffix none e = omega arith
unwrap_or-length s suffix (some rest) e =
    omega (arith, ap length (strip_suffix-some s suffix rest e), length-append rest suffix)

bare_line-length : (raw_line : Text) → length (bare_line raw_line) ≤ length raw_line
bare_line-length raw_line =
    let once = without_suffix raw_line (b'\n' ∷ []) in
    omega (
      arith,
      unwrap_or-length raw_line (b'\n' ∷ []) (strip_suffix raw_line (b'\n' ∷ [])) refl,
      unwrap_or-length once (b'\r' ∷ []) (strip_suffix once (b'\r' ∷ [])) refl,
    )

find_byte-length : (s : Text) (b k : ℕ) → find_byte s b ≡ some k → k < length s
find_byte-length s b k e = omega (arith, ap length (find_byte-drop s b k e), length-drop k s)

-- The line that begins at `offset` and has `size` bytes.
abbrev pub LineRead : ℕ → ℕ → Option Reading → Type 0
LineRead offset size none = Unit
LineRead offset size (some r) =
    IsRead offset (offset + size) r.directive × (r.malformed + r.unknown_rules ≤ 1)

Sound-LineRead :
    (offset size : ℕ) (first last : ℕ) (r : Reading)
    → Sound (range first last) r
    → offset ≤ first
    → first ≤ last
    → last ≤ offset + size
    → LineRead offset size (some r)
Sound-LineRead offset size first last r (unused, read, same, counts) p q l =
    ((unused, read, rw same p, rw same q, rw same l), counts)

pub line_directive-LineRead :
    (line_number offset : ℕ) (raw_line : Text)
    → LineRead offset (length raw_line) (line_directive line_number offset raw_line)
unfolding line_directive
line_directive-LineRead line_number offset raw_line =
    let line = bare_line raw_line in
    elim (Option-cases (find_byte line b'#')) [
      | inl e ↦ rw (e, line_directive) tt
      | inr (hash, e) ↦ elim (Option-cases (strip_prefix (drop hash line) (text "# bbtidy:"))) [
        | inl f ↦ rw (e, line_directive) (rw f tt)
        | inr (payload, f) ↦
            let inside = find_byte-length line b'#' hash e in
            let short = bare_line-length raw_line in
            rw (e, line_directive)
              (rw f (
                Sound-LineRead offset (length raw_line) (offset + hash) (offset + length line)
                  (read_directive line_number (range (offset + hash) (offset + length line))
                    payload)
                  (read_directive-Sound line_number (range (offset + hash) (offset + length line))
                    payload)
                  (omega arith) (omega arith) (omega arith)))
      ]
    ]
