-- ===== src/Text/Defs.antt =====
-- The operations of `str` that the sources call, on lists of bytes.
use Prim.Native.Char.{code}
use mathlib.Core.Option
use bbtidy.Base.{
  ℕ, zero, suc, ◌+◌, ◌-◌, String, Option, none, some, Bool, true, false, ◌&&◌, ◌||◌, List, [], ◌∷◌,
  reverse, length, take, drop, leb, ltb, ◌==◌, if◌then◌else◌, is_some, is_empty,
}

abbrev pub Text : Type 0
Text = List ℕ

-- A literal of the sources; all of them are ASCII.
abbrev pub text : String → Text
text String.[] = []
text (String.◌∷◌ c s) = code c ∷ text s

-- `&s[a..b]`
abbrev pub slice : ℕ → ℕ → Text → Text
slice a b s = take (b - a) (drop a s)

-- `==` on texts
unfoldable pub text_eq : Text → Text → Bool
text_eq [] [] = true
text_eq (x ∷ xs) (y ∷ ys) = (x == y) && text_eq xs ys
text_eq _ _ = false

-- `s.strip_prefix(p)`
unfoldable pub strip_prefix : Text → Text → Option Text
strip_prefix s [] = some s
strip_prefix [] (y ∷ p) = none
strip_prefix (x ∷ s) (y ∷ p) = let rest = strip_prefix s p in if x == y then rest else none

abbrev pub starts_with : Text → Text → Bool
starts_with s p = is_some (strip_prefix s p)

-- `s.strip_suffix(p)`
unfoldable pub strip_suffix : Text → Text → Option Text
unfolding strip_prefix
strip_suffix s p = Option.map reverse (strip_prefix (reverse s) (reverse p))

abbrev pub ends_with : Text → Text → Bool
ends_with s p = is_some (strip_suffix s p)

-- `s.find(b)` for an ASCII byte
unfoldable pub find_byte : Text → ℕ → Option ℕ
find_byte [] b = none
find_byte (x ∷ s) b = let rest = find_byte s b in if x == b then some 0 else Option.map suc rest

-- `s.rfind(b)`
unfoldable pub rfind_byte : Text → ℕ → Option ℕ
unfolding find_byte
rfind_byte s b = Option.map (λ k. length s - (k + 1)) (find_byte (reverse s) b)

abbrev pub contains : Text → ℕ → Bool
contains s b = is_some (find_byte s b)

-- `s.find(p)` for a text
unfoldable pub find : Text → Text → Option ℕ
unfolding strip_prefix
find [] p = if is_empty p then some 0 else none
find (x ∷ s) p =
    let rest = find s p in if starts_with (x ∷ s) p then some 0 else Option.map suc rest

-- `s.rfind(p)`: the last of the places where `p` stands
unfoldable pub rfind : Text → Text → Option ℕ
unfolding strip_prefix
rfind [] p = if is_empty p then some 0 else none
rfind (x ∷ s) p = elim (rfind s p) [
  | some k ↦ some (suc k)
  | none ↦ if starts_with (x ∷ s) p then some 0 else none
]

-- `s.trim_start_matches(set)` and `s.trim_end_matches(set)`, for a set of ASCII bytes
unfoldable pub trim_start_matches : (ℕ → Bool) → Text → Text
trim_start_matches p [] = []
trim_start_matches p (x ∷ s) = let rest = trim_start_matches p s in if p x then rest else x ∷ s

unfoldable pub trim_end_matches : (ℕ → Bool) → Text → Text
unfolding trim_start_matches
trim_end_matches p s = reverse (trim_start_matches p (reverse s))

abbrev pub trim_matches : (ℕ → Bool) → Text → Text
trim_matches p s = trim_end_matches p (trim_start_matches p s)

-- The ASCII part of the Unicode property `White_Space`.
abbrev pub is_white_byte : ℕ → Bool
is_white_byte c = (leb 9 c && leb c 13) || (c == b' ')

-- The length of the white-space character at the front, 0 if another character or none stands
-- there: U+0085, U+00A0, U+1680, U+2000 to U+200A, U+2028, U+2029, U+202F, U+205F, U+3000.
unfoldable pub white_len : Text → ℕ
white_len [] = 0
white_len (a ∷ []) = if is_white_byte a then 1 else 0
white_len (a ∷ b ∷ []) =
    if is_white_byte a then 1 else if (a == 0xC2) && ((b == 0x85) || (b == 0xA0)) then 2 else 0
white_len (a ∷ b ∷ c ∷ s) =
    if is_white_byte a
    then 1
    else if (a == 0xC2) && ((b == 0x85) || (b == 0xA0))
    then 2
    else if (a == 0xE1) && (b == 0x9A) && (c == 0x80)
    then 3
    else if (a == 0xE2)
        && (b == 0x80)
        && ((leb 0x80 c && leb c 0x8A) || (c == 0xA8) || (c == 0xA9) || (c == 0xAF))
    then 3
    else if (a == 0xE2) && (b == 0x81) && (c == 0x9F)
    then 3
    else if (a == 0xE3) && (b == 0x80) && (c == 0x80)
    then 3
    else 0

-- The same at the end of the text; the bytes come last byte first.
unfoldable pub white_len_back : Text → ℕ
unfolding white_len
white_len_back [] = 0
white_len_back (c ∷ []) = white_len (c ∷ [])
white_len_back (c ∷ b ∷ []) =
    if is_white_byte c then 1 else let n = white_len (b ∷ c ∷ []) in if n == 2 then 2 else 0
white_len_back (c ∷ b ∷ a ∷ s) =
    if is_white_byte c
    then 1
    else if white_len (b ∷ c ∷ []) == 2
    then 2
    else if white_len (a ∷ b ∷ c ∷ []) == 3
    then 3
    else 0

-- Drops characters as long as `len` gives a length; `skip` is what is left of the current one.
unfoldable pub trim_by : (Text → ℕ) → ℕ → Text → Text
trim_by len skip [] = []
trim_by len (suc skip) (x ∷ s) = trim_by len skip s
trim_by len zero (x ∷ s) = elim (len (x ∷ s)) [ zero ↦ x ∷ s | suc n ↦ trim_by len n s ]

-- `s.trim_start()`, `s.trim_end()`, `s.trim()`
unfoldable pub trim_start : Text → Text
unfolding trim_by white_len
trim_start s = trim_by white_len 0 s

unfoldable pub trim_end : Text → Text
unfolding trim_by white_len_back
trim_end s = reverse (trim_by white_len_back 0 (reverse s))

abbrev pub trim : Text → Text
trim s = trim_end (trim_start s)

-- `s.starts_with(char::is_whitespace)`
unfoldable pub starts_with_whitespace : Text → Bool
unfolding white_len
starts_with_whitespace s = ltb 0 (white_len s)

-- The number of bytes `b` of a text.
unfoldable pub count_byte : ℕ → Text → ℕ
count_byte b [] = 0
count_byte b (x ∷ s) = (if x == b then 1 else 0) + count_byte b s
