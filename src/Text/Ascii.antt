-- ===== src/Text/Ascii.antt =====
-- The ASCII classes of bytes: `u8::is_ascii_whitespace`, `u8::is_ascii_alphanumeric`.
use bbtidy.Base.{ℕ, Bool, ◌&&◌, ◌||◌, leb, ◌==◌}

-- space, tab, line feed, form feed, carriage return
unfoldable pub is_ascii_whitespace : ℕ → Bool
is_ascii_whitespace c = (c == b' ') || (c == 9) || (c == 10) || (c == 12) || (c == 13)

unfoldable pub is_ascii_alphanumeric : ℕ → Bool
is_ascii_alphanumeric c =
    (leb b'a' c && leb c b'z') || (leb b'A' c && leb c b'Z') || (leb b'0' c && leb c b'9')

abbrev pub is_quote : ℕ → Bool
is_quote c = (c == b'\'') || (c == b'"')

abbrev pub is_space_or_tab : ℕ → Bool
is_space_or_tab c = (c == b' ') || (c == 9)
