-- ===== src/Scanner/Quotes.antt =====
-- src/lib.rs: quotes, escapes and comments on one logical line.
use bbtidy.Base.{
  ℕ, Option, none, some, Bool, true, false, [], ◌∷◌, ◌==◌, if◌then◌else◌, is_some, not,
}
use bbtidy.Text.{Text, is_quote}
use bbtidy.Text.Scan.{Move, go, stop, scan}

-- The loop variables `quote` and `escaped`.
pub record Quoting : Type 0 where
  pub quote : Option ℕ
  pub escaped : Bool

abbrev pub unquoted : Quoting
unquoted = record { quote = none; escaped = false }

-- What the loops do with a byte under an escape or inside quotes, at a backslash and at an opening
-- quote; `none` for any other byte, which each loop treats in its own way.
unfoldable pub quote_step : Quoting → ℕ → Option Quoting
quote_step q byte =
    if q.escaped
    then some (record q { escaped = false })
    else if byte == b'\\'
    then some (record q { escaped = true })
    else elim q.quote [
      | some active ↦ some (if byte == active then record q { quote = none } else q)
      | none ↦ if is_quote byte then some (record q { quote = some byte }) else none
    ]

unfoldable pub comment_step : ℕ → Text → Quoting → Move Quoting (Option ℕ)
unfolding quote_step
comment_step index [] q = go q 0
comment_step index (byte ∷ rest) q = elim (quote_step q byte) [
  | some q' ↦ go q' 0
  | none ↦ if byte == b'#' then stop (some index) else go q 0
]

unfoldable pub comment_start : Text → Option ℕ
unfolding comment_step scan
comment_start s = scan comment_step (λ _. none) 0 0 unquoted s

unfoldable pub balance_step : ℕ → Text → Quoting → Move Quoting Bool
unfolding quote_step
balance_step index [] q = go q 0
balance_step index (byte ∷ rest) q = elim (quote_step q byte) [
  | some q' ↦ go q' 0
  | none ↦ if byte == b'#' then stop (not (is_some q.quote)) else go q 0
]

unfoldable pub has_balanced_quotes : Text → Bool
unfolding balance_step scan
has_balanced_quotes s = scan balance_step (λ q. not (is_some q.quote)) 0 0 unquoted s
