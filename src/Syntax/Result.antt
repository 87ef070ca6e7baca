-- ===== src/Syntax/Result.antt =====
-- `FormatError` of src/lib.rs, and results that may be one. The messages are the constructors of
-- `Message`; `panic` stands for the panics of `expect`.
use bbtidy.Base.{ℕ}

pub data Message : Type 0 where
  -- "function body has no closing brace"
  no_closing_brace : Message
  -- "statement ends with an unterminated continuation"
  unterminated_continuation : Message
  -- "top-level assignment contains an unclosed quote"
  unclosed_quote : Message

pub data Failure : Type 0 where
  format_error : ℕ → Message → Failure
  panic : Failure

pub data Result {ℓ} (A : Type ℓ) : Type ℓ where
  err : Failure → Result A
  ok : A → Result A

-- The operator `?`: the rest of a function behind a part of it that may fail.
infixl 5 ◌>>=◌
abbrev pub ◌>>=◌ {ℓ} : {A B : Type ℓ} (part : Result A) (rest : A → Result B) → Result B
◌>>=◌ (err failure) rest = err failure
◌>>=◌ (ok value) rest = rest value
