-- ===== src/Overrides/Keys.antt =====
-- src/overrides.rs: `OverrideOperation`, the errors of a key, and its flag.
use bbtidy.Base.{◌+◌, ◌-◌, Option, none, some, not, ◌||◌, length, take, is_empty, if◌then◌else◌}
use bbtidy.Text.{Text, text, slice, text_eq, find_byte, contains, ends_with}

-- `None` of the source is `unchanged`, a normal assignment.
pub data OverrideOperation : Type 0 where
  unchanged append prepend remove : OverrideOperation

-- The messages of `OverrideKeyError`.
pub data OverrideKeyError : Type 0 where
  empty_base more_than_one_operation malformed_flag empty_flag : OverrideKeyError
  unclosed_expansion empty_component more_than_one_legacy_operation : OverrideKeyError

pub data KeyResult {ℓ} (A : Type ℓ) : Type ℓ where
  refused : OverrideKeyError → KeyResult A
  accepted : A → KeyResult A

-- `split_flag`
unfoldable pub split_flag : Text → KeyResult (Text × Option Text)
unfolding find_byte
split_flag name = elim (find_byte name b'[') [
  | none ↦ accepted (name, none)
  | some opening ↦
      let flag = slice (opening + 1) (length name - 1) name in
      if not (ends_with name (text "]")) || contains flag b'['
      then refused malformed_flag
      else if is_empty flag
      then refused empty_flag
      else accepted (take opening name, some flag)
]

-- `operation_for`
unfoldable pub operation_for : Text → Option OverrideOperation
unfolding text_eq
operation_for component =
    if text_eq component (text "append")
    then some append
    else if text_eq component (text "prepend")
    then some prepend
    else if text_eq component (text "remove")
    then some remove
    else none
