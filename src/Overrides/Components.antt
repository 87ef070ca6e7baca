-- ===== src/Overrides/Components.antt =====
-- src/overrides.rs: `split_components`.
use bbtidy.Base.{
  ℕ, ◌+◌, ◌-◌, ◌&&◌, List, [], ◌∷◌, ◌++◌, length, any, is_empty, ltb, ◌==◌, if◌then◌else◌,
}
use bbtidy.Text.{Text, text, slice, starts_with}
use bbtidy.Text.Scan.{Move, go, scan}
use bbtidy.Overrides.Keys.{KeyResult, refused, accepted, unclosed_expansion, empty_component}

-- The loop variables; the index is the scan's.
pub record Splitting : Type 0 where
  pub components : List Text
  pub start : ℕ
  pub braces : ℕ

unfoldable pub component_step : Text → ℕ → Text → Splitting → Move Splitting (KeyResult (List Text))
component_step name index [] st = go st 0
component_step name index (byte ∷ rest) st =
    if starts_with (byte ∷ rest) (text "${")
    then go (record st { braces = st.braces + 1 }) 1
    else if (byte == b'}') && ltb 0 st.braces
    then go (record st { braces = st.braces - 1 }) 0
    else if (byte == b':') && (st.braces == 0)
    then go
        (record st {
          components = st.components ++ slice st.start index name ∷ [];
          start = index + 1;
        })
        0
    else go st 0

unfoldable pub components_end : Text → Splitting → KeyResult (List Text)
components_end name st =
    let components = st.components ++ slice st.start (length name) name ∷ [] in
    if ltb 0 st.braces
    then refused unclosed_expansion
    else if any is_empty components
    then refused empty_component
    else accepted components

unfoldable pub split_components : Text → KeyResult (List Text)
split_components name =
    scan (component_step name) (components_end name) 0 0
      (record { components = []; start = 0; braces = 0 }) name
