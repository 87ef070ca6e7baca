-- ===== src/Overrides/References.antt =====
-- src/overrides.rs: `expand_references`, with the map of the known values as a function.
use bbtidy.Base.{
  ℕ, ◌+◌, ◌-◌, Option, none, some, Bool, true, false, [], ◌++◌, take, drop, if◌then◌else◌,
}
use bbtidy.Text.{Text, text, slice, find, find_byte, starts_with}
use bbtidy.Text.Scan.{Move, go, stop, scan}

pub record Expanding : Type 0 where
  pub output : Text
  pub dynamic : Bool

-- The reference `${name}`, by its value if it is known.
unfoldable pub expand_name : Text → Text → Option Text → Expanding → Expanding
expand_name name whole value st =
    let unresolved : Expanding = record { output = st.output ++ whole; dynamic = true } in
    if starts_with name (text "@") then unresolved else elim value [
      | some resolved ↦ record { output = st.output ++ resolved; dynamic = st.dynamic }
      | none ↦ unresolved
    ]

unfoldable pub reference_step :
    (Text → Option Text) → Text → ℕ → Text → Expanding → Move Expanding Expanding
reference_step values value index remainder st = elim (find remainder (text "${")) [
  | none ↦ stop (record { output = st.output ++ remainder; dynamic = st.dynamic })
  | some relative ↦
      let start = index + relative in
      let before = st.output ++ take relative remainder in
      elim (find_byte (drop (start + 2) value) b'}') [
        | none ↦ stop (record { output = before ++ drop start value; dynamic = true })
        | some end_relative ↦
            let end = start + 2 + end_relative in
            let name = slice (start + 2) end value in
            go
              (expand_name name (slice start (end + 1) value) (values name)
                (record { output = before; dynamic = st.dynamic }))
              (end - index)
      ]
]

unfoldable pub expand_references : (Text → Option Text) → Text → Expanding
expand_references values value =
    scan (reference_step values value) (λ st. st) 0 0 (record { output = []; dynamic = false })
      value
