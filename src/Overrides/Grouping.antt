-- ===== src/Overrides/Grouping.antt =====
-- The values of `resolve_with_active_overrides` of src/overrides.rs, a base at a time.
use bbtidy.Base.{
  ◌≡◌, refl, sym, ap, ◌∙◌, Option, none, some, List, [], ◌∷◌, ◌++◌, append_assoc, append-nil, map,
  Option-cases, Bool-cases, inl, inr, if◌then◌else◌,
}
use mathlib.Core.Option
use bbtidy.Text.{Text, text, text_eq, text_eq-true}
use bbtidy.Text.Maps.{get, update, text_lt, TextMap}
use bbtidy.Text.MapLaws.{
  Ordered, update-Ordered, get-update-same, get-update-other, get-map, map-Ordered,
}
use bbtidy.Overrides.Static.{RawAssignment, resolve_static_environment}
use bbtidy.Overrides.Resolve.{
  ResolvedAssignment, resolved_entry, group_entries, resolve_entries, ordered_set, join_overrides,
  resolve_with_active_overrides,
}

-- The entries of one base among the assignments, in their order.
unfoldable pub entries_of :
    List Text → TextMap → Text → List RawAssignment → List ResolvedAssignment
entries_of active known_values base [] = []
entries_of active known_values base (a ∷ assignments) =
    let later = entries_of active known_values base assignments in
    elim (resolved_entry active known_values a) [
      | none ↦ later
      | some entry ↦ if text_eq base entry.key.base then entry ∷ later else later
    ]

abbrev pub value_of : List Text → List ResolvedAssignment → Option Text
value_of active [] = none
value_of active (e ∷ entries) = some (resolve_entries active (e ∷ entries))

-- What a group holds once more entries are behind it.
abbrev extended :
    Option (List ResolvedAssignment) → List ResolvedAssignment → Option (List ResolvedAssignment)
extended none [] = none
extended none (e ∷ entries) = some (e ∷ entries)
extended (some old) entries = some (old ++ entries)

abbrev pushed : ResolvedAssignment → Option (List ResolvedAssignment) → List ResolvedAssignment
pushed entry old = elim old [ none ↦ entry ∷ [] | some entries ↦ entries ++ entry ∷ [] ]

extended-nil : (old : Option (List ResolvedAssignment)) → old ≡ extended old []
extended-nil none = refl
extended-nil (some old) = ap some (sym (append-nil old))

extended-pushed :
    (entry : ResolvedAssignment) (old : Option (List ResolvedAssignment))
    (later : List ResolvedAssignment)
    → extended (some (pushed entry old)) later ≡ extended old (entry ∷ later)
extended-pushed entry none later = refl
extended-pushed entry (some old) later = ap some (append_assoc old (entry ∷ []) later)

module _ (active : List Text) (known_values : TextMap) where
  group_entries-Ordered :
      (assignments : List RawAssignment) (grouped : List (Text × List ResolvedAssignment))
      → Ordered grouped
      → Ordered (group_entries active known_values assignments grouped)
  unfolding group_entries
  group_entries-Ordered [] grouped o = o
  group_entries-Ordered (a ∷ assignments) grouped o =
      elim (Option-cases (resolved_entry active known_values a)) [
        | inl e ↦ rw (e, group_entries) (group_entries-Ordered assignments grouped o)
        | inr (entry, e) ↦
            rw (e, group_entries)
              (group_entries-Ordered assignments
                (update text_lt text_eq entry.key.base (pushed entry) grouped)
                (update-Ordered (pushed entry) entry.key.base grouped o))
      ]

  get-group_entries :
      (base : Text) (assignments : List RawAssignment)
      (grouped : List (Text × List ResolvedAssignment))
      → Ordered grouped
      → get text_lt text_eq base (group_entries active known_values assignments grouped)
        ≡ extended
            (get text_lt text_eq base grouped)
            (entries_of active known_values base assignments)
  unfolding group_entries entries_of
  get-group_entries base [] grouped o = extended-nil (get text_lt text_eq base grouped)
  get-group_entries base (a ∷ assignments) grouped o =
      elim (Option-cases (resolved_entry active known_values a)) [
        | inl e ↦ rw (e, group_entries, entries_of) (get-group_entries base assignments grouped o)
        | inr (entry, e) ↦
            let later =
              get-group_entries base assignments
                (update text_lt text_eq entry.key.base (pushed entry) grouped)
                (update-Ordered (pushed entry) entry.key.base grouped o) in
            elim (Bool-cases (text_eq base entry.key.base)) [
              | inl same ↦
                  rw (e, group_entries, entries_of)
                    (rw same (
                      later
                      ∙ ap
                          (λ (old : Option (List ResolvedAssignment)).
                            extended old (entries_of active known_values base assignments))
                          (ap
                              (λ (b : Text).
                                get text_lt text_eq b
                                  (update text_lt text_eq entry.key.base (pushed entry) grouped))
                              (text_eq-true base entry.key.base same)
                            ∙ get-update-same (pushed entry) entry.key.base grouped o
                            ∙ ap (λ (b : Text). some (pushed entry (get text_lt text_eq b grouped)))
                                (sym (text_eq-true base entry.key.base same)))
                      ∙ extended-pushed entry (get text_lt text_eq base grouped)
                          (entries_of active known_values base assignments)))
              | inr other ↦
                  rw (e, group_entries, entries_of)
                    (rw other (
                      later
                      ∙ ap
                          (λ (old : Option (List ResolvedAssignment)).
                            extended old (entries_of active known_values base assignments))
                          (get-update-other (pushed entry) entry.key.base base grouped other)))
            ]
      ]

resolved_value :
    (active : List Text) (entries : List ResolvedAssignment)
    → Option.map (resolve_entries active) (extended none entries) ≡ value_of active entries
resolved_value active [] = refl
resolved_value active (e ∷ entries) = refl

-- The set of active overrides that `parse_key` is given, in its order.
abbrev pub active_set : List Text → List Text
active_set overrides = map (λ entry. entry.0) (ordered_set overrides [])

-- What the resolution has for a name: the list of the active overrides for `OVERRIDES`, and for
-- another name the value of the entries whose key has it as its base, if there are any.
abbrev pub specified_value : List RawAssignment → List Text → Text → Option Text
specified_value assignments overrides name =
    if text_eq name (text "OVERRIDES")
    then some (join_overrides overrides)
    else value_of overrides (
        entries_of (active_set overrides) (resolve_static_environment assignments) name assignments)

-- Each name has the value that its own entries give, as if the other names were not there.
pub resolve_with_active_overrides-specified_value :
    (assignments : List RawAssignment) (overrides : List Text) (name : Text)
    → get text_lt text_eq name (resolve_with_active_overrides assignments overrides).values
      ≡ specified_value assignments overrides name
unfolding resolve_with_active_overrides get
resolve_with_active_overrides-specified_value assignments overrides name =
    let known_values = resolve_static_environment assignments in
    let active = active_set overrides in
    let grouped = group_entries active known_values assignments [] in
    let values =
      map (λ (e : Text × List ResolvedAssignment). (e.0, resolve_entries overrides e.1)) grouped in
    let joined : Option Text → Text = λ _. join_overrides overrides in
    let o = group_entries-Ordered active known_values assignments [] tt in
    elim (Bool-cases (text_eq name (text "OVERRIDES"))) [
      | inl same ↦ rw same (
          ap
            (λ (b : Text).
              get text_lt text_eq b (update text_lt text_eq (text "OVERRIDES") joined values))
            (text_eq-true name (text "OVERRIDES") same)
          ∙ get-update-same joined (text "OVERRIDES") values
              (map-Ordered (resolve_entries overrides) grouped o))
      | inr other ↦ rw other (
          get-update-other joined (text "OVERRIDES") name values other
          ∙ get-map (resolve_entries overrides) name grouped
          ∙ ap (Option.map (resolve_entries overrides))
              (get-group_entries active known_values name assignments [] tt)
          ∙ resolved_value overrides (entries_of active known_values name assignments))
    ]
