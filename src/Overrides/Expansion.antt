-- ===== src/Overrides/Expansion.antt =====
-- What `expand_references` of src/overrides.rs makes of a value.
use bbtidy.Base.{
  ℕ, suc, ◌+◌, ◌-◌, ◌≡◌, refl, sym, ap, ◌∙◌, Option, none, some, Bool, true, false, not, ◌||◌, ◌⊎◌,
  List, [], ◌∷◌, ◌++◌, take, drop, any, is_some, All, append_assoc, append-nil, arith, Option-cases,
  Bool-cases, inl, inr, if◌then◌else◌, take_step,
}
use bbtidy.Text.{Text, text, slice, starts_with, find, find_byte, strip_prefix}
use bbtidy.Text.Search.{find_byte-drop}
use bbtidy.Overrides.References.{Expanding, expand_name}

-- A value as plain texts, each with the name of the reference behind it.
abbrev pub Segments : Type 0
Segments = List (Text × Text)

abbrev pub reference : Text → Text
reference name = text "${" ++ (name ++ text "}")

abbrev pub references_text : Segments → Text
references_text [] = []
references_text ((plain, name) ∷ rest) = plain ++ (reference name ++ references_text rest)

module _ (values : Text → Option Text) where
  -- The value of a name that is known and is no Python expression.
  abbrev pub known : Text → Option Text
  unfolding strip_prefix
  known name = if starts_with name (text "@") then none else values name

  abbrev pub written_as : Text → Text
  written_as name = elim (known name) [ some resolved ↦ resolved | none ↦ reference name ]

  abbrev pub references_expanded : Segments → Text
  references_expanded [] = []
  references_expanded ((plain, name) ∷ rest) =
      plain ++ (written_as name ++ references_expanded rest)

  abbrev pub some_unknown : Segments → Bool
  some_unknown segments = any (λ segment. not (is_some (known segment.1))) segments

-- A plain text holds no `${`, and a name no `}`.
abbrev pub IsReference : Text × Text → Type 0
IsReference (plain, name) = (find plain (text "${") ≡ none) × (find_byte name b'}' ≡ none)

-- A `${` with no `}` behind it.
pub record Unclosed (last : Text) : Type 0 where
  pub opening : ℕ
  pub opened : find last (text "${") ≡ some opening
  pub open_to_the_end : find_byte (drop (opening + 2) last) b'}' ≡ none

-- `result` is `value` with every known reference replaced and the others kept, and it is dynamic
-- if one is not known or not closed.
pub record Expanded (values : Text → Option Text) (value : Text) (result : Expanding) : Type 0 where
  pub segments : Segments
  pub last : Text
  pub each : All IsReference segments
  pub read : references_text segments ++ last ≡ value
  pub written : references_expanded values segments ++ last ≡ result.output
  pub ending :
      ((find last (text "${") ≡ none) × (some_unknown values segments ≡ result.dynamic))
      ⊎ (Unclosed last × (result.dynamic ≡ true))

regroup : (a b c d : Text) → a ++ (b ++ (c ++ d)) ≡ (a ++ (b ++ c)) ++ d
regroup a b c d = ap (◌++◌ a) (sym (append_assoc b c d)) ∙ sym (append_assoc a (b ++ c) d)

pub references_text-append :
    (segments : Segments) (plain name : Text)
    → references_text (segments ++ (plain, name) ∷ [])
      ≡ references_text segments ++ (plain ++ reference name)
references_text-append [] plain name = ap (◌++◌ plain) (append-nil (reference name))
references_text-append ((p, n) ∷ rest) plain name =
    ap (λ (t : Text). p ++ (reference n ++ t)) (references_text-append rest plain name)
    ∙ regroup p (reference n) (references_text rest) (plain ++ reference name)

or_assoc : (a b c : Bool) → (a || (b || c)) ≡ ((a || b) || c)
or_assoc true b c = refl
or_assoc false b c = refl

or_false : (a : Bool) → (a || false) ≡ a
or_false true = refl
or_false false = refl

or_true : (a : Bool) → (a || true) ≡ true
or_true true = refl
or_true false = refl

module _ (values : Text → Option Text) where
  pub references_expanded-append :
      (segments : Segments) (plain name : Text)
      → references_expanded values (segments ++ (plain, name) ∷ [])
        ≡ references_expanded values segments ++ (plain ++ written_as values name)
  references_expanded-append [] plain name = ap (◌++◌ plain) (append-nil (written_as values name))
  references_expanded-append ((p, n) ∷ rest) plain name =
      ap (λ (t : Text). p ++ (written_as values n ++ t))
        (references_expanded-append rest plain name)
      ∙ regroup p (written_as values n) (references_expanded values rest)
          (plain ++ written_as values name)

  pub some_unknown-append :
      (segments : Segments) (plain name : Text)
      → some_unknown values (segments ++ (plain, name) ∷ [])
        ≡ (some_unknown values segments || not (is_some (known values name)))
  some_unknown-append [] plain name = or_false (not (is_some (known values name)))
  some_unknown-append ((p, n) ∷ rest) plain name =
      ap (◌||◌ (not (is_some (known values n)))) (some_unknown-append rest plain name)
      ∙ or_assoc (not (is_some (known values n))) (some_unknown values rest)
          (not (is_some (known values name)))

  pub expand_name_lem :
      (name output : Text) (dynamic : Bool)
      → expand_name name
          (reference name)
          (values name)
          (record { output = output; dynamic = dynamic })
        ≡ record {
          output = output ++ written_as values name;
          dynamic = dynamic || not (is_some (known values name));
        }
  unfolding expand_name strip_prefix
  expand_name_lem name output dynamic = elim (Bool-cases (starts_with name (text "@"))) [
    | inl e ↦ rw e (
        ap (λ (d : Bool). record { output = output ++ reference name; dynamic = d })
          (sym (or_true dynamic)))
    | inr e ↦ elim (Option-cases (values name)) [
      | inl f ↦ rw e (
          rw f (
            ap (λ (d : Bool). record { output = output ++ reference name; dynamic = d })
              (sym (or_true dynamic))))
      | inr (r, f) ↦ rw e (
          rw f (
            ap (λ (d : Bool). record { output = output ++ r; dynamic = d })
              (sym (or_false dynamic))))
    ]
  ]

module _ (value : Text) where
  -- The reference that opens at `start`, with `k` bytes before its brace.
  pub reference_at :
      (start k : ℕ)
      → drop start value ≡ text "${" ++ drop (start + 2) value
      → find_byte (drop (start + 2) value) b'}' ≡ some k
      → slice start (start + 2 + k + 1) value ≡ reference (slice (start + 2) (start + 2 + k) value)
  reference_at start k e f =
      ap (take (start + 2 + k + 1 - start)) e
      ∙ ap (λ (n : ℕ). take n (text "${" ++ drop (start + 2) value)) {y = suc (suc (k + 1))}
          (omega arith)
      ∙ ap (λ (t : Text). text "${" ++ t)
          (sym (
            take_step k (drop (start + 2) value)
              (find_byte-drop (drop (start + 2) value) b'}' k f)))
      ∙ ap (λ (n : ℕ). text "${" ++ (take n (drop (start + 2) value) ++ text "}")) {x = k}
          (omega arith)
